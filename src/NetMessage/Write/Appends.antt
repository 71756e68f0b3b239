-- ===== src/NetMessage/Write/Appends.antt =====
-- Every writer appends the big-endian bytes of its value.
use socketforioswinandroid.Common.{
  ℕ, suc, ◌+◌, ◌^◌, ◌≤◌, List, [], ◌∷◌, ◌++◌, Bool, if◌then◌else◌, length, arith, ℤ, pos, to_word,
  be_bytes, ◌>>=◌, Returns, Returns-bind,
}
use socketforioswinandroid.MemBuffer.{Allocator, IsAllocator, HasMemory}
use socketforioswinandroid.NetMessage.{NetMessage, set_buf_value}
use socketforioswinandroid.NetMessage.Write.{
  w_int8, w_uint8, w_boolean, w_ushort, w_short, w_uint, w_int, w_float, w_double, w_raw,
}
use socketforioswinandroid.NetMessage.Write.Laws.{
  CanWrite, Wrote, check_buf_size-Wrote, set_buf_value-Wrote, copy_and_skip-Wrote,
}

set_two :
    (b0 b1 : ℕ) (m m' : NetMessage)
    → Wrote m [] 2 m'
    → Returns (Wrote m (b0 ∷ b1 ∷ []) 0) (set_buf_value b0 m' >>= set_buf_value b1)
set_two b0 b1 m m' w =
    Returns-bind (set_buf_value-Wrote b0 m [] 1 m' w) (set_buf_value-Wrote b1 m (b0 ∷ []) 0)

set_four :
    (b0 b1 b2 b3 k : ℕ) (m : NetMessage) (bytes : List ℕ) (m' : NetMessage)
    → Wrote m bytes (suc (suc (suc (suc k)))) m'
    → Returns (Wrote m ((((bytes ++ b0 ∷ []) ++ b1 ∷ []) ++ b2 ∷ []) ++ b3 ∷ []) k) (
        set_buf_value b0 m' >>= λ m.
        (set_buf_value b1 m >>= λ m. (set_buf_value b2 m >>= set_buf_value b3)))
set_four b0 b1 b2 b3 k m bytes m' w = Returns-bind (set_buf_value-Wrote b0 m _ _ m' w) λ m1 w1.
    Returns-bind (set_buf_value-Wrote b1 m _ _ m1 w1)
      λ m2 w2. Returns-bind (set_buf_value-Wrote b2 m _ _ m2 w2) (set_buf_value-Wrote b3 m _ _)

module _ (a : Allocator) (law : IsAllocator a) (memory : HasMemory a) where
  pub w_ushort-Wrote :
      (v : ℕ) (m : NetMessage)
      → CanWrite m
      → m.m_cur_pos + 2 ≤ 2 ^ 30
      → Returns (Wrote m (be_bytes 2 v) 0) (w_ushort a v m)
  unfolding w_ushort
  w_ushort-Wrote v m w h = Returns-bind (check_buf_size-Wrote a law memory 2 m w h) (set_two _ _ m)

  pub w_uint8-Wrote :
      (v : ℕ) (m : NetMessage)
      → CanWrite m
      → m.m_cur_pos + 1 ≤ 2 ^ 30
      → Returns (Wrote m (be_bytes 1 v) 0) (w_uint8 a v m)
  unfolding w_uint8
  w_uint8-Wrote v m w h =
      Returns-bind (check_buf_size-Wrote a law memory 1 m w h) (set_buf_value-Wrote _ m [] 0)

  pub w_int8-Wrote :
      (v : ℤ) (m : NetMessage)
      → CanWrite m
      → m.m_cur_pos + 1 ≤ 2 ^ 30
      → Returns (Wrote m (be_bytes 1 (to_word 32 v)) 0) (w_int8 a v m)
  unfolding w_int8
  w_int8-Wrote v m w h =
      Returns-bind (check_buf_size-Wrote a law memory 1 m w h) (set_buf_value-Wrote _ m [] 0)

  pub w_boolean-Wrote :
      (v : Bool) (m : NetMessage)
      → CanWrite m
      → m.m_cur_pos + 1 ≤ 2 ^ 30
      → Returns (Wrote m ((if v then 1 else 0) ∷ []) 0) (w_boolean a v m)
  unfolding w_boolean
  w_boolean-Wrote v m w h =
      Returns-bind (check_buf_size-Wrote a law memory 1 m w h) (set_buf_value-Wrote _ m [] 0)

  pub w_short-Wrote :
      (v : ℤ) (m : NetMessage)
      → CanWrite m
      → m.m_cur_pos + 2 ≤ 2 ^ 30
      → Returns (Wrote m (be_bytes 2 (to_word 32 v)) 0) (w_short a v m)
  unfolding w_short
  w_short-Wrote v m w h = Returns-bind (check_buf_size-Wrote a law memory 2 m w h) (set_two _ _ m)

  pub w_uint-Wrote :
      (v : ℕ) (m : NetMessage)
      → CanWrite m
      → m.m_cur_pos + 4 ≤ 2 ^ 30
      → Returns (Wrote m (be_bytes 4 v) 0) (w_uint a v m)
  unfolding w_uint
  w_uint-Wrote v m w h =
      Returns-bind (check_buf_size-Wrote a law memory 4 m w h) (set_four _ _ _ _ 0 m [])

  pub w_float-Wrote :
      (v : ℕ) (m : NetMessage)
      → CanWrite m
      → m.m_cur_pos + 4 ≤ 2 ^ 30
      → Returns (Wrote m (be_bytes 4 v) 0) (w_float a v m)
  unfolding w_float
  w_float-Wrote v m w h =
      Returns-bind (check_buf_size-Wrote a law memory 4 m w h) (set_four _ _ _ _ 0 m [])

  -- The size of the buffer is asked for before, so a string's length can follow another check.
  pub w_int-Wrote :
      (v : ℤ) (m : NetMessage)
      → CanWrite m
      → m.m_cur_pos + 4 ≤ 2 ^ 30
      → Returns (Wrote m (be_bytes 4 (to_word 32 v)) 0) (w_int a v m)
  unfolding w_int
  w_int-Wrote v m w h =
      Returns-bind (check_buf_size-Wrote a law memory 4 m w h) (set_four _ _ _ _ 0 m [])

  pub w_double-Wrote :
      (v : ℕ) (m : NetMessage)
      → CanWrite m
      → m.m_cur_pos + 8 ≤ 2 ^ 30
      → Returns (Wrote m (be_bytes 8 v) 0) (w_double a v m)
  unfolding w_double
  w_double-Wrote v m w h = Returns-bind (check_buf_size-Wrote a law memory 8 m w h) λ m0 w0.
      Returns-bind (set_buf_value-Wrote _ m [] 7 m0 w0) λ m1 w1.
        Returns-bind (set_buf_value-Wrote _ m _ 6 m1 w1) λ m2 w2.
          Returns-bind (set_buf_value-Wrote _ m _ 5 m2 w2) λ m3 w3.
            Returns-bind (set_buf_value-Wrote _ m _ 4 m3 w3) λ m4 w4. set_four _ _ _ _ 0 m _ m4 w4

  pub w_raw-Wrote :
      (vs : List ℕ) (m : NetMessage)
      → CanWrite m
      → m.m_cur_pos + length vs ≤ 2 ^ 30
      → Returns (Wrote m vs 0) (w_raw a vs (pos (length vs)) m)
  unfolding w_raw
  w_raw-Wrote vs m w h =
      Returns-bind (check_buf_size-Wrote a law memory (length vs) m w h)
        λ m0 w0. copy_and_skip-Wrote vs m [] m0 w0 (omega (arith, w0.position))
