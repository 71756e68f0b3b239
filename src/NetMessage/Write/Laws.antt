-- ===== src/NetMessage/Write/Laws.antt =====
-- What a write leaves behind: the bytes written so far, the bytes after them, and the head fields.
use Prim.Native.Nat.{max}
use socketforioswinandroid.Common.{
  ℕ, suc, ◌+◌, ◌^◌, ◌≤◌, ◌<◌, ◌≡◌, refl, sym, ap, ◌∙◌, List, [], ◌∷◌, ◌++◌, append-nil,
  append_assoc, length, length-append, length-set, get_elem?, get_elem?-set_ne, take, take_ext,
  take-set_next, true, leb, lt→ltb, arith, pos, pos_part, ◌+ℤ◌, Result, ok, ◌>>=◌, Returns, returns,
  Returns-bind,
}
use socketforioswinandroid.MemBuffer.{
  Allocator, MemBuffer, store, copy_in, IsAllocator, HasMemory, IsBlock,
}
use socketforioswinandroid.MemBuffer.Growth.{grow-Returns}
use socketforioswinandroid.MemBuffer.Copy.{Copied, copy_in-Copied}
use socketforioswinandroid.NetMessage.{
  NetMessage, grow_to, check_buf_size, set_buf_value, copy_to_current, skip,
}

-- The buffer is a block, and the current position is in it.
pub record CanWrite (m : NetMessage) : Type 0 where
  pub block : IsBlock m.m_buffer
  pub inside : m.m_cur_pos ≤ m.m_buffer.m_size
  pub some_room : 1 ≤ m.m_buffer.m_size

-- `bytes` were written at the position of `m`, and the block has room for `k` more behind them.
pub record Wrote (m : NetMessage) (bytes : List ℕ) (k : ℕ) (m' : NetMessage) : Type 0 where
  pub same_size : m'.m_size ≡ m.m_size
  pub same_head : m'.m_head_size ≡ m.m_head_size
  pub same_start : m'.m_buf_start_pos ≡ m.m_buf_start_pos
  pub position : m'.m_cur_pos ≡ m.m_cur_pos + length bytes
  pub room : m'.m_cur_pos + k ≤ m'.m_buffer.m_size
  pub block : IsBlock m'.m_buffer
  pub larger : m.m_buffer.m_size ≤ m'.m_buffer.m_size
  pub bounded : m'.m_buffer.m_size ≤ max m.m_buffer.m_size 0x7fffffff
  pub front : take m'.m_cur_pos m'.m_buffer.m_buf ≡ take m.m_cur_pos m.m_buffer.m_buf ++ bytes
  pub back :
      (i : ℕ)
      → m'.m_cur_pos ≤ i
      → i < m.m_buffer.m_size
      → get_elem? m'.m_buffer.m_buf i ≡ get_elem? m.m_buffer.m_buf i

pos_part_sum : (p n : ℕ) → pos_part (pos p +ℤ pos n) ≡ p + n
pos_part_sum p n = ground arith

check_buf_size-grow_to :
    (a : Allocator) (n : ℕ) (m : NetMessage)
    → check_buf_size a (pos n) m ≡ grow_to a (m.m_cur_pos + n) m
unfolding check_buf_size
check_buf_size-grow_to a n m = ap (λ t. grow_to a t m) (pos_part_sum m.m_cur_pos n)

module _ (a : Allocator) (law : IsAllocator a) (memory : HasMemory a) where
  grow_to-Wrote :
      (n : ℕ) (m : NetMessage)
      → CanWrite m
      → m.m_cur_pos + n ≤ 2 ^ 30
      → Returns (Wrote m [] n) (grow_to a (m.m_cur_pos + n) m)
  unfolding grow_to
  grow_to-Wrote n m w bound = rw (lt→ltb (m.m_cur_pos + n) (2 ^ 31) (omega arith)) (
      Returns-bind
        (grow-Returns a law memory 31 (m.m_cur_pos + n) m.m_buffer w.block bound
          (omega (arith, w.some_room)))
        λ b (e, fits). returns (record {
          same_size = refl;
          same_head = refl;
          same_start = refl;
          position = omega arith;
          room = fits;
          block = e.block;
          larger = e.larger;
          bounded = e.bounded;
          front =
              take_ext b.m_buf m.m_buffer.m_buf m.m_cur_pos
                (omega (arith, e.block, e.larger, w.inside)) (omega (arith, w.block, w.inside))
                (λ i l. e.keeps i (omega (arith, w.inside)))
              ∙ sym (append-nil _);
          back = λ i l h. e.keeps i h;
        }))

  pub check_buf_size-Wrote :
      (n : ℕ) (m : NetMessage)
      → CanWrite m
      → m.m_cur_pos + n ≤ 2 ^ 30
      → Returns (Wrote m [] n) (check_buf_size a (pos n) m)
  check_buf_size-Wrote n m w bound = rw (check_buf_size-grow_to a n m) (grow_to-Wrote n m w bound)

-- One byte more.
pub set_buf_value-Wrote :
    (v : ℕ) (m : NetMessage) (bytes : List ℕ) (k : ℕ) (m' : NetMessage)
    → Wrote m bytes (suc k) m'
    → Returns (Wrote m (bytes ++ (v ∷ [])) k) (set_buf_value v m')
unfolding set_buf_value store
set_buf_value-Wrote v m bytes k m' w =
    let inside : m'.m_cur_pos < length m'.m_buffer.m_buf = omega (arith, w.room, w.block) in
    let next : m'.m_cur_pos + 1 ≡ suc m'.m_cur_pos = omega arith in
    rw (lt→ltb m'.m_cur_pos (length m'.m_buffer.m_buf) inside) (
      returns (record {
        same_size = w.same_size;
        same_head = w.same_head;
        same_start = w.same_start;
        position = omega (arith, w.position, length-append bytes (v ∷ []));
        room = omega (arith, w.room);
        block = length-set m'.m_buffer.m_buf m'.m_cur_pos v ∙ w.block;
        larger = w.larger;
        bounded = w.bounded;
        front =
            rw (next, take-set_next m'.m_buffer.m_buf m'.m_cur_pos v inside, w.front, append_assoc);
        back =
            λ i l h. get_elem?-set_ne m'.m_buffer.m_buf v (omega arith) ∙ w.back i (omega arith) h;
      }))

pub skip-ok :
    (n : ℕ) (m : NetMessage)
    → m.m_cur_pos + n < 2 ^ 31
    → skip n m ≡ ok (record m { m_cur_pos = m.m_cur_pos + n })
unfolding skip
skip-ok n m h = ground arith

pub take-all : (xs : List ℕ) → take (length xs) xs ≡ xs
take-all [] = refl
take-all (x ∷ xs) = ap (λ t. x ∷ t) (take-all xs)

leb_self : (n : ℕ) → leb n n ≡ true
leb_self n = ground arith

pub copy_to_current-whole :
    (vs : List ℕ) (m : NetMessage)
    → copy_to_current vs (pos (length vs)) m
      ≡ (copy_in m.m_buffer m.m_cur_pos vs >>= λ b. ok (record m { m_buffer = b }))
unfolding copy_to_current
copy_to_current-whole vs m = rw (leb_self (length vs), take-all vs)

-- memcpy of a whole array, and the step over it.
pub copy_and_skip-Wrote :
    (vs : List ℕ) (m : NetMessage) (bytes : List ℕ) (m' : NetMessage)
    → Wrote m bytes (length vs) m'
    → m'.m_cur_pos + length vs < 2 ^ 31
    → Returns
        (Wrote m (bytes ++ vs) 0)
        (copy_to_current vs (pos (length vs)) m' >>= skip (length vs))
copy_and_skip-Wrote vs m bytes m' w small =
    rw (copy_to_current-whole vs m')
      (copied (copy_in-Copied vs m'.m_cur_pos m'.m_buffer w.block w.room))
  where
    after :
        (b : MemBuffer)
        → Copied m'.m_buffer m'.m_cur_pos vs b
        → Wrote m (bytes ++ vs) 0 (record m' { m_cur_pos = m'.m_cur_pos + length vs; m_buffer = b })
    after b c = record {
      same_size = w.same_size;
      same_head = w.same_head;
      same_start = w.same_start;
      position = omega (arith, w.position, length-append bytes vs);
      room = omega (arith, w.room, c.same_size);
      block = c.block;
      larger = omega (arith, w.larger, c.same_size);
      bounded = omega (arith, w.bounded, c.same_size);
      front = rw (c.front, w.front, append_assoc);
      back = λ i l h. c.back i l ∙ w.back i (omega arith) h;
    }

    copied :
        {r : Result MemBuffer}
        → Returns (Copied m'.m_buffer m'.m_cur_pos vs) r
        → Returns
            (Wrote m (bytes ++ vs) 0)
            (r >>= (λ b. ok (record m' { m_buffer = b })) >>= skip (length vs))
    copied (returns {a = b} c) =
        rw (skip-ok (length vs) (record m' { m_buffer = b }) small) (returns (after b c))

pub Wrote-CanWrite :
    (m : NetMessage) (bytes : List ℕ) (k : ℕ) (m' : NetMessage)
    → CanWrite m
    → Wrote m bytes k m'
    → CanWrite m'
Wrote-CanWrite m bytes k m' c w = record {
  block = w.block;
  inside = omega (arith, w.room);
  some_room = omega (arith, w.larger, c.some_room);
}

-- A write behind a write is a write of both.
pub Wrote-trans :
    (m : NetMessage) (xs : List ℕ) (j : ℕ) (m1 : NetMessage) (ys : List ℕ) (k l : ℕ)
    (m2 : NetMessage)
    → Wrote m xs j m1
    → Wrote m1 ys k m2
    → m2.m_cur_pos + l ≤ m2.m_buffer.m_size
    → Wrote m (xs ++ ys) l m2
Wrote-trans m xs j m1 ys k l m2 v w fits = record {
  same_size = w.same_size ∙ v.same_size;
  same_head = w.same_head ∙ v.same_head;
  same_start = w.same_start ∙ v.same_start;
  position = omega (arith, v.position, w.position, length-append xs ys);
  room = fits;
  block = w.block;
  larger = omega (arith, v.larger, w.larger);
  bounded = omega (arith, w.bounded, v.bounded);
  front = rw (w.front, v.front, append_assoc);
  back = λ i p h. w.back i p (omega (arith, v.larger)) ∙ v.back i (omega (arith, w.position)) h;
}
