-- ===== src/NetMessage/Fields/RoundTrip.antt =====
-- Writing a list of fields, and reading it back.
use socketforioswinandroid.Common.{
  ℕ, ◌+◌, ◌^◌, ◌≤◌, ◌<◌, ◌≡◌, refl, sym, ap, ◌∙◌, List, [], ◌∷◌, ◌++◌, append_assoc, append-nil,
  length, length-append, take, drop, take-append-drop, length-take, drop-length, arith, pos, Result,
  Returns, returns, Returns-bind, Returns-mono,
}
use socketforioswinandroid.MemBuffer.{Allocator, IsAllocator, HasMemory}
use socketforioswinandroid.NetMessage.{NetMessage}
use socketforioswinandroid.NetMessage.Write.Laws.{CanWrite, Wrote, Wrote-CanWrite, Wrote-trans}
use socketforioswinandroid.NetMessage.Write.Appends.{
  w_int8-Wrote, w_uint8-Wrote, w_boolean-Wrote, w_ushort-Wrote, w_short-Wrote, w_uint-Wrote,
  w_int-Wrote, w_float-Wrote, w_double-Wrote, w_raw-Wrote,
}
use socketforioswinandroid.NetMessage.Write.Compound.{w_int64-Wrote, w_string-Wrote}
use socketforioswinandroid.NetMessage.Read.Laws.{
  unread, Reads, Next-start, r_int8-Reads, r_uint8-Reads, r_boolean-Reads, r_ushort-Reads,
  r_short-Reads, r_uint-Reads, r_int-Reads, r_float-Reads,
}
use socketforioswinandroid.NetMessage.Read.Wide.{r_int64-Reads, r_double-Reads}
use socketforioswinandroid.NetMessage.Read.Text.{read_raw-Reads, read_string-Reads, Next-trans}
use socketforioswinandroid.NetMessage.Fields.{
  Field, int8, uint8, boolean, short, ushort, int, uint, int64, float, double, string, raw, InRange,
  AllInRange, encode, encode_all, write_field, write_fields, read_as, read_field, read_fields,
}

module _ (a : Allocator) (law : IsAllocator a) (memory : HasMemory a) where
  -- While memory does not run out, and the position is in a block that has a byte at least, each
  -- writer of a field that ends by 2 ^ 30 comes to an end without a fault and appends the field's
  -- encoding to the bytes before the current position. It leaves the head fields and the bytes
  -- behind as they were.
  pub write_field-Wrote :
      (f : Field) (m : NetMessage)
      → CanWrite m
      → m.m_cur_pos + length (encode f) ≤ 2 ^ 30
      → Returns (Wrote m (encode f) 0) (write_field a f m)
  unfolding write_field
  write_field-Wrote (int8 v) m c h = w_int8-Wrote a law memory v m c h
  write_field-Wrote (uint8 v) m c h = w_uint8-Wrote a law memory v m c h
  write_field-Wrote (boolean v) m c h = w_boolean-Wrote a law memory v m c h
  write_field-Wrote (short v) m c h = w_short-Wrote a law memory v m c h
  write_field-Wrote (ushort v) m c h = w_ushort-Wrote a law memory v m c h
  write_field-Wrote (int v) m c h = w_int-Wrote a law memory v m c h
  write_field-Wrote (uint v) m c h = w_uint-Wrote a law memory v m c h
  write_field-Wrote (int64 v) m c h = w_int64-Wrote a law memory v m c h
  write_field-Wrote (float v) m c h = w_float-Wrote a law memory v m c h
  write_field-Wrote (double v) m c h = w_double-Wrote a law memory v m c h
  write_field-Wrote (string vs) m c h =
      w_string-Wrote a law memory vs m c
        (omega (arith, length-append (encode (int (pos (length vs)))) vs))
  write_field-Wrote (raw vs) m c h = w_raw-Wrote a law memory vs m c h

  pub write_fields-Wrote :
      (fs : List Field) (m : NetMessage)
      → CanWrite m
      → m.m_cur_pos + length (encode_all fs) ≤ 2 ^ 30
      → Returns (Wrote m (encode_all fs) 0) (write_fields a fs m)
  unfolding write_fields
  write_fields-Wrote [] m c h = returns (record {
    same_size = refl;
    same_head = refl;
    same_start = refl;
    position = omega arith;
    room = omega (arith, c.inside);
    block = c.block;
    larger = omega arith;
    bounded = omega arith;
    front = sym (append-nil _);
    back = λ i l h. refl;
  })
  write_fields-Wrote (f ∷ fs) m c h =
      let total : length (encode f ++ encode_all fs) ≡ length (encode f) + length (encode_all fs) =
        length-append (encode f) (encode_all fs) in
      Returns-bind (write_field-Wrote f m c (omega arith)) λ m1 w1.
        Returns-mono
          (write_fields-Wrote fs m1 (Wrote-CanWrite m _ _ m1 c w1) (omega (arith, w1.position)))
          λ m2 w2. Wrote-trans m _ _ m1 _ _ _ m2 w1 w2 w2.room

read_as-Reads {ℓ} :
    {A : Type ℓ} (c : A → Field) (m : NetMessage) (v : A) (k : ℕ) (rest : List ℕ)
    {r : Result (A × NetMessage)}
    → Returns (Reads m v k rest) r
    → Returns (Reads m (c v) k rest) (read_as c r)
read_as-Reads c m v k rest g = Returns-bind g λ (x, m') (e, n). returns (ap c e, n)

-- Where a field's encoding is next, the reader of its type returns the field and goes on behind it.
pub read_field-Reads :
    (f : Field) (rest : List ℕ) (m : NetMessage)
    → InRange f
    → length m.m_buffer.m_buf < 2 ^ 31
    → unread m ≡ encode f ++ rest
    → Returns (Reads m f (length (encode f)) rest) (read_field f m)
unfolding read_field
read_field-Reads (int8 v) rest m g h e = read_as-Reads int8 m v 1 rest (r_int8-Reads rest m v g e)
read_field-Reads (uint8 v) rest m g h e =
    read_as-Reads uint8 m v 1 rest (r_uint8-Reads rest m v g e)
read_field-Reads (boolean v) rest m g h e =
    read_as-Reads boolean m v 1 rest (r_boolean-Reads rest m v e)
read_field-Reads (short v) rest m g h e =
    read_as-Reads short m v 2 rest (r_short-Reads rest m v g e)
read_field-Reads (ushort v) rest m g h e =
    read_as-Reads ushort m v 2 rest (r_ushort-Reads rest m v g e)
read_field-Reads (int v) rest m g h e = read_as-Reads int m v 4 rest (r_int-Reads rest m v g e)
read_field-Reads (uint v) rest m g h e = read_as-Reads uint m v 4 rest (r_uint-Reads rest m v g e)
read_field-Reads (int64 v) rest m g h e =
    read_as-Reads int64 m v 8 rest (r_int64-Reads rest m v g e)
read_field-Reads (float v) rest m g h e =
    read_as-Reads float m v 4 rest (r_float-Reads rest m v g e)
read_field-Reads (double v) rest m g h e =
    read_as-Reads double m v 8 rest (r_double-Reads rest m v g e)
read_field-Reads (string vs) rest m g h e =
    let size : length (encode (string vs)) ≡ 4 + length vs = omega arith in
    rw size (
      read_as-Reads string m vs (4 + length vs) rest (
        read_string-Reads vs rest m h g
          (e ∙ append_assoc (encode (int (pos (length vs)))) vs rest)))
read_field-Reads (raw vs) rest m g h e =
    read_as-Reads raw m vs (length vs) rest (read_raw-Reads vs rest m h e)

pub read_fields-Reads :
    (fs : List Field) (rest : List ℕ) (m : NetMessage)
    → AllInRange fs
    → length m.m_buffer.m_buf < 2 ^ 31
    → unread m ≡ encode_all fs ++ rest
    → Returns (Reads m fs (length (encode_all fs)) rest) (read_fields fs m)
unfolding read_fields
read_fields-Reads [] rest m g h e = returns (refl, Next-start m rest e)
read_fields-Reads (f ∷ fs) rest m g h e =
    Returns-bind
      (read_field-Reads f (encode_all fs ++ rest) m g.0 h
        (e ∙ append_assoc (encode f) (encode_all fs) rest))
      λ (x, m1) (ex, n1).
        Returns-bind (read_fields-Reads fs rest m1 g.1 (rw n1.state h) n1.next)
          λ (xs, m2) (exs, n2).
            let total : length (encode f ++ encode_all fs)
                ≡ length (encode f) + length (encode_all fs) =
              length-append (encode f) (encode_all fs) in
            returns (rw (ex, exs), rw total (Next-trans m _ _ m1 _ rest m2 n1 n2))

-- The bytes from the old position on, after a write.
pub written-unread :
    (m : NetMessage) (bytes : List ℕ) (k : ℕ) (m' : NetMessage)
    → m.m_cur_pos ≤ length m.m_buffer.m_buf
    → Wrote m bytes k m'
    → drop m.m_cur_pos m'.m_buffer.m_buf ≡ bytes ++ unread m'
written-unread m bytes k m' h w =
    let buf = m'.m_buffer.m_buf in
    let size : m.m_cur_pos ≡ length (take m.m_cur_pos m.m_buffer.m_buf) =
      omega (arith, length-take m.m_cur_pos m.m_buffer.m_buf) in
    let whole : buf ≡ take m.m_cur_pos m.m_buffer.m_buf ++ (bytes ++ unread m') =
      sym (take-append-drop m'.m_cur_pos buf)
      ∙ ap (λ t. t ++ unread m') w.front
      ∙ append_assoc (take m.m_cur_pos m.m_buffer.m_buf) bytes (unread m') in
    ap (drop m.m_cur_pos) whole
    ∙ ap (λ t. drop t (take m.m_cur_pos m.m_buffer.m_buf ++ (bytes ++ unread m'))) size
    ∙ drop-length (take m.m_cur_pos m.m_buffer.m_buf) (bytes ++ unread m')

module _ (a : Allocator) (law : IsAllocator a) (memory : HasMemory a) where
  -- While memory does not run out, fields that are in range and that end by 2 ^ 30 are written
  -- without a fault, into a block that an int can measure. From the position where the
  -- write began the readers then return the same fields, and end where the writers ended.
  pub read_fields-write_fields :
      (fs : List Field) (m : NetMessage)
      → CanWrite m
      → AllInRange fs
      → m.m_cur_pos + length (encode_all fs) ≤ 2 ^ 30
      → m.m_buffer.m_size < 2 ^ 31
      → Returns
          (λ m'.
            Returns
              (λ r. (r.0 ≡ fs) × (r.1 ≡ m'))
              (read_fields fs (record m' { m_cur_pos = m.m_cur_pos })))
          (write_fields a fs m)
  read_fields-write_fields fs m c g fits small =
      Returns-mono (write_fields-Wrote a law memory fs m c fits) λ m' w.
        Returns-mono
          (read_fields-Reads fs (unread m') (record m' { m_cur_pos = m.m_cur_pos }) g
            (omega (arith, w.block, w.bounded))
            (written-unread m _ 0 m' (omega (arith, c.inside, c.block)) w))
          λ (xs, m2) (exs, n).
            (exs, n.state ∙ ap (λ p. record m' { m_cur_pos = p }) (sym w.position))
