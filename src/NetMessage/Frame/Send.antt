-- ===== src/NetMessage/Frame/Send.antt =====
-- endForWrite puts the head in front of the body, so that the two make up the frame of the wire
-- format.
use socketforioswinandroid.Common.{
  ℕ, suc, ◌+◌, ◌%◌, ◌^◌, ◌≤◌, ◌<◌, ◌≡◌, refl, sym, ap, ◌∙◌, List, [], ◌∷◌, ◌++◌, length,
  length-drop, take, drop, take_ext, take-length, get_elem?-drop, ltb, leb, true, false, Bool-cases,
  inl, inr, arith, pos, sub_ℕ, be_bytes, Returns, returns, Returns-bind,
}
use socketforioswinandroid.MemBuffer.{Allocator, IsAllocator, HasMemory, IsBlock}
use socketforioswinandroid.NetMessage.{NetMessage}
use socketforioswinandroid.NetMessage.Write.Laws.{CanWrite, Wrote, Wrote-CanWrite, Wrote-trans}
use socketforioswinandroid.NetMessage.Write.Appends.{w_ushort-Wrote, w_uint-Wrote}
use socketforioswinandroid.NetMessage.Fields.RoundTrip.{written-unread}
use socketforioswinandroid.NetMessage.Read.Laws.{unread}
use socketforioswinandroid.NetMessage.Frame.{
  begin_for_write, end_with, end_for_write, head_of, encode_frame,
}

-- A message that is ready to be sent: its frame lies in the block between m_bufStartPos and the
-- end.
pub record Framed (body : List ℕ) (m : NetMessage) : Type 0 where
  pub size : m.m_size ≡ pos (length body)
  pub head : m.m_head_size ≡ length (head_of (length body))
  pub start : m.m_buf_start_pos + m.m_head_size ≡ 6
  pub at_start : m.m_cur_pos ≡ m.m_buf_start_pos
  pub block : IsBlock m.m_buffer
  pub fits : 6 + length body ≤ m.m_buffer.m_size
  pub frame :
      take (m.m_head_size + length body) (drop m.m_buf_start_pos m.m_buffer.m_buf)
      ≡ encode_frame body

-- A body behind a head stays what it was while the head is written.
body_kept :
    (m1 : NetMessage) (head body rest : List ℕ) (m2 : NetMessage)
    → IsBlock m1.m_buffer
    → Wrote m1 head 0 m2
    → m2.m_cur_pos + length body ≤ m1.m_buffer.m_size
    → drop m2.m_cur_pos m1.m_buffer.m_buf ≡ body ++ rest
    → take (length body) (drop m2.m_cur_pos m2.m_buffer.m_buf) ≡ body
body_kept m1 head body rest m2 block w fits e =
    take_ext (drop m2.m_cur_pos m2.m_buffer.m_buf) (drop m2.m_cur_pos m1.m_buffer.m_buf)
      (length body) (omega (arith, length-drop m2.m_cur_pos m2.m_buffer.m_buf, w.block, w.larger))
      (omega (arith, length-drop m2.m_cur_pos m1.m_buffer.m_buf))
      (λ i l.
        get_elem?-drop m2.m_buffer.m_buf m2.m_cur_pos i
        ∙ w.back (m2.m_cur_pos + i) (omega arith) (omega arith)
        ∙ sym (get_elem?-drop m1.m_buffer.m_buf m2.m_cur_pos i))
    ∙ ap (take (length body)) e
    ∙ take-length body rest

take-append : (xs ys : List ℕ) (n : ℕ) → take (length xs + n) (xs ++ ys) ≡ xs ++ take n ys
take-append [] ys n = let e : 0 + n ≡ n = omega arith in rw e
take-append (x ∷ xs) ys n =
    let e : suc (length xs) + n ≡ suc (length xs + n) = omega arith in
    rw e (ap (λ t. x ∷ t) (take-append xs ys n))

-- The head and the kept body, as they lie one behind the other.
head_and_body :
    (m1 : NetMessage) (head body rest : List ℕ) (m2 : NetMessage)
    → CanWrite m1
    → Wrote m1 head 0 m2
    → m2.m_cur_pos + length body ≤ m1.m_buffer.m_size
    → drop m2.m_cur_pos m1.m_buffer.m_buf ≡ body ++ rest
    → take (length head + length body) (drop m1.m_cur_pos m2.m_buffer.m_buf) ≡ head ++ body
head_and_body m1 head body rest m2 c w fits e =
    ap (take (length head + length body))
      (written-unread m1 head 0 m2 (omega (arith, c.inside, c.block)) w)
    ∙ take-append head (unread m2) (length body)
    ∙ ap (λ t. head ++ t) (body_kept m1 head body rest m2 c.block w fits e)

module _ (a : Allocator) (law : IsAllocator a) (memory : HasMemory a) where
  -- Both branches start from a body at position 6, with `rest` behind it.
  module _ (m : NetMessage) (body rest : List ℕ) (block : IsBlock m.m_buffer)
      (fits : 6 + length body ≤ m.m_buffer.m_size)
      (at_six : drop 6 m.m_buffer.m_buf ≡ body ++ rest) where
    at_head : ℕ → ℕ → NetMessage
    at_head p h = record m { m_size = pos (length body); m_head_size = h; m_cur_pos = p }

    at_head-CanWrite : (p h : ℕ) → p ≤ 6 → CanWrite (at_head p h)
    unfolding at_head
    at_head-CanWrite p h l = record { block = block; inside = omega arith; some_room = omega arith }

    -- What a written head leaves, wherever it began: `p` and `h` make up the six bytes.
    Framed-of :
        (p h : ℕ) (head : List ℕ) (m' : NetMessage)
        → h ≡ length head
        → p + h ≡ 6
        → head ≡ head_of (length body)
        → Wrote (at_head p h) head 0 m'
        → Framed body (record m' { m_cur_pos = p; m_buf_start_pos = p })
    unfolding at_head
    Framed-of p h head m' eh e whole w =
        let six : m'.m_cur_pos ≡ 6 = omega (arith, w.position) in
        record {
          size = w.same_size;
          head = w.same_head ∙ eh ∙ ap length whole;
          start = omega (arith, w.same_head);
          at_start = refl;
          block = w.block;
          fits = omega (arith, w.larger);
          frame =
              ap (λ t. take (t + length body) (drop p m'.m_buffer.m_buf)) (w.same_head ∙ eh)
              ∙ head_and_body (at_head p h) head body rest m' (at_head-CanWrite p h (omega arith)) w
                  (omega arith) (rw six at_six)
              ∙ ap (λ t. t ++ body) whole;
        }

    end_short : length body < 0xffff → Returns (Framed body) (end_with a (pos (length body)) m)
    unfolding end_with at_head
    end_short small =
        let test : leb 0xffff (length body) ≡ false = ground arith in
        let word : length body % 2 ^ 16 ≡ length body = omega arith in
        rw (test, word)
          (Returns-bind
            (w_ushort-Wrote a law memory (length body) (at_head 4 2)
              (at_head-CanWrite 4 2 (omega arith)) (omega arith))
            λ m' w. returns (Framed-of 4 2 _ m' refl refl (ground arith) w))

    end_long :
        0xffff ≤ length body
        → length body < 2 ^ 31
        → Returns (Framed body) (end_with a (pos (length body)) m)
    unfolding end_with at_head
    end_long large small =
        let test : leb 0xffff (length body) ≡ true = ground arith in
        let word : length body % 2 ^ 32 ≡ length body = omega arith in
        rw (test, word)
          (Returns-bind
            (w_ushort-Wrote a law memory 0xffff (at_head 0 6) (at_head-CanWrite 0 6 (omega arith))
              (omega arith))
            λ m1 w1.
              Returns-bind
                (w_uint-Wrote a law memory (length body) m1
                  (Wrote-CanWrite (at_head 0 6) _ 0 m1 (at_head-CanWrite 0 6 (omega arith)) w1)
                  (omega (arith, w1.position)))
                λ m2 w2. returns (
                  Framed-of 0 6 (be_bytes 2 0xffff ++ be_bytes 4 (length body)) m2 refl refl
                    (ground arith) (Wrote-trans (at_head 0 6) _ 0 m1 _ 0 0 m2 w1 w2 w2.room)))

  six_more : (n : ℕ) → sub_ℕ (6 + n) 6 ≡ pos n
  six_more n = ground arith

  -- While memory does not run out, endForWrite comes to an end without a fault on every body of
  -- less than 2 ^ 31 bytes that was written behind beginForWrite, whether its length is below
  -- 0xFFFF or not. It leaves the head of the wire format in front of the body, so that what lies
  -- from m_bufStartPos on is the body's frame.
  pub end_for_write-Framed :
      (m0 : NetMessage) (body : List ℕ) (k : ℕ) (m : NetMessage)
      → CanWrite (begin_for_write m0)
      → length body < 2 ^ 31
      → Wrote (begin_for_write m0) body k m
      → Returns (Framed body) (end_for_write a m)
  unfolding begin_for_write end_for_write
  end_for_write-Framed m0 body k m c small w =
      let fits : 6 + length body ≤ m.m_buffer.m_size = omega (arith, w.position, w.room) in
      let at_six : drop 6 m.m_buffer.m_buf ≡ body ++ unread m =
        written-unread (begin_for_write m0) body k m (omega (arith, c.inside, c.block)) w in
      rw (w.position, six_more (length body))
        (elim (Bool-cases (ltb (length body) 0xffff)) [
          | inl short ↦ end_short m body (unread m) w.block fits at_six (ground arith)
          | inr long ↦ end_long m body (unread m) w.block fits at_six (ground arith) small
        ])
