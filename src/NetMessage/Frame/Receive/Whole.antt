-- ===== src/NetMessage/Frame/Receive/Whole.antt =====
-- A frame whose head arrives whole is received, however its body is cut into chunks.
use socketforioswinandroid.Common.{
  ℕ, ◌+◌, ◌^◌, ◌≤◌, ◌<◌, ◌≡◌, refl, sym, ap, ◌∙◌, List, [], ◌∷◌, ◌++◌, append_assoc, length, drop,
  take-append-drop, drop-length, ltb, true, Bool-cases, inl, inr, arith, pos, sub_ℕ, be_bytes,
  Returns, Returns-bind, Returns-mono,
}
use socketforioswinandroid.MemBuffer.{Allocator, IsAllocator, HasMemory, IsBlock}
use socketforioswinandroid.NetMessage.{NetMessage, is_end, get_read_cap, reset_for_read}
use socketforioswinandroid.NetMessage.Read.Laws.{unread}
use socketforioswinandroid.NetMessage.Frame.{head_of}
use socketforioswinandroid.NetMessage.Frame.Receive.{feed, join, head_chunks, IsFresh}
use socketforioswinandroid.NetMessage.Frame.Receive.Body.{Partial, feed-Partial}
use socketforioswinandroid.NetMessage.Frame.Receive.Head.{
  short_head-Partial, announced, long_size-Partial,
}

-- A message that has been received: it is at its end, and behind ResetForRead comes its body.
pub record Received (body : List ℕ) (m : NetMessage) : Type 0 where
  pub size : m.m_size ≡ pos (length body)
  pub ended : is_end m ≡ true
  pub nothing_left : get_read_cap m ≡ pos 0
  pub block : IsBlock m.m_buffer
  pub inside : m.m_head_size + length body ≤ m.m_buffer.m_size
  pub rest : List ℕ
  pub readable : unread (reset_for_read m) ≡ body ++ rest

-- A part of the body leaves room for the rest, and for no more.
pub Partial-get_read_cap :
    (hd : List ℕ) (n : ℕ) (got : List ℕ) (m : NetMessage)
    → length got ≤ n
    → Partial hd n got m
    → get_read_cap m ≡ sub_ℕ n (length got)
unfolding get_read_cap
Partial-get_read_cap hd n got m h p = rw p.size (ground (arith, p.position, p.head))

Partial-is_end :
    (hd : List ℕ) (n : ℕ) (got : List ℕ) (m : NetMessage)
    → length got ≡ n
    → Partial hd n got m
    → is_end m ≡ true
unfolding is_end
Partial-is_end hd n got m h p = rw p.size (ground (arith, p.position, p.head, p.start))

pub Partial-Received :
    (hd body : List ℕ) (m : NetMessage) → Partial hd (length body) body m → Received body m
unfolding reset_for_read
Partial-Received hd body m p = record {
  size = p.size;
  ended = Partial-is_end hd (length body) body m refl p;
  nothing_left = Partial-get_read_cap hd (length body) body m (omega arith) p ∙ ground arith;
  block = p.block;
  inside = omega (arith, p.head, p.fits);
  rest = drop m.m_cur_pos m.m_buffer.m_buf;
  readable =
      let buf = m.m_buffer.m_buf in
      let whole : buf ≡ hd ++ (body ++ drop m.m_cur_pos buf) =
        sym (take-append-drop m.m_cur_pos buf)
        ∙ ap (λ t. t ++ drop m.m_cur_pos buf) p.front
        ∙ append_assoc hd body (drop m.m_cur_pos buf) in
      let at_head : m.m_buf_start_pos + m.m_head_size ≡ length hd =
        omega (arith, p.start, p.head) in
      ap (λ t. drop t buf) at_head
      ∙ ap (drop (length hd)) whole
      ∙ drop-length hd (body ++ drop m.m_cur_pos buf);
}

module _ (a : Allocator) (law : IsAllocator a) (memory : HasMemory a) where
  short_frame :
      (chunks : List (List ℕ)) (m : NetMessage)
      → IsFresh m
      → 4 ≤ m.m_buffer.m_size
      → length (join chunks) < 0xffff
      → Returns (Received (join chunks)) (feed a (be_bytes 2 (length (join chunks)) ∷ chunks) m)
  unfolding feed
  short_frame chunks m f room small =
      let n = length (join chunks) in
      Returns-bind (short_head-Partial a law memory n m f room small) λ m1 p.
        Returns-mono (feed-Partial a (be_bytes 2 n) n (omega arith) chunks [] m1 (omega arith) p)
          (Partial-Received (be_bytes 2 n) (join chunks))

  long_frame :
      (chunks : List (List ℕ)) (m : NetMessage)
      → IsFresh m
      → 4 ≤ m.m_buffer.m_size
      → 4 + length (join chunks) ≤ 2 ^ 30
      → Returns
          (Received (join chunks))
          (feed a (be_bytes 2 0xffff ∷ be_bytes 4 (length (join chunks)) ∷ chunks) m)
  unfolding feed
  long_frame chunks m f room small =
      let n = length (join chunks) in
      Returns-bind (announced a law memory m f room) λ m1 z.
        Returns-bind (long_size-Partial a law memory n m1 z small) λ m2 p.
          Returns-mono (feed-Partial a (be_bytes 4 n) n (omega arith) chunks [] m2 (omega arith) p)
            (Partial-Received (be_bytes 4 n) (join chunks))

  -- While memory does not run out, a message as its constructor leaves it, with a block of four
  -- bytes or more, fed with the head of a frame in the pieces in which the message asks for it, and
  -- then with the body in chunks of any sizes that end by 2 ^ 30, comes without a fault to its end.
  -- It asks for no byte more, and behind ResetForRead the body is what is read next.
  pub feed-Received :
      (chunks : List (List ℕ)) (m : NetMessage)
      → IsFresh m
      → 4 ≤ m.m_buffer.m_size
      → 4 + length (join chunks) ≤ 2 ^ 30
      → Returns (Received (join chunks)) (feed a (head_chunks (length (join chunks)) ++ chunks) m)
  feed-Received chunks m f room small = elim (Bool-cases (ltb (length (join chunks)) 0xffff)) [
    | inl short ↦ rw short (short_frame chunks m f room (ground arith))
    | inr long ↦ rw long (long_frame chunks m f room small)
  ]

join-append : (xs ys : List (List ℕ)) → join (xs ++ ys) ≡ join xs ++ join ys
join-append [] ys = refl
join-append (x ∷ xs) ys =
    ap (λ t. x ++ t) (join-append xs ys) ∙ sym (append_assoc x (join xs) (join ys))

-- The pieces that the receiver asks for are those of the sender's head.
pub join-head_chunks : (n : ℕ) → join (head_chunks n) ≡ head_of n
join-head_chunks n = ground arith
