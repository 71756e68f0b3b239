-- ===== src/NetMessage/Frame/Receive/Body.antt =====
-- The body of a message, cut into chunks in any way.
use socketforioswinandroid.Common.{
  ℕ, ◌+◌, ◌^◌, ◌≤◌, ◌<◌, ◌≡◌, ap, ◌∙◌, List, [], ◌∷◌, ◌++◌, append_assoc, append-nil, length,
  length-append, take, arith, pos, ok, Returns, returns, Returns-bind,
}
use socketforioswinandroid.MemBuffer.{Allocator, IsBlock}
use socketforioswinandroid.NetMessage.{NetMessage}
use socketforioswinandroid.NetMessage.Frame.{on_head}
use socketforioswinandroid.NetMessage.Frame.Receive.{receive_chunk, feed, join}
use socketforioswinandroid.NetMessage.Frame.Receive.Chunk.{receive_chunk-by}

-- The head bytes `hd` and the part `got` of a body of `n` bytes are in the block.
pub record Partial (hd : List ℕ) (n : ℕ) (got : List ℕ) (m : NetMessage) : Type 0 where
  pub size : m.m_size ≡ pos n
  pub head : m.m_head_size ≡ length hd
  pub start : m.m_buf_start_pos ≡ 0
  pub position : m.m_cur_pos ≡ length hd + length got
  pub block : IsBlock m.m_buffer
  pub fits : length hd + n ≤ m.m_buffer.m_size
  pub front : take m.m_cur_pos m.m_buffer.m_buf ≡ hd ++ got

module _ (a : Allocator) (hd : List ℕ) (n : ℕ) (small : length hd + n < 2 ^ 31) where
  pub receive_chunk-Partial :
      (chunk got : List ℕ) (m : NetMessage)
      → length got + length chunk ≤ n
      → Partial hd n got m
      → Returns (Partial hd n (got ++ chunk)) (receive_chunk a chunk m)
  unfolding on_head
  receive_chunk-Partial chunk got m room p =
      receive_chunk-by a chunk m p.block (omega (arith, p.position, p.fits))
        (omega (arith, p.position))
        λ m' w.
          let known : on_head a m'.m_size m' ≡ ok m' =
            ap (λ z. on_head a z m') (w.same_size ∙ p.size) in
          rw known (
            returns (record {
              size = w.same_size ∙ p.size;
              head = w.same_head ∙ p.head;
              start = w.same_start ∙ p.start;
              position = omega (arith, w.position, p.position, length-append got chunk);
              block = w.block;
              fits = omega (arith, w.same_room, p.fits);
              front = w.front ∙ ap (λ t. t ++ chunk) p.front ∙ append_assoc hd got chunk;
            }))

  pub feed-Partial :
      (chunks : List (List ℕ)) (got : List ℕ) (m : NetMessage)
      → length got + length (join chunks) ≤ n
      → Partial hd n got m
      → Returns (Partial hd n (got ++ join chunks)) (feed a chunks m)
  unfolding feed
  feed-Partial [] got m room p = rw append-nil (returns p)
  feed-Partial (c ∷ cs) got m room p =
      let total : length (c ++ join cs) ≡ length c + length (join cs) = length-append c (join cs) in
      Returns-bind (receive_chunk-Partial c got m (omega arith) p) λ m' p'.
        rw (← append_assoc got c (join cs))
          (feed-Partial cs (got ++ c) m' (omega (arith, length-append got c)) p')
