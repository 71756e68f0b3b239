-- ===== src/NetMessage/Frame/Receive/Chunk.antt =====
-- One chunk that `recv` delivers.
use socketforioswinandroid.Common.{
  ℕ, ◌+◌, ◌^◌, ◌≤◌, ◌<◌, ◌≡◌, refl, List, ◌++◌, length, take, Result, ok, ◌>>=◌, Returns, returns,
}
use socketforioswinandroid.MemBuffer.{Allocator, MemBuffer, IsBlock}
use socketforioswinandroid.MemBuffer.Copy.{Copied, copy_in-Copied}
use socketforioswinandroid.NetMessage.{NetMessage}
use socketforioswinandroid.NetMessage.Write.Laws.{skip-ok, copy_to_current-whole}
use socketforioswinandroid.NetMessage.Frame.{on_head, on_receive}
use socketforioswinandroid.NetMessage.Frame.Receive.{receive_chunk}

-- After `recv` has put a chunk at the current position and m_curPos has passed it.
pub record Arrived (m : NetMessage) (chunk : List ℕ) (m' : NetMessage) : Type 0 where
  pub same_size : m'.m_size ≡ m.m_size
  pub same_head : m'.m_head_size ≡ m.m_head_size
  pub same_start : m'.m_buf_start_pos ≡ m.m_buf_start_pos
  pub position : m'.m_cur_pos ≡ m.m_cur_pos + length chunk
  pub block : IsBlock m'.m_buffer
  pub same_room : m'.m_buffer.m_size ≡ m.m_buffer.m_size
  pub front : take m'.m_cur_pos m'.m_buffer.m_buf ≡ take m.m_cur_pos m.m_buffer.m_buf ++ chunk

module _ (a : Allocator) {P : NetMessage → Type 0} where
  -- What holds of the head's handling, once a chunk has arrived, holds of its reception.
  pub receive_chunk-by :
      (chunk : List ℕ) (m : NetMessage)
      → IsBlock m.m_buffer
      → m.m_cur_pos + length chunk ≤ m.m_buffer.m_size
      → m.m_cur_pos + length chunk < 2 ^ 31
      → ((m' : NetMessage) → Arrived m chunk m' → Returns P (on_head a m'.m_size m'))
      → Returns P (receive_chunk a chunk m)
  unfolding receive_chunk on_receive
  receive_chunk-by chunk m block room small then_head =
      rw (copy_to_current-whole chunk m)
        (after (copy_in-Copied chunk m.m_cur_pos m.m_buffer block room))
    where
      after :
          {r : Result MemBuffer}
          → Returns (Copied m.m_buffer m.m_cur_pos chunk) r
          → Returns P (r >>= (λ b. ok (record m { m_buffer = b })) >>= on_receive a (length chunk))
      after (returns {a = b} c) = rw (skip-ok (length chunk) (record m { m_buffer = b }) small) (
          then_head (record m { m_buffer = b; m_cur_pos = m.m_cur_pos + length chunk })
            (record {
              same_size = refl;
              same_head = refl;
              same_start = refl;
              position = refl;
              block = c.block;
              same_room = c.same_size;
              front = c.front;
            }))
