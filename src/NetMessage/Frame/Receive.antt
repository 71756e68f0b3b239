-- ===== src/NetMessage/Frame/Receive.antt =====
-- The receiving side of the framing: chunks as `recv` delivers them, put together to a message.
pub mod Chunk
pub mod Body
pub mod Head
pub mod Whole
pub mod Stage
pub mod Lost
use socketforioswinandroid.Common.{
  ℕ, zero, suc, ◌+◌, ◌^◌, ◌≤◌, ◌≡◌, List, [], ◌∷◌, ◌++◌, length, take, drop, ltb, if◌then◌else◌, ℤ,
  pos, negsuc, be_bytes, Result, ok, ◌>>=◌,
}
use socketforioswinandroid.MemBuffer.{Allocator, IsBlock}
use socketforioswinandroid.NetMessage.{NetMessage, copy_to_current}
use socketforioswinandroid.NetMessage.Frame.{on_receive}

module _ (a : Allocator) where
  -- What one round of the receive loop of CConnectionManager::Update does to its message, where
  -- `recv` puts `chunk` at getReadBuf(). DecodeBuf changes nothing.
  unfoldable pub receive_chunk : List ℕ → NetMessage → Result NetMessage
  unfolding on_receive
  receive_chunk chunk m =
      copy_to_current chunk (pos (length chunk)) m >>= on_receive a (length chunk)

  unfoldable pub feed : List (List ℕ) → NetMessage → Result NetMessage
  unfolding receive_chunk
  feed [] m = ok m
  feed (chunk ∷ chunks) m = receive_chunk chunk m >>= feed chunks

abbrev pub join : List (List ℕ) → List ℕ
join [] = []
join (c ∷ cs) = c ++ join cs

-- The head of a body of `n` bytes as it is asked for: two bytes, and four more for a long one.
abbrev pub head_chunks : ℕ → List (List ℕ)
head_chunks n =
    if ltb n 0xffff then (be_bytes 2 n ∷ []) else (be_bytes 2 0xffff ∷ be_bytes 4 n ∷ [])

-- A message as its constructor leaves it.
pub record IsFresh (m : NetMessage) : Type 0 where
  pub size : m.m_size ≡ negsuc 0
  pub head : m.m_head_size ≡ 2
  pub start : m.m_buf_start_pos ≡ 0
  pub position : m.m_cur_pos ≡ 0
  pub block : IsBlock m.m_buffer
