-- ===== src/NetMessage.antt =====
-- class NetMessage of NetMessage.h and NetMessage.cpp: the fields, and the primitives on which the
-- readers (NetMessage/Read), the writers (NetMessage/Write) and the framing (NetMessage/Frame)
-- stand.
pub mod Write
pub mod Read
pub mod Frame
pub mod Fields
use socketforioswinandroid.Common.{
  ℕ, zero, suc, ◌+◌, ◌^◌, List, [], ◌∷◌, Bool, false, ◌==◌, length, take, ltb, leb, if◌then◌else◌,
  ℤ, pos, negsuc, pos_part, neg_part, ◌+ℤ◌, sub_ℕ, Result, ok, fault, ◌>>=◌,
}
use socketforioswinandroid.MemBuffer.{
  Allocator, MemBuffer, new_mem_buffer, load, store, copy_in, grow, IsBlock,
}

-- m_size is -1 while the size is unknown, and -2 while a four byte size is awaited. The positions
-- are ints that are never negative. The buffer belongs to this message alone.
pub record NetMessage : Type 0 where
  pub m_size : ℤ
  pub m_head_size : ℕ
  pub m_buf_start_pos : ℕ
  pub m_cur_pos : ℕ
  pub m_buffer : MemBuffer

-- NetMessage::NetMessage, after createBuf has taken `buffer` from the pool.
unfoldable pub new_net_message : MemBuffer → NetMessage
new_net_message buffer = record {
  m_size = negsuc 0;
  m_head_size = 2;
  m_buf_start_pos = 0;
  m_cur_pos = 0;
  m_buffer = buffer;
}

-- An int32 doubles at most 31 times before it overflows, so the loop has ended by round 32.
abbrev pub rounds : ℕ
rounds = 32

-- The loop of checkBufSize, once m_curPos + size is known.
unfoldable pub grow_to : Allocator → ℕ → NetMessage → Result NetMessage
grow_to a need m =
    if ltb need (2 ^ 31)
    then (grow a rounds need m.m_buffer >>= λ b. ok (record m { m_buffer = b }))
    else fault

-- NetMessage::checkBufSize. A negative sum asks for nothing.
unfoldable pub check_buf_size : Allocator → ℤ → NetMessage → Result NetMessage
unfolding grow_to
check_buf_size a size m = grow_to a (pos_part (pos m.m_cur_pos +ℤ size)) m

-- m_curPos += n
unfoldable pub skip : ℕ → NetMessage → Result NetMessage
skip n m =
    if ltb (m.m_cur_pos + n) (2 ^ 31) then ok (record m { m_cur_pos = m.m_cur_pos + n }) else fault

-- NetMessage::setBufValue. A block is shorter than 2 ^ 31, so m_curPos++ does not overflow.
unfoldable pub set_buf_value : ℕ → NetMessage → Result NetMessage
set_buf_value value m = store m.m_buffer m.m_cur_pos value >>= λ b.
    ok (record m { m_buffer = b; m_cur_pos = m.m_cur_pos + 1 })

-- NetMessage::getBufValue
unfoldable pub get_buf_value : NetMessage → Result (ℕ × NetMessage)
get_buf_value m =
    load m.m_buffer m.m_cur_pos >>= λ v. ok (v, record m { m_cur_pos = m.m_cur_pos + 1 })

-- memcpy(getCurrentBuf(), buf, sz). A negative sz is a huge size_t.
unfoldable pub copy_to_current : List ℕ → ℤ → NetMessage → Result NetMessage
copy_to_current buf (pos sz) m =
    if leb sz (length buf)
    then (copy_in m.m_buffer m.m_cur_pos (take sz buf) >>= λ b. ok (record m { m_buffer = b }))
    else fault
copy_to_current buf (negsuc n) m = fault

-- NetMessage::isEnd, getReadCap and getSendCap.
abbrev end_at : ℤ → NetMessage → Bool
end_at (pos size) m = m.m_cur_pos == size + m.m_head_size + m.m_buf_start_pos
end_at (negsuc n) m = false

unfoldable pub is_end : NetMessage → Bool
is_end m = end_at m.m_size m

abbrev read_cap : ℤ → NetMessage → ℤ
read_cap (pos size) m = sub_ℕ (size + m.m_head_size) m.m_cur_pos
read_cap (negsuc zero) m = pos 2
read_cap (negsuc (suc n)) m = pos 4

unfoldable pub get_read_cap : NetMessage → ℤ
get_read_cap m = read_cap m.m_size m

unfoldable pub get_send_cap : NetMessage → ℤ
get_send_cap m =
    sub_ℕ (pos_part m.m_size + m.m_buf_start_pos + m.m_head_size) (neg_part m.m_size + m.m_cur_pos)

-- NetMessage::onSend, ResetForSend and ResetForRead.
unfoldable pub on_send : ℕ → NetMessage → Result NetMessage
unfolding skip
on_send size m = skip size m

unfoldable pub reset_for_send : NetMessage → NetMessage
reset_for_send m = record m { m_cur_pos = m.m_buf_start_pos }

unfoldable pub reset_for_read : NetMessage → NetMessage
reset_for_read m = record m { m_cur_pos = m.m_buf_start_pos + m.m_head_size }

-- The loop of NetMessage::dump: the bytes that it prints.
unfoldable pub dump_from : ℕ → ℕ → MemBuffer → Result (List ℕ)
dump_from zero i b = ok []
dump_from (suc n) i b = load b i >>= λ v. (dump_from n (i + 1) b >>= λ vs. ok (v ∷ vs))

-- NetMessage::dump
unfoldable pub dump : NetMessage → Result (List ℕ)
unfolding dump_from
dump m = dump_from (pos_part (m.m_size +ℤ pos m.m_head_size)) 0 m.m_buffer
