-- ===== src/NetMessage/Frame.antt =====
-- The framing of NetMessage.cpp: the head of a message, written and received.
pub mod Send
pub mod Receive
use Prim.Native.Nat.{bit_or}
use socketforioswinandroid.Common.{
  ℕ, zero, suc, ◌+◌, ◌*◌, ◌<◌, List, ◌++◌, length, ltb, be_bytes, ◌%◌, ◌^◌, leb, ◌==◌,
  if◌then◌else◌, ℤ, pos, negsuc, pos_part, sub_ℕ, to_word, of_word, Result, ok, ◌>>=◌,
}
use socketforioswinandroid.MemBuffer.{Allocator, load}
use socketforioswinandroid.NetMessage.{NetMessage, check_buf_size, skip}
use socketforioswinandroid.NetMessage.Write.{w_ushort, w_uint}

-- NetMessage::beginForWrite. Six bytes are kept for the head.
unfoldable pub begin_for_write : NetMessage → NetMessage
begin_for_write m = record m { m_cur_pos = 6 }

module _ (a : Allocator) where
  -- NetMessage::endForWrite with its structLen. The head is written into the six bytes that were
  -- kept, so that it ends where the body begins.
  unfoldable pub end_with : ℤ → NetMessage → Result NetMessage
  unfolding w_ushort w_uint
  end_with struct_len m =
      if leb 0xffff (pos_part struct_len)
      then (do
        m ← w_ushort a 0xffff (record m { m_size = struct_len; m_head_size = 6; m_cur_pos = 0 })
        m ← w_uint a (to_word 32 struct_len) m
        ok (record m { m_cur_pos = 0; m_buf_start_pos = 0 }))
      else (do
        m ←
            w_ushort a (to_word 16 struct_len)
              (record m { m_size = struct_len; m_head_size = 2; m_cur_pos = 4 })
        ok (record m { m_cur_pos = 4; m_buf_start_pos = 4 }))

  -- structLen is negative if beginForWrite was not called before.
  unfoldable pub end_for_write : NetMessage → Result NetMessage
  unfolding end_with
  end_for_write m = end_with (sub_ℕ m.m_cur_pos 6) m

  -- The two branches of onReceive that have a whole head.
  unfoldable pub on_short_head : NetMessage → Result NetMessage
  on_short_head m = do
    b0 ← load m.m_buffer 0
    b1 ← load m.m_buffer 1
    let val = bit_or (b0 % 256 * 2 ^ 8) (b1 % 256)
    if val == 0xffff
        then ok (record m { m_cur_pos = 0; m_size = negsuc 1; m_head_size = 4 })
        else check_buf_size a (pos val)
            (record m { m_size = pos val; m_head_size = 2; m_cur_pos = 2; m_buf_start_pos = 0 })

  unfoldable pub on_long_head : NetMessage → Result NetMessage
  on_long_head m = do
    b0 ← load m.m_buffer 0
    b1 ← load m.m_buffer 1
    b2 ← load m.m_buffer 2
    b3 ← load m.m_buffer 3
    let upper = bit_or (b0 % 256 * 2 ^ 24) (b1 % 256 * 2 ^ 16)
    let val = bit_or (bit_or upper (b2 % 256 * 2 ^ 8)) (b3 % 256)
    check_buf_size a (of_word 32 val)
        (record m { m_size = of_word 32 val; m_cur_pos = m.m_head_size; m_buf_start_pos = 0 })

  unfoldable pub on_head : ℤ → NetMessage → Result NetMessage
  unfolding on_short_head on_long_head
  on_head (pos size) m = ok m
  on_head (negsuc zero) m = if m.m_cur_pos == m.m_head_size then on_short_head m else ok m
  on_head (negsuc (suc zero)) m = if m.m_cur_pos == m.m_head_size then on_long_head m else ok m
  on_head (negsuc (suc (suc n))) m = ok m

  -- NetMessage::onReceive
  unfoldable pub on_receive : ℕ → NetMessage → Result NetMessage
  unfolding on_head
  on_receive size m = skip size m >>= λ m'. on_head m'.m_size m'

-- The wire format of a message, said without the code: the length in two bytes if it fits below
-- 0xFFFF, and otherwise 0xFFFF and the length in four bytes; then the body.
abbrev pub head_of : ℕ → List ℕ
head_of n = if ltb n 0xffff then be_bytes 2 n else (be_bytes 2 0xffff ++ be_bytes 4 n)

abbrev pub encode_frame : List ℕ → List ℕ
encode_frame body = head_of (length body) ++ body
