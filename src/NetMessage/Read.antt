-- ===== src/NetMessage/Read.antt =====
-- The readers of NetMessage.cpp. None of them looks at m_size: they stop at the end of the block.
pub mod Laws
pub mod Wide
pub mod Text
pub mod Patterns
pub mod Bounded
use Prim.Native.Nat.{bit_or}
use mathlib.Core.Bool.{not}
use socketforioswinandroid.Common.{
  ℕ, zero, suc, ◌+◌, ◌*◌, ◌%◌, ◌^◌, List, [], ◌∷◌, Bool, ◌==◌, if◌then◌else◌, ℤ, pos, negsuc,
  pos_part, is_positive, of_word, Result, ok, fault, ◌>>=◌,
}
use socketforioswinandroid.MemBuffer.{copy_out}
use socketforioswinandroid.NetMessage.{NetMessage, get_buf_value, skip}

-- getBufValue() & 0xFF
unfoldable pub get_byte : NetMessage → Result (ℕ × NetMessage)
get_byte m = do (v, m) ← get_buf_value m; ok (v % 256, m)

-- Two bytes joined by `<<` and `|=`, before the conversion to the result's type.
unfoldable pub get_two : NetMessage → Result (ℕ × NetMessage)
unfolding get_byte
get_two m = do (b0, m) ← get_byte m; (b1, m) ← get_byte m; ok (bit_or (b0 * 2 ^ 8) b1, m)

-- Four bytes joined so.
unfoldable pub get_four : NetMessage → Result (ℕ × NetMessage)
unfolding get_byte
get_four m = do
  (b0, m) ← get_byte m
  (b1, m) ← get_byte m
  (b2, m) ← get_byte m
  (b3, m) ← get_byte m
  ok (bit_or (bit_or (bit_or (b0 * 2 ^ 24) (b1 * 2 ^ 16)) (b2 * 2 ^ 8)) b3, m)

unfoldable pub r_int8 : NetMessage → Result (ℤ × NetMessage)
unfolding get_byte
r_int8 m = do (val, m) ← get_byte m; ok (of_word 8 val, m)

unfoldable pub r_uint8 : NetMessage → Result (ℕ × NetMessage)
unfolding get_byte
r_uint8 m = get_byte m

unfoldable pub r_boolean : NetMessage → Result (Bool × NetMessage)
unfolding get_byte
r_boolean m = do (val, m) ← get_byte m; ok (not (val == 0), m)

unfoldable pub r_ushort : NetMessage → Result (ℕ × NetMessage)
unfolding get_two
r_ushort m = get_two m

unfoldable pub r_short : NetMessage → Result (ℤ × NetMessage)
unfolding get_two
r_short m = do (val, m) ← get_two m; ok (of_word 16 val, m)

unfoldable pub r_uint : NetMessage → Result (ℕ × NetMessage)
unfolding get_four
r_uint m = get_four m

unfoldable pub r_int : NetMessage → Result (ℤ × NetMessage)
unfolding get_four
r_int m = do (val, m) ← get_four m; ok (of_word 32 val, m)

-- The float whose bit pattern the four bytes are.
unfoldable pub r_float : NetMessage → Result (ℕ × NetMessage)
unfolding get_four
r_float m = get_four m

-- `val = (val << 8) + byte`, seven times after the first byte; eight bytes fill an Int64.
unfoldable pub r_int64 : NetMessage → Result (ℤ × NetMessage)
unfolding get_byte
r_int64 m = do
  (b0, m) ← get_byte m
  let val = b0
  (b1, m) ← get_byte m
  let val = val * 2 ^ 8 + b1
  (b2, m) ← get_byte m
  let val = val * 2 ^ 8 + b2
  (b3, m) ← get_byte m
  let val = val * 2 ^ 8 + b3
  (b4, m) ← get_byte m
  let val = val * 2 ^ 8 + b4
  (b5, m) ← get_byte m
  let val = val * 2 ^ 8 + b5
  (b6, m) ← get_byte m
  let val = val * 2 ^ 8 + b6
  (b7, m) ← get_byte m
  let val = val * 2 ^ 8 + b7
  ok (of_word 64 val, m)

-- The bytes are put into `buf` from buf[7] down to buf[0], and read back as a little-endian double.
unfoldable pub r_double : NetMessage → Result (ℕ × NetMessage)
r_double m = do
  (b7, m) ← get_buf_value m
  (b6, m) ← get_buf_value m
  (b5, m) ← get_buf_value m
  (b4, m) ← get_buf_value m
  (b3, m) ← get_buf_value m
  (b2, m) ← get_buf_value m
  (b1, m) ← get_buf_value m
  (b0, m) ← get_buf_value m
  ok (
    b7 * 2 ^ 56
        + b6 * 2 ^ 48
        + b5 * 2 ^ 40
        + b4 * 2 ^ 32
        + b3 * 2 ^ 24
        + b2 * 2 ^ 16
        + b1 * 2 ^ 8
        + b0,
    m,
  )

-- What rString and rRaw return: the literal "", or an address in the message's block.
pub data CharPtr : Type 0 where
  empty_literal : CharPtr
  in_block : ℕ → CharPtr

unfoldable pub r_raw : ℤ → NetMessage → Result (CharPtr × NetMessage)
r_raw sz m =
    if is_positive sz
    then (skip (pos_part sz) m >>= λ m'. ok (in_block m.m_cur_pos, m'))
    else ok (empty_literal, m)

unfoldable pub r_string : NetMessage → Result (CharPtr × ℤ × NetMessage)
unfolding r_int
r_string m = do
  (size, m) ← r_int m
  if is_positive size
      then (skip (pos_part size) m >>= λ m'. ok (in_block m.m_cur_pos, size, m'))
      else ok (empty_literal, size, m)

-- The bytes that a caller copies who is handed a pointer and a size, as lua_pushlstring does. The
-- literal "" holds no byte but its terminator, and a negative size is a huge size_t.
unfoldable pub bytes_of : CharPtr → ℤ → NetMessage → Result (List ℕ)
unfolding copy_out
bytes_of (in_block p) (pos n) m = copy_out m.m_buffer p n
bytes_of empty_literal (pos zero) m = ok []
bytes_of empty_literal (pos (suc zero)) m = ok (0 ∷ [])
bytes_of empty_literal (pos (suc (suc n))) m = fault
bytes_of empty_literal (negsuc n) m = fault
bytes_of (in_block p) (negsuc n) m = fault
