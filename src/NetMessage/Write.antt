-- ===== src/NetMessage/Write.antt =====
-- The writers of NetMessage.cpp. An integer is written by its bit pattern, the highest byte first;
-- `>>` and `& 0xFF` are a quotient and a remainder. A float and a double are their bit patterns.
pub mod Laws
pub mod Appends
pub mod Compound
use socketforioswinandroid.Common.{
  ℕ, ◌+◌, ◌/◌, ◌%◌, ◌^◌, List, Bool, if◌then◌else◌, ℤ, pos, pos_part, ◌+ℤ◌, to_word, of_word,
  Result, ok, ◌>>=◌,
}
use socketforioswinandroid.MemBuffer.{Allocator, store}
use socketforioswinandroid.NetMessage.{
  NetMessage, check_buf_size, set_buf_value, copy_to_current, skip,
}

module _ (a : Allocator) where
  -- A write of the low byte of `v >> k`, at a pattern `v`.
  unfoldable pub set_byte : ℕ → ℕ → NetMessage → Result NetMessage
  set_byte v k m = set_buf_value (v / 2 ^ k % 256) m

  unfoldable pub w_int8 : ℤ → NetMessage → Result NetMessage
  unfolding set_byte
  w_int8 v m = do m ← check_buf_size a (pos 1) m; set_byte (to_word 32 v) 0 m

  unfoldable pub w_uint8 : ℕ → NetMessage → Result NetMessage
  unfolding set_byte
  w_uint8 v m = do m ← check_buf_size a (pos 1) m; set_byte v 0 m

  unfoldable pub w_boolean : Bool → NetMessage → Result NetMessage
  w_boolean v m = do m ← check_buf_size a (pos 1) m; set_buf_value (if v then 1 else 0) m

  unfoldable pub w_ushort : ℕ → NetMessage → Result NetMessage
  unfolding set_byte
  w_ushort v m = do m ← check_buf_size a (pos 2) m; m ← set_byte v 8 m; set_byte v 0 m

  -- The short is promoted to an int before the shift.
  unfoldable pub w_short : ℤ → NetMessage → Result NetMessage
  unfolding set_byte
  w_short v m = do
    m ← check_buf_size a (pos 2) m
    m ← set_byte (to_word 32 v) 8 m
    set_byte (to_word 32 v) 0 m

  unfoldable pub w_uint : ℕ → NetMessage → Result NetMessage
  unfolding set_byte
  w_uint v m = do
    m ← check_buf_size a (pos 4) m
    m ← set_byte v 24 m
    m ← set_byte v 16 m
    m ← set_byte v 8 m
    set_byte v 0 m

  unfoldable pub w_int : ℤ → NetMessage → Result NetMessage
  unfolding set_byte
  w_int v m = do
    m ← check_buf_size a (pos 4) m
    m ← set_byte (to_word 32 v) 24 m
    m ← set_byte (to_word 32 v) 16 m
    m ← set_byte (to_word 32 v) 8 m
    set_byte (to_word 32 v) 0 m

  unfoldable pub w_float : ℕ → NetMessage → Result NetMessage
  unfolding set_byte
  w_float ival m = do
    m ← check_buf_size a (pos 4) m
    m ← set_byte ival 24 m
    m ← set_byte ival 16 m
    m ← set_byte ival 8 m
    set_byte ival 0 m

  -- buf[i] is byte i of the double in memory, the lowest first on the platforms named by the build.
  unfoldable pub w_double : ℕ → NetMessage → Result NetMessage
  unfolding set_byte
  w_double v m = do
    m ← check_buf_size a (pos 8) m
    m ← set_byte v 56 m
    m ← set_byte v 48 m
    m ← set_byte v 40 m
    m ← set_byte v 32 m
    m ← set_byte v 24 m
    m ← set_byte v 16 m
    m ← set_byte v 8 m
    set_byte v 0 m

  -- The eight positions are taken first, and filled from the last to the first, while `v` is
  -- shifted right by eight bits each time. The arithmetic shift is on the 64-bit pattern.
  unfoldable pub w_int64 : ℤ → NetMessage → Result NetMessage
  w_int64 i m = do
    m ← check_buf_size a (pos 8) m
    let p = m.m_cur_pos
    let v = to_word 64 i
    b ← store m.m_buffer (p + 7) (v / 2 ^ 0 % 256)
    b ← store b (p + 6) (v / 2 ^ 8 % 256)
    b ← store b (p + 5) (v / 2 ^ 16 % 256)
    b ← store b (p + 4) (v / 2 ^ 24 % 256)
    b ← store b (p + 3) (v / 2 ^ 32 % 256)
    b ← store b (p + 2) (v / 2 ^ 40 % 256)
    b ← store b (p + 1) (v / 2 ^ 48 % 256)
    b ← store b p (v / 2 ^ 56 % 256)
    ok (record m { m_buffer = b; m_cur_pos = p + 8 })

  -- The sum sizeof(int) + size is a size_t, which the call turns back into an int.
  unfoldable pub w_string : List ℕ → ℤ → NetMessage → Result NetMessage
  unfolding w_int
  w_string str size m = do
    m ← check_buf_size a (of_word 32 (to_word 32 (pos 4 +ℤ size))) m
    m ← w_int size m
    m ← copy_to_current str size m
    skip (pos_part size) m

  unfoldable pub w_raw : List ℕ → ℤ → NetMessage → Result NetMessage
  w_raw buf sz m = do m ← check_buf_size a sz m; m ← copy_to_current buf sz m; skip (pos_part sz) m
