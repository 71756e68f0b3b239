-- ===== src/MemBuffer.antt =====
-- class MemBuffer of NetMessage.cpp: a malloc'ed block and the size that the class records for it.
pub mod Growth
pub mod Copy
use socketforioswinandroid.Common.{
  ◌&&◌, ℕ, zero, suc, ◌+◌, ◌*◌, ◌^◌, ◌≤◌, ◌<◌, ◌≡◌, Option, none, some, List, [], ◌∷◌, length,
  get_elem?, set, take, drop, true, false, ltb, leb, ◌==◌, if◌then◌else◌, Result, ok, fault, stuck,
  ◌>>=◌,
}

-- malloc and realloc of the C library. `none` is a null pointer, and the list is the block's bytes.
pub record Allocator : Type 0 where
  pub malloc : ℕ → Option (List ℕ)
  pub realloc : List ℕ → ℕ → Option (List ℕ)

-- m_buf is the block, empty for a null pointer. m_size is an int that is never negative.
pub record MemBuffer : Type 0 where
  pub m_size : ℕ
  pub m_buf : List ℕ

-- MemBuffer::MemBuffer. The printf of a failed allocation is left out.
unfoldable pub new_mem_buffer : Allocator → ℕ → MemBuffer
new_mem_buffer a size = elim (a.malloc size) [
  | none ↦ record { m_size = 0; m_buf = [] }
  | some block ↦ record { m_size = size; m_buf = block }
]

-- The realloc of MemBuffer::enlarge, to the size that m_size has by then. Where it returns NULL the
-- old block is released, and m_buf is NULL.
unfoldable pub resize : Allocator → ℕ → MemBuffer → MemBuffer
resize a size b = elim (a.realloc b.m_buf size) [
  | none ↦ record { m_size = 0; m_buf = [] }
  | some block ↦ record { m_size = size; m_buf = block }
]

-- MemBuffer::enlarge. Doubling overflows an int from 2 ^ 30 on. To realloc a block to no bytes is
-- undefined (a realloc that frees it and returns NULL makes the free after it a second one).
unfoldable pub enlarge : Allocator → ℕ → MemBuffer → Result MemBuffer
unfolding resize
enlarge a new_size b =
    let size = (if new_size == 0 then b.m_size * 2 else b.m_size) in
    if ltb 0 size && ltb size (2 ^ 31) then ok (resize a size b) else fault

-- *getBuf(pos) as a value, and an assignment to it.
unfoldable pub load : MemBuffer → ℕ → Result ℕ
load b pos = elim (get_elem? b.m_buf pos) [ none ↦ fault | some v ↦ ok v ]

unfoldable pub store : MemBuffer → ℕ → ℕ → Result MemBuffer
store b pos v =
    if ltb pos (length b.m_buf) then ok (record b { m_buf = set b.m_buf pos v }) else fault

-- memcpy into the block, a byte at a time.
unfoldable pub copy_in : MemBuffer → ℕ → List ℕ → Result MemBuffer
unfolding store
copy_in b pos [] = ok b
copy_in b pos (v ∷ vs) = store b pos v >>= λ b'. copy_in b' (suc pos) vs

-- A copy of `n` bytes out of the block, as a caller makes that is handed a pointer into it.
unfoldable pub copy_out : MemBuffer → ℕ → ℕ → Result (List ℕ)
copy_out b pos n = if leb (pos + n) (length b.m_buf) then ok (take n (drop pos b.m_buf)) else fault

-- The loop of NetMessage::checkBufSize, `need` being m_curPos + size.
unfoldable pub grow : Allocator → ℕ → ℕ → MemBuffer → Result MemBuffer
grow a zero need b = stuck
grow a (suc fuel) need b = elim (ltb b.m_size need) [
  | true ↦ enlarge a 0 b >>= grow a fuel need
  | false ↦ ok b
]

-- What the C standard says of a block: its length, and that realloc keeps the contents.
pub record IsAllocator (a : Allocator) : Type 0 where
  pub malloc_length : (n : ℕ) (block : List ℕ) → a.malloc n ≡ some block → length block ≡ n
  pub realloc_length :
      (old : List ℕ) (n : ℕ) (block : List ℕ) → a.realloc old n ≡ some block → length block ≡ n
  pub realloc_keeps :
      (old : List ℕ) (n i : ℕ) (block : List ℕ)
      → a.realloc old n ≡ some block
      → i < length old
      → i < n
      → get_elem? block i ≡ get_elem? old i

-- Memory does not run out at block sizes that an int can hold.
pub record HasMemory (a : Allocator) : Type 0 where
  pub malloc_succeeds : (n : ℕ) → n < 2 ^ 31 → (block : List ℕ) × (a.malloc n ≡ some block)
  pub realloc_succeeds :
      (old : List ℕ) (n : ℕ) → n < 2 ^ 31 → (block : List ℕ) × (a.realloc old n ≡ some block)

-- The recorded size is the block's.
abbrev pub IsBlock : MemBuffer → Type 0
IsBlock b = length b.m_buf ≡ b.m_size
