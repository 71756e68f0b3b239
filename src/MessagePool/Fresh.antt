-- ===== src/MessagePool/Fresh.antt =====
-- A new message, on a buffer of the pool.
use socketforioswinandroid.Common.{
  ℕ, zero, suc, ◌^◌, ◌≤◌, ◌<◌, ◌≡◌, refl, inl, inr, Bool-cases, Option, none, some, List, [], ◌∷◌,
  ◌++◌, leb, ◌==◌, false, arith,
}
use socketforioswinandroid.MemBuffer.{
  Allocator, MemBuffer, new_mem_buffer, IsAllocator, HasMemory, IsBlock,
}
use socketforioswinandroid.NetMessage.{NetMessage, new_net_message}
use socketforioswinandroid.NetMessage.Frame.Receive.{IsFresh}
use socketforioswinandroid.MessagePool.{
  MessageBufPool, insert_by_size, release, delete_message, find_fit, buffers, init_pool, filled,
  require_from, require, create_message,
}

abbrev pub AllBlocks : List MemBuffer → Type 0
AllBlocks [] = Unit {0}
AllBlocks (b ∷ bs) = IsBlock b × AllBlocks bs

AllBlocks-append : (bs cs : List MemBuffer) → AllBlocks bs → AllBlocks cs → AllBlocks (bs ++ cs)
AllBlocks-append [] cs h k = k
AllBlocks-append (b ∷ bs) cs h k = (h.0, AllBlocks-append bs cs h.1 k)

AllBlocks-insert :
    (b : MemBuffer) (bs : List MemBuffer)
    → IsBlock b
    → AllBlocks bs
    → AllBlocks (insert_by_size b bs)
unfolding insert_by_size
AllBlocks-insert b [] h k = (h, tt)
AllBlocks-insert b (c ∷ cs) h k = ground (arith, AllBlocks-insert b cs h k.1)

pub delete_message-AllBlocks :
    (m : NetMessage) (p : MessageBufPool)
    → IsBlock m.m_buffer
    → AllBlocks p.m_pool
    → AllBlocks (delete_message m p).m_pool
unfolding delete_message release
delete_message-AllBlocks m p h k = elim (Bool-cases p.m_has_init) [
  | inl live ↦ rw live (AllBlocks-insert m.m_buffer p.m_pool h k)
  | inr dead ↦ rw dead k
]

-- A buffer that is large enough, and the others.
abbrev Handed : ℕ → MemBuffer × List MemBuffer → Type 0
Handed size r = IsBlock r.0 × (size ≤ r.0.m_size) × AllBlocks r.1

abbrev Found : ℕ → Option (MemBuffer × List MemBuffer) → Type 0
Found size none = Unit {0}
Found size (some r) = Handed size r

Found-cons :
    (size : ℕ) (b : MemBuffer) (r : Option (MemBuffer × List MemBuffer))
    → IsBlock b
    → Found size r
    → Found size (elim r [ none ↦ none | some (c, cs) ↦ some (c, b ∷ cs) ])
Found-cons size b none h f = tt
Found-cons size b (some (c, cs)) h f = (f.0, f.1, (h, f.2))

find_fit-Found : (size : ℕ) (bs : List MemBuffer) → AllBlocks bs → Found size (find_fit size bs)
unfolding find_fit
find_fit-Found size [] h = tt
find_fit-Found size (b ∷ bs) h = elim (Bool-cases (leb size b.m_size)) [
  | inl fits ↦ rw (fits, find_fit) (h.0, ground arith, h.1)
  | inr small ↦
      rw (small, find_fit) (Found-cons size b (find_fit size bs) h.0 (find_fit-Found size bs h.1))
]

module _ (a : Allocator) (law : IsAllocator a) (memory : HasMemory a) where
  new_mem_buffer-IsBlock :
      (size : ℕ)
      → size < 2 ^ 31
      → IsBlock (new_mem_buffer a size) × ((new_mem_buffer a size).m_size ≡ size)
  unfolding new_mem_buffer
  new_mem_buffer-IsBlock size h =
      let (block, e) = memory.malloc_succeeds size h in
      rw (e, new_mem_buffer) (law.malloc_length size block e, refl)

  buffers-AllBlocks : (n size : ℕ) → size < 2 ^ 31 → AllBlocks (buffers a n size)
  unfolding buffers
  buffers-AllBlocks zero size h = tt
  buffers-AllBlocks (suc n) size h = ((new_mem_buffer-IsBlock size h).0, buffers-AllBlocks n size h)

  filled-AllBlocks : (bs : List MemBuffer) → AllBlocks bs → AllBlocks (filled a bs)
  unfolding filled init_pool
  filled-AllBlocks [] h =
      AllBlocks-append (buffers a 5 512) (buffers a 5 1024 ++ buffers a 1 65536)
        (buffers-AllBlocks 5 512 (omega arith))
        (AllBlocks-append (buffers a 5 1024) (buffers a 1 65536)
          (buffers-AllBlocks 5 1024 (omega arith)) (buffers-AllBlocks 1 65536 (omega arith)))
  filled-AllBlocks (b ∷ bs) h = h

  require-Handed :
      (size : ℕ) (bs : List MemBuffer)
      → 0 < size
      → size < 2 ^ 31
      → AllBlocks bs
      → Handed size (require a size bs)
  unfolding require require_from
  require-Handed size bs positive h blocks =
      let asked : (size == 0) ≡ false = ground arith in
      rw asked (
        handed (filled a bs) (find_fit size (filled a bs)) (filled-AllBlocks bs blocks)
          (find_fit-Found size (filled a bs) (filled-AllBlocks bs blocks)))
    where
      handed :
          (pool : List MemBuffer) (r : Option (MemBuffer × List MemBuffer))
          → AllBlocks pool
          → Found size r
          → Handed size
              (elim r [ none ↦ (new_mem_buffer a size, pool) | some (b, rest) ↦ (b, rest) ])
      handed pool none blocks f =
          let made = new_mem_buffer-IsBlock size h in (made.0, omega (arith, made.1), blocks)
      handed pool (some (b, rest)) blocks f = f

  -- A new message is as its constructor leaves it, on a block of the size asked for or larger.
  pub create_message-IsFresh :
      (size : ℕ) (p : MessageBufPool)
      → 0 < size
      → size < 2 ^ 31
      → AllBlocks p.m_pool
      → IsFresh (create_message a size p).0
        × (size ≤ (create_message a size p).0.m_buffer.m_size)
        × AllBlocks (create_message a size p).1.m_pool
  unfolding create_message new_net_message
  create_message-IsFresh size p positive h blocks =
      let (block, room, rest) = require-Handed size p.m_pool positive h blocks in
      (
        record { size = refl; head = refl; start = refl; position = refl; block = block },
        room,
        rest,
      )
