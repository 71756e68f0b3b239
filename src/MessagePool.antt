-- ===== src/MessagePool.antt =====
-- class CMessageBufPool of NetMessage.cpp: the free buffers, which messages take and give back.
pub mod Order
pub mod Fit
pub mod Fresh
pub mod Bag
pub mod Account
pub mod Conserved
use socketforioswinandroid.Common.{
  ℕ, zero, suc, ◌+◌, ◌^◌, ◌≤◌, ◌<◌, ◌≡◌, Bool, true, false, Option, none, some, List, [], ◌∷◌, ◌++◌,
  leb, ◌==◌, if◌then◌else◌,
}
use socketforioswinandroid.MemBuffer.{Allocator, MemBuffer, new_mem_buffer, IsBlock}
use socketforioswinandroid.NetMessage.{NetMessage, new_net_message}

-- m_pool and m_hasInit.
pub record MessageBufPool : Type 0 where
  pub m_pool : List MemBuffer
  pub m_has_init : Bool

-- The singleton as getInstance() makes it.
abbrev pub empty_pool : MessageBufPool
empty_pool = record { m_pool = []; m_has_init = true }

-- The loop of CMessageBufPool::require: the first buffer that is large enough, and the others.
unfoldable pub find_fit : ℕ → List MemBuffer → Option (MemBuffer × List MemBuffer)
find_fit size [] = none
find_fit size (b ∷ bs) =
    let rest = find_fit size bs in
    if leb size b.m_size
    then some (b, bs)
    else elim rest [ none ↦ none | some (c, cs) ↦ some (c, b ∷ cs) ]

unfoldable pub take_front : List MemBuffer → MemBuffer × List MemBuffer
take_front [] = (record { m_size = 0; m_buf = [] }, [])
take_front (b ∷ bs) = (b, bs)

module _ (a : Allocator) where
  -- `n` buffers of one size, made one after the other.
  unfoldable pub buffers : ℕ → ℕ → List MemBuffer
  buffers zero size = []
  buffers (suc n) size = new_mem_buffer a size ∷ buffers n size

  -- CMessageBufPool::Init, pushing at the back.
  unfoldable pub init_pool : List MemBuffer → List MemBuffer
  unfolding buffers
  init_pool pool = pool ++ (buffers 5 512 ++ (buffers 5 1024 ++ buffers 1 65536))

  unfoldable pub filled : List MemBuffer → List MemBuffer
  unfolding init_pool
  filled [] = init_pool []
  filled (b ∷ bs) = b ∷ bs

  -- CMessageBufPool::require, on the pool after the call of Init for an empty one. That pool is not
  -- empty, so the first clause of `take_front` is never met.
  unfoldable pub require_from : ℕ → List MemBuffer → MemBuffer × List MemBuffer
  unfolding find_fit take_front
  require_from size pool = if size == 0 then take_front pool else elim (find_fit size pool) [
    | none ↦ (new_mem_buffer a size, pool)
    | some (b, rest) ↦ (b, rest)
  ]

  unfoldable pub require : ℕ → List MemBuffer → MemBuffer × List MemBuffer
  unfolding filled require_from
  require size pool = require_from size (filled pool)

  -- NetMessage::createBuf, in the constructor: `new NetMessage(size)`.
  unfoldable pub create_message : ℕ → MessageBufPool → NetMessage × MessageBufPool
  unfolding require new_net_message
  create_message size p =
      let (b, rest) = require size p.m_pool in (new_net_message b, record p { m_pool = rest })

-- The insertion of CMessageBufPool::release, before the first buffer that is as large or larger.
unfoldable pub insert_by_size : MemBuffer → List MemBuffer → List MemBuffer
insert_by_size b [] = b ∷ []
insert_by_size b (c ∷ cs) = if leb b.m_size c.m_size then b ∷ (c ∷ cs) else c ∷ insert_by_size b cs

-- CMessageBufPool::release. After the pool's destructor the buffer is dropped.
unfoldable pub release : MemBuffer → MessageBufPool → MessageBufPool
unfolding insert_by_size
release b p = if p.m_has_init then record p { m_pool = insert_by_size b p.m_pool } else p

-- NetMessage::~NetMessage
unfoldable pub delete_message : NetMessage → MessageBufPool → MessageBufPool
unfolding release
delete_message m p = release m.m_buffer p

unfoldable pub delete_messages : List NetMessage → MessageBufPool → MessageBufPool
unfolding delete_message
delete_messages [] p = p
delete_messages (m ∷ ms) p = delete_messages ms (delete_message m p)
