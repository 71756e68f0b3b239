-- ===== src/MessagePool/Account.antt =====
-- Whole runs of the pool: messages are made and deleted in any order.
use mathlib.Core.List.{Perm}
use mathlib.Core.List.Perm
use socketforioswinandroid.Common.{
  ℕ, zero, suc, ◌≡◌, refl, sym, ap, ◌∙◌, inl, inr, Bool-cases, Option, none, some, List, [], ◌∷◌,
  ◌++◌, leb, ◌==◌,
}
use socketforioswinandroid.MemBuffer.{Allocator, MemBuffer, new_mem_buffer}
use socketforioswinandroid.NetMessage.{NetMessage}
use socketforioswinandroid.MessagePool.{
  MessageBufPool, find_fit, buffers, init_pool, filled, take_front, require_from, require,
  create_message, delete_message,
}
use socketforioswinandroid.MessagePool.Bag.{
  Bag, of_list, of_list_sound, add_all, add_all-of_list, add_all-append,
}

-- A use of the pool: `new NetMessage(size)`, or `delete` on the message that stands at a place
-- among those that are in use.
pub data Use : Type 0 where
  creates : ℕ → Use
  deletes : ℕ → Use

unfoldable pub take_out : ℕ → List NetMessage → Option (NetMessage × List NetMessage)
take_out i [] = none
take_out zero (m ∷ ms) = some (m, ms)
take_out (suc i) (m ∷ ms) = elim (take_out i ms) [ none ↦ none | some (n, ns) ↦ some (n, m ∷ ns) ]

abbrev pub held : List NetMessage → List MemBuffer
held [] = []
held (m ∷ ms) = m.m_buffer ∷ held ms

module _ (a : Allocator) where
  unfoldable pub use_once :
      Use → List NetMessage × MessageBufPool → List NetMessage × MessageBufPool
  unfolding create_message delete_message take_out
  use_once (creates size) (ms, p) = let (m, p) = create_message a size p in (m ∷ ms, p)
  use_once (deletes i) (ms, p) = elim (take_out i ms) [
    | none ↦ (ms, p)
    | some (m, rest) ↦ (rest, delete_message m p)
  ]

  unfoldable pub use_all :
      List Use → List NetMessage × MessageBufPool → List NetMessage × MessageBufPool
  unfolding use_once
  use_all [] s = s
  use_all (u ∷ us) s = use_all us (use_once u s)

  -- Each buffer has been made by the constructor of MemBuffer.
  abbrev pub AllMade : List MemBuffer → Type 0
  AllMade [] = Unit {0}
  AllMade (b ∷ bs) = ((size : ℕ) × (b ≡ new_mem_buffer a size)) × AllMade bs

  -- All the buffers that there are, those of messages in use and the free ones.
  abbrev pub all_buffers : List NetMessage × MessageBufPool → Bag
  all_buffers (ms, p) = add_all (held ms) (of_list p.m_pool)

  AllMade-append : (bs cs : List MemBuffer) → AllMade bs → AllMade cs → AllMade (bs ++ cs)
  AllMade-append [] cs h k = k
  AllMade-append (b ∷ bs) cs h k = (h.0, AllMade-append bs cs h.1 k)

  buffers-AllMade : (n size : ℕ) → AllMade (buffers a n size)
  unfolding buffers
  buffers-AllMade zero size = tt
  buffers-AllMade (suc n) size = ((size, refl), buffers-AllMade n size)

  -- `after` is `before` and buffers that are made new.
  abbrev pub Grown : Bag → Bag → Type 0
  Grown before after = (made : List MemBuffer) × AllMade made × (after ≡ add_all made before)

  pub Grown-trans : (x y z : Bag) → Grown x y → Grown y z → Grown x z
  Grown-trans x y z (xs, h, e) (ys, k, e') =
      (ys ++ xs, AllMade-append ys xs k h, e' ∙ (ap (add_all ys) e ∙ sym (add_all-append ys xs x)))

  filled-Grown : (bs : List MemBuffer) → Grown (of_list bs) (of_list (filled a bs))
  unfolding filled init_pool
  filled-Grown [] = (
    init_pool a [],
    AllMade-append (buffers a 5 512) (buffers a 5 1024 ++ buffers a 1 65536) (buffers-AllMade 5 512)
        (AllMade-append (buffers a 5 1024) (buffers a 1 65536) (buffers-AllMade 5 1024)
          (buffers-AllMade 1 65536)),
    sym (add_all-of_list (init_pool a []) []),
  )
  filled-Grown (b ∷ bs) = ([], tt, sym (add_all-of_list [] (b ∷ bs)))

  -- The buffer that is handed out, and the others, are those of before and what is made new.
  abbrev Handed : List MemBuffer → MemBuffer × List MemBuffer → Type 0
  Handed bs (b, rest) = Grown (of_list bs) (of_list (b ∷ rest))

  same-Grown : (bs cs : List MemBuffer) → Perm cs bs → Grown (of_list bs) (of_list cs)
  same-Grown bs cs h = ([], tt, of_list_sound h ∙ sym (add_all-of_list [] bs))

  abbrev Split : List MemBuffer → Option (MemBuffer × List MemBuffer) → Type 0
  Split bs none = Unit {0}
  Split bs (some (b, rest)) = Perm (b ∷ rest) bs

  find_fit-Split : (size : ℕ) (bs : List MemBuffer) → Split bs (find_fit size bs)
  unfolding find_fit
  find_fit-Split size [] = tt
  find_fit-Split size (b ∷ bs) = elim (Bool-cases (leb size b.m_size)) [
    | inl fits ↦ rw (fits, find_fit) (Perm.refl _)
    | inr small ↦ rw (small, find_fit) (past b bs (find_fit size bs) (find_fit-Split size bs))
  ]
    where
      past :
          (b : MemBuffer) (bs : List MemBuffer) (r : Option (MemBuffer × List MemBuffer))
          → Split bs r
          → Split (b ∷ bs) (elim r [ none ↦ none | some (c, cs) ↦ some (c, b ∷ cs) ])
      past b bs none h = tt
      past b bs (some (c, cs)) h = Perm.trans (Perm.swap b c cs) (Perm.cons b h)

  require_from-Handed :
      (size : ℕ) (b : MemBuffer) (bs : List MemBuffer)
      → Handed (b ∷ bs) (require_from a size (b ∷ bs))
  unfolding require_from take_front
  require_from-Handed size b bs = elim (Bool-cases (size == 0)) [
    | inl any ↦ rw any (same-Grown (b ∷ bs) (b ∷ bs) (Perm.refl _))
    | inr asked ↦ rw asked (found (b ∷ bs) (find_fit size (b ∷ bs)) (find_fit-Split size (b ∷ bs)))
  ]
    where
      found :
          (bs : List MemBuffer) (r : Option (MemBuffer × List MemBuffer))
          → Split bs r
          → Handed bs (elim r [ none ↦ (new_mem_buffer a size, bs) | some (b, rest) ↦ (b, rest) ])
      found bs none h = (
        new_mem_buffer a size ∷ [],
        ((size, refl), tt),
        sym (add_all-of_list (new_mem_buffer a size ∷ []) bs),
      )
      found bs (some (b, rest)) h = same-Grown bs (b ∷ rest) h

  pub require-Handed : (size : ℕ) (bs : List MemBuffer) → Handed bs (require a size bs)
  unfolding require filled init_pool buffers
  require-Handed size [] =
      Grown-trans (of_list []) (of_list (filled a [])) (of_list _) (filled-Grown []) (
        require_from-Handed size (new_mem_buffer a 512)
          (buffers a 4 512 ++ (buffers a 5 1024 ++ buffers a 1 65536)))
  require-Handed size (b ∷ bs) = require_from-Handed size b bs
