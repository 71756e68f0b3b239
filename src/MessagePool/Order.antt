-- ===== src/MessagePool/Order.antt =====
-- The free buffers stay in the order of their sizes, and none is lost or made up.
use mathlib.Core.List.{Perm}
use mathlib.Core.List.Perm
use socketforioswinandroid.Common.{
  ℕ, ◌≤◌, ◌≡◌, refl, true, false, Bool-cases, inl, inr, ◌⊎◌, List, [], ◌∷◌, leb, arith,
}
use socketforioswinandroid.MemBuffer.{MemBuffer}
use socketforioswinandroid.MessagePool.{MessageBufPool, insert_by_size, release}

-- No buffer of the list is smaller than `n`.
abbrev pub AtLeast : ℕ → List MemBuffer → Type 0
AtLeast n [] = Unit {0}
AtLeast n (b ∷ bs) = (n ≤ b.m_size) × AtLeast n bs

abbrev pub IsSorted : List MemBuffer → Type 0
IsSorted [] = Unit {0}
IsSorted (b ∷ bs) = AtLeast b.m_size bs × IsSorted bs

AtLeast-mono : (m n : ℕ) (bs : List MemBuffer) → m ≤ n → AtLeast n bs → AtLeast m bs
AtLeast-mono m n [] h l = tt
AtLeast-mono m n (b ∷ bs) h l = (omega arith, AtLeast-mono m n bs h l.1)

AtLeast-insert :
    (n : ℕ) (b : MemBuffer) (bs : List MemBuffer)
    → n ≤ b.m_size
    → AtLeast n bs
    → AtLeast n (insert_by_size b bs)
unfolding insert_by_size
AtLeast-insert n b [] h l = (h, tt)
AtLeast-insert n b (c ∷ cs) h l = ground (arith, AtLeast-insert n b cs h l.1)

pub insert-IsSorted :
    (b : MemBuffer) (bs : List MemBuffer) → IsSorted bs → IsSorted (insert_by_size b bs)
unfolding insert_by_size
insert-IsSorted b [] s = (tt, tt)
insert-IsSorted b (c ∷ cs) s = elim (Bool-cases (leb b.m_size c.m_size)) [
  | inl fits ↦ rw fits ((ground arith, AtLeast-mono b.m_size c.m_size cs (ground arith) s.0), s)
  | inr large ↦ rw large (AtLeast-insert c.m_size b cs (ground arith) s.0, insert-IsSorted b cs s.1)
]

pub insert-perm : (b : MemBuffer) (bs : List MemBuffer) → Perm (insert_by_size b bs) (b ∷ bs)
unfolding insert_by_size
insert-perm b [] = Perm.refl _
insert-perm b (c ∷ cs) = elim (Bool-cases (leb b.m_size c.m_size)) [
  | inl fits ↦ rw fits (Perm.refl _)
  | inr large ↦ rw large (Perm.trans (Perm.cons c (insert-perm b cs)) (Perm.swap b c cs))
]

-- To a pool in order, a released buffer joins the others, none of which is lost, and the pool stays
-- in order; or, after the destructor of the pool, nothing changes.
pub release-IsSorted :
    (b : MemBuffer) (p : MessageBufPool)
    → IsSorted p.m_pool
    → IsSorted (release b p).m_pool
      × (((p.m_has_init ≡ true) × Perm (release b p).m_pool (b ∷ p.m_pool))
          ⊎ ((p.m_has_init ≡ false) × (release b p ≡ p)))
unfolding release
release-IsSorted b p s = elim (Bool-cases p.m_has_init) [
  | inl live ↦ rw live (insert-IsSorted b p.m_pool s, inl (refl, insert-perm b p.m_pool))
  | inr dead ↦ rw dead (s, inr (refl, refl))
]
