-- ===== src/MessagePool/Fit.antt =====
-- What `require` hands out: the smallest free buffer that is large enough.
use mathlib.Core.List.{Perm}
use mathlib.Core.List.Perm
use socketforioswinandroid.Common.{
  ℕ, ◌^◌, ◌≤◌, ◌<◌, ◌≡◌, refl, false, Bool-cases, inl, inr, ◌⊎◌, Option, none, some, List, [], ◌∷◌,
  leb, ◌==◌, arith,
}
use socketforioswinandroid.MemBuffer.{Allocator, MemBuffer, new_mem_buffer, HasMemory}
use socketforioswinandroid.MessagePool.{find_fit, require_from}
use socketforioswinandroid.MessagePool.Order.{AtLeast, IsSorted}

-- Each buffer is too small for `size`, or no smaller than `b`.
abbrev pub NoneBetween : ℕ → MemBuffer → List MemBuffer → Type 0
NoneBetween size b [] = Unit {0}
NoneBetween size b (c ∷ cs) = ((c.m_size < size) ⊎ (b.m_size ≤ c.m_size)) × NoneBetween size b cs

abbrev pub AllBelow : ℕ → List MemBuffer → Type 0
AllBelow size [] = Unit {0}
AllBelow size (c ∷ cs) = (c.m_size < size) × AllBelow size cs

AtLeast-NoneBetween :
    (size : ℕ) (b : MemBuffer) (bs : List MemBuffer) → AtLeast b.m_size bs → NoneBetween size b bs
AtLeast-NoneBetween size b [] l = tt
AtLeast-NoneBetween size b (c ∷ cs) l = (inr l.0, AtLeast-NoneBetween size b cs l.1)

-- What the search has to come to.
abbrev pub FitOf : ℕ → List MemBuffer → Option (MemBuffer × List MemBuffer) → Type 0
FitOf size bs none = AllBelow size bs
FitOf size bs (some (b, rest)) =
    (size ≤ b.m_size)
    × Perm bs (b ∷ rest)
    × NoneBetween size b rest
    × IsSorted rest
    × ((n : ℕ) → AtLeast n bs → AtLeast n rest)

FitOf-cons :
    (size : ℕ) (c : MemBuffer) (cs : List MemBuffer) (r : Option (MemBuffer × List MemBuffer))
    → c.m_size < size
    → AtLeast c.m_size cs
    → FitOf size cs r
    → FitOf size (c ∷ cs) (elim r [ none ↦ none | some (d, ds) ↦ some (d, c ∷ ds) ])
FitOf-cons size c cs none small l f = (small, f)
FitOf-cons size c cs (some (d, ds)) small l f = (
  f.0,
  Perm.trans (Perm.cons c f.1) (Perm.swap d c ds),
  (inl small, f.2),
  (f.4 c.m_size l, f.3),
  (λ n h. (h.0, f.4 n h.1)),
)

-- On a pool in the order of sizes the search finds the smallest buffer that is large enough, and it
-- finds none only if all are too small. The other buffers stay, in order.
pub find_fit-FitOf :
    (size : ℕ) (bs : List MemBuffer) → IsSorted bs → FitOf size bs (find_fit size bs)
unfolding find_fit
find_fit-FitOf size [] s = tt
find_fit-FitOf size (c ∷ cs) s = elim (Bool-cases (leb size c.m_size)) [
  | inl fits ↦
      rw (fits, find_fit)
        (ground arith, Perm.refl _, AtLeast-NoneBetween size c cs s.0, s.1, (λ n h. h.1))
  | inr small ↦
      rw (small, find_fit)
        (FitOf-cons size c cs (find_fit size cs) (ground arith) s.0 (find_fit-FitOf size cs s.1))
]

pub record Required (size : ℕ) (bs : List MemBuffer) (r : MemBuffer × List MemBuffer) : Type 0 where
  pub large : size ≤ r.0.m_size
  pub best : NoneBetween size r.0 r.1
  pub sorted : IsSorted r.1
  pub from_pool : Perm bs (r.0 ∷ r.1) ⊎ ((r.1 ≡ bs) × AllBelow size bs)

AllBelow-NoneBetween :
    (size : ℕ) (b : MemBuffer) (bs : List MemBuffer) → AllBelow size bs → NoneBetween size b bs
AllBelow-NoneBetween size b [] l = tt
AllBelow-NoneBetween size b (c ∷ cs) l = (inl l.0, AllBelow-NoneBetween size b cs l.1)

new_mem_buffer-size :
    (a : Allocator) (size : ℕ) → HasMemory a → size < 2 ^ 31 → (new_mem_buffer a size).m_size ≡ size
unfolding new_mem_buffer
new_mem_buffer-size a size memory h =
    let (block, e) = memory.malloc_succeeds size h in rw (e, new_mem_buffer)

-- While memory does not run out, `require` of a size above 0 and below 2 ^ 31, on a pool in the
-- order of sizes that is not to be filled first, hands out a buffer of the size asked for or
-- larger, such that no free one would fit more closely. It is taken out of the pool, which keeps
-- the others in order, or made new where every free one is too small.
pub require_from-Required :
    (a : Allocator) (size : ℕ) (bs : List MemBuffer)
    → HasMemory a
    → 0 < size
    → size < 2 ^ 31
    → IsSorted bs
    → Required size bs (require_from a size bs)
unfolding require_from
require_from-Required a size bs memory h small s =
    rw asked (found (find_fit size bs) (find_fit-FitOf size bs s))
  where
    asked : (size == 0) ≡ false
    asked = ground arith

    found :
        (r : Option (MemBuffer × List MemBuffer))
        → FitOf size bs r
        → Required size bs
            (elim r [ none ↦ (new_mem_buffer a size, bs) | some (b, rest) ↦ (b, rest) ])
    found none f = record {
      large = omega (arith, new_mem_buffer-size a size memory small);
      best = AllBelow-NoneBetween size (new_mem_buffer a size) bs f;
      sorted = s;
      from_pool = inr (refl, f);
    }
    found (some (b, rest)) f = record { large = f.0; best = f.2; sorted = f.3; from_pool = inl f.1 }
