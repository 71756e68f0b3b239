-- ===== src/Tests/Heap.antt =====
-- A C library whose malloc and realloc never fail, and the buffers and the pool over it.
use socketforioswinandroid.Common.{
  ℕ, zero, suc, ◌≤◌, ◌<◌, ◌≡◌, refl, sym, ap, ◌∙◌, ◌⊎◌, true, false, Option, none, some, List, [],
  ◌∷◌, ◌++◌, length, length-append, length-take, length-replicate, get_elem?, take, replicate,
  arith, Returns,
}
use mathlib.Core.List.{Perm}
use socketforioswinandroid.MemBuffer.{Allocator, MemBuffer, IsAllocator, HasMemory, grow}
use socketforioswinandroid.MemBuffer.Growth.{Extends, grow-Returns}
use socketforioswinandroid.MessagePool.{MessageBufPool, require_from, release}
use socketforioswinandroid.MessagePool.Order.{IsSorted, release-IsSorted}
use socketforioswinandroid.MessagePool.Fit.{Required, require_from-Required}

abbrev pub heap : Allocator
heap = record {
  malloc = λ n. some (replicate n 0);
  realloc = λ old n. some (take n (old ++ replicate n 0));
}

abbrev bytes_or_none : Option (List ℕ) → List ℕ
bytes_or_none none = []
bytes_or_none (some bytes) = bytes

get_elem?-take_lt : (xs : List ℕ) (n i : ℕ) → i < n → get_elem? (take n xs) i ≡ get_elem? xs i
get_elem?-take_lt xs zero i h = absurd (omega arith)
get_elem?-take_lt [] (suc n) i h = refl
get_elem?-take_lt (x ∷ xs) (suc n) zero h = refl
get_elem?-take_lt (x ∷ xs) (suc n) (suc i) h = get_elem?-take_lt xs n i (omega arith)

get_elem?-append_lt :
    (xs ys : List ℕ) (i : ℕ) → i < length xs → get_elem? (xs ++ ys) i ≡ get_elem? xs i
get_elem?-append_lt [] ys i h = absurd (omega arith)
get_elem?-append_lt (x ∷ xs) ys zero h = refl
get_elem?-append_lt (x ∷ xs) ys (suc i) h = get_elem?-append_lt xs ys i (omega arith)

pub heap-IsAllocator : IsAllocator heap
heap-IsAllocator = record {
  malloc_length =
      λ n block e. ap (λ o. length (bytes_or_none o)) (sym e) ∙ length-replicate {A = ℕ} n 0;
  realloc_length = λ old n block e.
      ap (λ o. length (bytes_or_none o)) (sym e)
      ∙ omega (
        arith,
        length-take n (old ++ replicate n 0),
        length-append old (replicate n 0),
        length-replicate {A = ℕ} n 0,
      );
  realloc_keeps = λ old n i block e h l.
      ap (λ o. get_elem? (bytes_or_none o) i) (sym e)
      ∙ get_elem?-take_lt (old ++ replicate n 0) n i l
      ∙ get_elem?-append_lt old (replicate n 0) i h;
}

pub heap-HasMemory : HasMemory heap
heap-HasMemory = record {
  malloc_succeeds = λ n h. (replicate n 0, refl);
  realloc_succeeds = λ old n h. (take n (old ++ replicate n 0), refl);
}

abbrev pub block : ℕ → MemBuffer
block n = record { m_size = n; m_buf = replicate n 0 }

-- Two doublings take a block of four bytes to sixteen.
grow-Returns_example :
    Returns (λ c. Extends (block 4) c × (10 ≤ c.m_size)) (grow heap 3 10 (block 4))
grow-Returns_example =
    grow-Returns heap heap-IsAllocator heap-HasMemory 2 10 (block 4) refl (omega arith)
      (omega arith)

-- No block can be made larger.
abbrev full_heap : Allocator
full_heap = record heap { realloc = λ old n. none }

abbrev pool : MessageBufPool
pool = record { m_pool = block 4 ∷ block 16 ∷ []; m_has_init = true }

release-IsSorted_example :
    IsSorted (release (block 8) pool).m_pool
    × (((true ≡ true) × Perm (release (block 8) pool).m_pool (block 8 ∷ block 4 ∷ block 16 ∷ []))
        ⊎ ((true ≡ false) × (release (block 8) pool ≡ pool)))
release-IsSorted_example = release-IsSorted (block 8) pool ((omega arith, tt), (tt, tt))

require_from-Required_example :
    Required 8 (block 4 ∷ block 16 ∷ []) (require_from heap 8 (block 4 ∷ block 16 ∷ []))
require_from-Required_example =
    require_from-Required heap 8 (block 4 ∷ block 16 ∷ []) heap-HasMemory (omega arith)
      (omega arith) ((omega arith, tt), (tt, tt))
