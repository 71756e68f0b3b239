-- ===== src/MessagePool/Bag.antt =====
-- Buffers without their order: the abstract view of the pool.
use mathlib.Core.List.{Perm, Perm-prop, perm_middle}
use mathlib.Core.List.Perm
use mathlib.Core.Quot.{Setoid, Quotient, Quotient-set}
use mathlib.Core.Quot.Quotient
use socketforioswinandroid.Common.{◌≡◌, refl, ap, ◌∙◌, List, [], ◌∷◌, ◌++◌, append_assoc}
use socketforioswinandroid.MemBuffer.{MemBuffer}

abbrev same_buffers : Setoid {0, 0} (List MemBuffer)
same_buffers = record {
  r = Perm;
  iseqv = record {
    refl = λ bs. Perm.refl bs;
    symm = λ bs cs. Perm.symm;
    trans = λ bs cs ds. Perm.trans;
  };
}

abbrev pub Bag : Type 0
Bag = Quotient same_buffers

abbrev pub of_list : List MemBuffer → Bag
of_list bs = Quotient.mk same_buffers bs

pub of_list_sound : {bs cs : List MemBuffer} → Perm bs cs → of_list bs ≡ of_list cs
of_list_sound = Quotient.sound same_buffers

-- Two lists are the same bag only if one is a rearrangement of the other.
pub of_list_exact : {bs cs : List MemBuffer} → of_list bs ≡ of_list cs → Perm bs cs
of_list_exact = Quotient.exact same_buffers (λ bs cs. Perm-prop {l₁ = bs} {l₂ = cs})

-- The bag with the buffers of a list put to it.
unfoldable pub add_all : List MemBuffer → Bag → Bag
add_all zs =
    Quotient.lift same_buffers (Quotient-set same_buffers) (λ bs. of_list (zs ++ bs))
      λ bs cs h. of_list_sound (Perm.append_left zs h)

pub add_all-of_list : (zs bs : List MemBuffer) → add_all zs (of_list bs) ≡ of_list (zs ++ bs)
unfolding add_all Quotient.lift
add_all-of_list zs bs = refl

pub add_all_comm :
    (xs ys : List MemBuffer) (b : Bag) → add_all xs (add_all ys b) ≡ add_all ys (add_all xs b)
unfolding add_all Quotient.lift
add_all_comm xs ys =
    Quotient.ind same_buffers (λ b. Quotient-set same_buffers _ _)
      λ bs. of_list_sound (over xs ys bs)
  where
    over : (xs ys zs : List MemBuffer) → Perm (xs ++ (ys ++ zs)) (ys ++ (xs ++ zs))
    over [] ys zs = Perm.refl _
    over (x ∷ xs) ys zs =
        Perm.trans (Perm.cons x (over xs ys zs)) (Perm.symm (perm_middle ys (xs ++ zs)))

pub add_all-append :
    (xs ys : List MemBuffer) (b : Bag) → add_all (xs ++ ys) b ≡ add_all xs (add_all ys b)
unfolding add_all Quotient.lift
add_all-append xs ys =
    Quotient.ind same_buffers (λ b. Quotient-set same_buffers _ _)
      λ bs. ap of_list (append_assoc xs ys bs)

pub add_all-nil : (b : Bag) → add_all [] b ≡ b
unfolding add_all Quotient.lift
add_all-nil = Quotient.ind same_buffers (λ b. Quotient-set same_buffers _ _) λ bs. refl

pub add_all-Perm : {xs ys : List MemBuffer} → Perm xs ys → (b : Bag) → add_all xs b ≡ add_all ys b
unfolding add_all Quotient.lift
add_all-Perm h =
    Quotient.ind same_buffers (λ b. Quotient-set same_buffers _ _)
      λ bs. of_list_sound (Perm.append_right bs h)

-- A buffer may be counted with those that are put to a bag, or with those of the bag.
pub add_all-cons :
    (b : MemBuffer) (xs bs : List MemBuffer)
    → add_all (b ∷ xs) (of_list bs) ≡ add_all xs (of_list (b ∷ bs))
add_all-cons b xs bs =
    add_all-append (b ∷ []) xs (of_list bs)
    ∙ (add_all_comm (b ∷ []) xs (of_list bs) ∙ ap (add_all xs) (add_all-of_list (b ∷ []) bs))
