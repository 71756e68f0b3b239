-- ===== src/LuaWrapper/Register/Closures.antt =====
-- Which function of LuaWrapper.h a table has at a name, and what keeps it there.
use socketforioswinandroid.Common.{
  ℕ, ◌<◌, ◌≡◌, ◌≢◌, refl, ◌∙◌, ◌⊎◌, inl, inr, true, false, Bool-cases, Option, none, some, ◌==◌,
  List, [], ◌∷◌, arith,
}
use socketforioswinandroid.LuaApi.{CFunction}
use socketforioswinandroid.LuaApi.Machine.{
  Value, text, object, View, Kind, closure, same, same_text,
}
use socketforioswinandroid.LuaWrapper.Sees.{
  update_at_self, update_at_ne, put_ne, put_other, put_self,
}
use socketforioswinandroid.LuaWrapper.Register.Setting.{entered}
use socketforioswinandroid.LuaWrapper.Register.Filling.{minted, minted-raw}

pub same_text_self : (t : List ℕ) → same_text t t ≡ true
same_text_self [] = refl
same_text_self (c ∷ cs) =
    let here : (c == c) ≡ true = ground arith in rw (here, same_text) (same_text_self cs)

-- The table `t` has at the key a closure of this function with these upvalues.
abbrev pub HasClosure : ℕ → List ℕ → CFunction → List Value → View → Type 0
HasClosure t key f upvalues v =
    (o : ℕ) × (o < v.next) × (v.raw t (text key) ≡ object o) × (v.kind o ≡ closure f upvalues)

pub minted-kind : (kind : Kind) (v : View) (t : ℕ) → t < v.next → (minted kind v).kind t ≡ v.kind t
minted-kind kind v t h = update_at_ne v.next kind v.kind t (λ same. omega (arith, same))

pub minted-HasClosure :
    (kind : Kind) (t : ℕ) (key : List ℕ) (f : CFunction) (upvalues : List Value) (v : View)
    → t < v.next
    → HasClosure t key f upvalues v
    → HasClosure t key f upvalues (minted kind v)
minted-HasClosure kind t key f upvalues v low (o, old, e, k) =
    (o, omega (arith, old), minted-raw kind v t (text key) low ∙ e, minted-kind kind v o old ∙ k)

-- An entry of another table, or at another key.
pub entered-HasClosure :
    (t' : ℕ) (key' : List ℕ) (x : Value) (t : ℕ) (key : List ℕ) (f : CFunction)
    (upvalues : List Value) (v : View)
    → (t ≢ t') ⊎ (same (text key) (text key') ≡ false)
    → HasClosure t key f upvalues v
    → HasClosure t key f upvalues (entered t' key' x v)
entered-HasClosure t' key' x t key f upvalues v (inl apart) (o, old, e, k) =
    (o, old, put_ne t' (text key') x v.raw t (text key) apart ∙ e, k)
entered-HasClosure t' key' x t key f upvalues v (inr other) (o, old, e, k) = elim (t-cases t t') [
  | inl same_one ↦
      (o, old, rw same_one (put_other t' (text key') x v.raw t' (text key) other) ∙ e, k)
  | inr apart ↦ (o, old, put_ne t' (text key') x v.raw t (text key) apart ∙ e, k)
]
  where
    t-cases : (t t' : ℕ) → (t ≡ t') ⊎ (t ≢ t')
    t-cases t t' = elim (Bool-cases (t == t')) [
      | inl e ↦ inl (ground arith)
      | inr e ↦ inr (λ h. ground (arith, h, e))
    ]

-- A closure that is made and entered.
pub new-HasClosure :
    (t : ℕ) (key : List ℕ) (f : CFunction) (upvalues : List Value) (v : View)
    → HasClosure t key f upvalues (entered t key (object v.next) (minted (closure f upvalues) v))
new-HasClosure t key f upvalues v = (
  v.next,
  omega arith,
  put_self t (text key) (object v.next) (minted (closure f upvalues) v).raw (same_text_self key),
  update_at_self v.next (closure f upvalues) v.kind,
)

-- The entry that a list of methods has for a name: the last one.
abbrev pub method_of : List ℕ → List (ℕ × List ℕ) → Option ℕ
method_of name [] = none
method_of name ((entry, name') ∷ rest) = elim (method_of name rest) [
  | some later ↦ some later
  | none ↦ elim (same_text name name') [ true ↦ some entry | false ↦ none ]
]
