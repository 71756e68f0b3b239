-- ===== src/LuaWrapper/Register/Methods.antt =====
-- The loop of Register over the methods of a class.
use socketforioswinandroid.Common.{
  ap, Option-cases, ◌≢◌, none, some, Option, ℕ, suc, ◌≤◌, ◌<◌, ◌≡◌, refl, ◌∙◌, inl, inr, true,
  Bool-cases, List, [], ◌∷◌, length, arith,
}
use socketforioswinandroid.LuaApi.{absolute, thunk, LuaApi}
use socketforioswinandroid.LuaApi.Machine.{
  Value, Kind, closure, nil, text, light, object, View, same, same_text, put, place, pushed,
  fresh_object, IsPlain, IsLua,
}
use socketforioswinandroid.LuaWrapper.{Class}
use socketforioswinandroid.LuaWrapper.Sees.{
  update_at_self, update_at_ne, put_ne, place-there, put_other, see_push_string, see_push_light,
  see_set_table,
}
use socketforioswinandroid.LuaWrapper.Register.{add_methods}
use socketforioswinandroid.LuaWrapper.Register.Closures.{HasClosure, method_of, minted-kind}
use socketforioswinandroid.LuaWrapper.Register.Setting.{entered, see_push_method}
use socketforioswinandroid.LuaWrapper.Register.Filling.{
  Filling, minted, minted-raw, minted-Filling, in_methods-Filling, IsPlain-of_methods,
  methods_place, stack_length,
}

-- The same state with one more method in the table `a`.
abbrev method_kind : List ℕ → ℕ → Kind
method_kind class_name entry = closure thunk (text class_name ∷ light entry ∷ [])

abbrev with_method : List ℕ → ℕ → ℕ → List ℕ → View → View
with_method class_name a entry name v =
    entered a name (object v.next) (minted (method_kind class_name entry) v)

abbrev or_zero : Option ℕ → ℕ
or_zero none = 0
or_zero (some n) = n

put_again :
    (t : ℕ) (k x : Value) (raw : ℕ → Value → Value) (k' : Value)
    → same k' k ≡ true
    → put t k x raw t k' ≡ x
put_again t k x raw k' e = ground arith

-- What the loop leaves behind: each name of the list has a closure of thunk for the last entry of
-- that name, and nothing else is changed.
pub record Filled (class_name : List ℕ) (a m : ℕ) (base : List Value) (index : Value)
    (methods : List (ℕ × List ℕ)) (v v' : View) : Type 0 where
  pub filling : Filling class_name a m base index v'
  pub entries :
      (name : List ℕ) (entry : ℕ)
      → method_of name methods ≡ some entry
      → HasClosure a name thunk (text class_name ∷ light entry ∷ []) v'
  pub others :
      (name : List ℕ) → method_of name methods ≡ none → v'.raw a (text name) ≡ v.raw a (text name)
  pub elsewhere : (t : ℕ) (k : Value) → t < v.next → t ≢ a → v'.raw t k ≡ v.raw t k
  pub kinds : (t : ℕ) → t < v.next → v'.kind t ≡ v.kind t
  pub same_metatable : v'.metatable a ≡ v.metatable a
  pub grows : v.next ≤ v'.next

module _ (class_name : List ℕ) (a m : ℕ) (base : List Value) (index : Value)
    (methods : List (ℕ × List ℕ)) (entry : ℕ) (name : List ℕ) (v v' : View) (old : a < v.next)
    (filled : Filled class_name a m base index methods
      (with_method class_name a entry name v)
      v') where
  kind_then : (t : ℕ) → t < v.next → v'.kind t ≡ v.kind t
  kind_then t low =
      filled.kinds t (omega (arith, low)) ∙ minted-kind (method_kind class_name entry) v t low

  first_entry :
      (name' : List ℕ)
      → method_of name' methods ≡ none
      → same_text name' name ≡ true
      → HasClosure a name' thunk (text class_name ∷ light entry ∷ []) v'
  first_entry name' later again = (
    v.next,
    omega (arith, filled.grows),
    filled.others name' later
        ∙ put_again a (text name) (object v.next) (minted (method_kind class_name entry) v).raw
            (text name') again,
    filled.kinds v.next (omega arith) ∙ update_at_self v.next (method_kind class_name entry) v.kind,
  )

  entry_then :
      (name' : List ℕ) (entry' : ℕ)
      → method_of name' ((entry, name) ∷ methods) ≡ some entry'
      → HasClosure a name' thunk (text class_name ∷ light entry' ∷ []) v'
  entry_then name' entry' e = elim (Option-cases (method_of name' methods)) [
    | inr (later, found) ↦ filled.entries name' entry' (found ∙ (rw (found, method_of) at e))
    | inl missing ↦ elim (Bool-cases (same_text name' name)) [
      | inl again ↦
          let is : some entry ≡ some entry' = rw (missing, again, method_of) at e in
          let same_entry : entry ≡ entry' = ap (λ o. or_zero o) is in
          rw (← same_entry) (first_entry name' missing again)
      | inr other ↦
          let is : none ≡ some entry' = rw (missing, other, method_of) at e in absurd (cc is)
    ]
  ]

  other_then :
      (name' : List ℕ)
      → method_of name' ((entry, name) ∷ methods) ≡ none
      → v'.raw a (text name') ≡ v.raw a (text name')
  other_then name' e = elim (Option-cases (method_of name' methods)) [
    | inr (later, found) ↦ let is : some later ≡ none = rw (found, method_of) at e in absurd (cc is)
    | inl missing ↦ elim (Bool-cases (same_text name' name)) [
      | inl again ↦
          let is : some entry ≡ none = rw (missing, again, method_of) at e in absurd (cc is)
      | inr other ↦
          filled.others name' missing
          ∙ put_other a (text name) (object v.next) (minted (method_kind class_name entry) v).raw a
              (text name') other
          ∙ minted-raw (method_kind class_name entry) v a (text name') old
    ]
  ]

  one_more-Filled : Filled class_name a m base index ((entry, name) ∷ methods) v v'
  one_more-Filled = record {
    filling = filled.filling;
    entries = entry_then;
    others = other_then;
    elsewhere = λ t k low apart.
        filled.elsewhere t k (omega (arith, low)) apart
        ∙ put_ne a (text name) (object v.next) (minted (method_kind class_name entry) v).raw t k
            apart
        ∙ minted-raw (method_kind class_name entry) v t k low;
    kinds = kind_then;
    same_metatable =
        filled.same_metatable ∙ update_at_ne v.next nil v.metatable a (λ e. omega (arith, e, old));
    grows = omega (arith, filled.grows);
  }

module _ (lua : LuaApi) (view : lua.State → View) (law : IsLua lua view) (class : Class) where
  method-view :
      (i a entry : ℕ) (name class_name : List ℕ) (s : lua.State) (v : View)
      → view s ≡ v
      → i ≤ length v.stack
      → place i v.stack ≡ object a
      → IsPlain (minted (method_kind class_name entry) v) a
      → view (
          lua.set_table (absolute i) (
            lua.push_closure thunk 2 (
              lua.push_string class_name (lua.push_light_userdata entry (lua.push_string name s)))))
        ≡ with_method class_name a entry name v
  method-view i a entry name class_name s v e low here plain =
      let s1 = lua.push_string name s in
      let v1 = pushed (text name) v in
      let e1 : view s1 ≡ v1 = see_push_string lua view law name s v e in
      let s2 = lua.push_light_userdata entry s1 in
      let e2 : view s2 ≡ pushed (light entry) v1 = see_push_light lua view law entry s1 v1 e1 in
      let s3 = lua.push_string class_name s2 in
      let e3 : view s3 ≡ pushed (text class_name) (pushed (light entry) v1) =
        see_push_string lua view law class_name s2 (pushed (light entry) v1) e2 in
      let s4 = lua.push_closure thunk 2 s3 in
      let e4 : view s4 ≡ fresh_object (method_kind class_name entry) v1 =
        see_push_method lua view law thunk s3 v1 (text class_name) (light entry) e3 in
      see_set_table lua view law (absolute i) s4 (fresh_object (method_kind class_name entry) v1) a
        e4 refl
        (place-there (object v.next) (text name ∷ v.stack) i (omega arith)
          ∙ (place-there (text name) v.stack i low ∙ here))
        (record {
          is_table = plain.is_table;
          no_index = plain.no_index;
          no_new_index = plain.no_new_index;
        })

  pub add_methods-Filled :
      (class_name : List ℕ) (a m : ℕ) (base : List Value) (index : Value)
      (methods : List (ℕ × List ℕ)) (s : lua.State) (v : View)
      → view s ≡ v
      → Filling class_name a m base index v
      → (v' : View) × (view (add_methods lua class (suc (length base)) class_name methods s) ≡ v')
        × Filled class_name a m base index methods v v'
  unfolding add_methods
  add_methods-Filled class_name a m base index [] s v e f = (
    v,
    e,
    record {
      filling = f;
      entries = λ name entry found. absurd (cc found);
      others = λ name missing. refl;
      elsewhere = λ t k low apart. refl;
      kinds = λ t low. refl;
      same_metatable = refl;
      grows = omega arith;
    },
  )
  add_methods-Filled class_name a m base index ((entry, name) ∷ rest) s v e f =
      let old : a < v.next = omega (arith, f.next_to, f.old) in
      let kind = method_kind class_name entry in
      let f1 = minted-Filling class_name a m base index v f kind in
      let v2 = with_method class_name a entry name v in
      let f2 : Filling class_name a m base index v2 =
        in_methods-Filling class_name a m base index (minted kind v) f1 name (object v.next) in
      let e2 =
        method-view (suc (length base)) a entry name class_name s v e
          (omega (arith, stack_length class_name a m base index v f))
          (methods_place class_name a m base index v f)
          (IsPlain-of_methods class_name a m base index (minted kind v) f1) in
      let (v', e', filled) = add_methods-Filled class_name a m base index rest _ v2 e2 f2 in
      (v', e', one_more-Filled class_name a m base index rest entry name v v' old filled)
