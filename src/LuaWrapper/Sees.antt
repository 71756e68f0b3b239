-- ===== src/LuaWrapper/Sees.antt =====
-- The laws of the Lua calls at a state whose view is known.
use socketforioswinandroid.Common.{
  ℕ, suc, ◌≤◌, ◌≡◌, ◌≢◌, refl, ap, ◌∙◌, true, false, not, Option, List, [], ◌∷◌, length, drop,
  arith,
}
use socketforioswinandroid.LuaApi.{Index, absolute, from_top, LuaApi}
use socketforioswinandroid.LuaWrapper.Key
use socketforioswinandroid.LuaApi.Machine.{
  same, put, Value, nil, text, light, object, View, table, userdata, owns_metatable, has_top,
  has_key, is_nil_value, place, with_place, lowest, at, update_at, pushed, metamethod, IsPlain,
  fetch, assign, give_metatable, fresh_object, fill_place, IsLua,
}

pub place-here : (x : Value) (st : List Value) (i : ℕ) → i ≡ suc (length st) → place i (x ∷ st) ≡ x
place-here x st i e = ground arith

pub place-there :
    (x : Value) (st : List Value) (i : ℕ) → i ≤ length st → place i (x ∷ st) ≡ place i st
place-there x st i h = ground arith

pub with_place-here :
    (v x : Value) (st : List Value) (i : ℕ) → i ≡ suc (length st) → with_place i v (x ∷ st) ≡ v ∷ st
with_place-here v x st i e = ground arith

pub with_place-there :
    (v x : Value) (st : List Value) (i : ℕ)
    → i ≤ length st
    → with_place i v (x ∷ st) ≡ x ∷ with_place i v st
with_place-there v x st i h = ground arith

pub lowest-all : (st : List Value) (n : ℕ) → n ≡ length st → lowest n st ≡ st
lowest-all [] n e = refl
lowest-all (x ∷ st) n e = ground arith

pub lowest-above : (x : Value) (st : List Value) (n : ℕ) → n ≡ length st → lowest n (x ∷ st) ≡ st
lowest-above x st n e = ground (arith, lowest-all st n)

-- A table without a metatable has no metamethods.
pub IsPlain-of_nil : (v : View) (t : ℕ) → v.kind t ≡ table → v.metatable t ≡ nil → IsPlain v t
IsPlain-of_nil v t k e = record {
  is_table = k;
  no_index = rw (e, metamethod) refl;
  no_new_index = rw (e, metamethod) refl;
}

-- A table that is its own metatable, and has neither key.
pub IsPlain-of_self :
    (v : View) (t : ℕ)
    → v.kind t ≡ table
    → v.metatable t ≡ object t
    → v.raw t (text Key.index) ≡ nil
    → v.raw t (text Key.new_index) ≡ nil
    → IsPlain v t
IsPlain-of_self v t k e i n = record {
  is_table = k;
  no_index = rw (e, metamethod) i;
  no_new_index = rw (e, metamethod) n;
}

pub update_at_self {ℓ} : {A : Type ℓ} (o : ℕ) (a : A) (f : ℕ → A) → update_at o a f o ≡ a
update_at_self o a f = ground arith

pub update_at_ne {ℓ} :
    {A : Type ℓ} (o : ℕ) (a : A) (f : ℕ → A) (o' : ℕ) → o' ≢ o → update_at o a f o' ≡ f o'
update_at_ne o a f o' h = ground arith

pub put_ne :
    (t : ℕ) (k x : Value) (raw : ℕ → Value → Value) (t' : ℕ) (k' : Value)
    → t' ≢ t
    → put t k x raw t' k' ≡ raw t' k'
put_ne t k x raw t' k' h = ground arith

pub put_other :
    (t : ℕ) (k x : Value) (raw : ℕ → Value → Value) (t' : ℕ) (k' : Value)
    → same k' k ≡ false
    → put t k x raw t' k' ≡ raw t' k'
put_other t k x raw t' k' h = ground arith

pub put_self :
    (t : ℕ) (k x : Value) (raw : ℕ → Value → Value) → same k k ≡ true → put t k x raw t k ≡ x
put_self t k x raw h = ground arith

module _ (lua : LuaApi) (view : lua.State → View) (law : IsLua lua view) where
  pub see_get_table :
      (i : Index) (s : lua.State) (v : View) (t : ℕ)
      → view s ≡ v
      → has_top v.stack ≡ true
      → at i v.stack ≡ object t
      → IsPlain v t
      → view (lua.get_table i s) ≡ fetch t v
  see_get_table i s v t e h a p =
      law.get_table i s t (ap (λ v. has_top v.stack) e ∙ h) (ap (λ v. at i v.stack) e ∙ a) (rw e p)
      ∙ ap (fetch t) e

  pub see_set_table :
      (i : Index) (s : lua.State) (v : View) (t : ℕ)
      → view s ≡ v
      → has_key v.stack ≡ true
      → at i v.stack ≡ object t
      → IsPlain v t
      → view (lua.set_table i s) ≡ assign t v
  see_set_table i s v t e h a p =
      law.set_table i s t (ap (λ v. has_key v.stack) e ∙ h) (ap (λ v. at i v.stack) e ∙ a) (rw e p)
      ∙ ap (assign t) e

  pub see_set_metatable :
      (i : Index) (s : lua.State) (v : View) (o m : ℕ)
      → view s ≡ v
      → at i v.stack ≡ object o
      → owns_metatable (v.kind o) ≡ true
      → at (from_top 1) v.stack ≡ object m
      → v.kind m ≡ table
      → view (lua.set_metatable i s) ≡ give_metatable o v
  see_set_metatable i s v o m e a k b l =
      law.set_metatable i s o m (ap (λ v. at i v.stack) e ∙ a)
        (ap (λ v. owns_metatable (v.kind o)) e ∙ k) (ap (λ v. at (from_top 1) v.stack) e ∙ b)
        (ap (λ (v : View). v.kind m) e ∙ l)
      ∙ ap (give_metatable o) e

  pub see_push_string :
      (t : List ℕ) (s : lua.State) (v : View)
      → view s ≡ v
      → view (lua.push_string t s) ≡ pushed (text t) v
  see_push_string t s v e = law.push_string t s ∙ ap (pushed (text t)) e

  pub see_push_light :
      (p : ℕ) (s : lua.State) (v : View)
      → view s ≡ v
      → view (lua.push_light_userdata p s) ≡ pushed (light p) v
  see_push_light p s v e = law.push_light_userdata p s ∙ ap (pushed (light p)) e

  pub see_push_value :
      (i : Index) (s : lua.State) (v : View) (x : Value)
      → view s ≡ v
      → at i v.stack ≡ x
      → is_nil_value x ≡ false
      → view (lua.push_value i s) ≡ pushed x v
  see_push_value i s v x e a some_value =
      law.push_value i s x (ap (λ v. at i v.stack) e ∙ a) some_value ∙ ap (pushed x) e

  pub see_pop :
      (x : Value) (s : lua.State) (v : View) → view s ≡ pushed x v → view (lua.pop 1 s) ≡ v
  see_pop x s v e =
      law.pop 1 s (rw e (omega arith)) ∙ ap (λ (v : View). record v { stack = drop 1 v.stack }) e

  pub see_check_stack :
      (n : ℕ) (s : lua.State) (v : View) → view s ≡ v → view (lua.check_stack n s) ≡ v
  see_check_stack n s v e = law.check_stack n s ∙ e

  pub see_is_nil :
      (x : Value) (s : lua.State) (v : View)
      → view s ≡ pushed x v
      → lua.is_nil (from_top 1) s ≡ is_nil_value x
  see_is_nil x s v e = law.is_nil s x v.stack (ap (λ (v : View). v.stack) e)

  pub see_new_table :
      (s : lua.State) (v : View) → view s ≡ v → view (lua.new_table s) ≡ fresh_object table v
  see_new_table s v e = law.new_table s ∙ ap (fresh_object table) e

  pub see_new_userdata :
      (s : lua.State) (v : View)
      → view s ≡ v
      → ((lua.new_userdata s).0 ≡ v.next) × (view (lua.new_userdata s).1 ≡ fresh_object userdata v)
  see_new_userdata s v e =
      let (number, after) = law.new_userdata s in
      (number ∙ ap (λ v. v.next) e, after ∙ ap (fresh_object userdata) e)

  pub see_store_pointer :
      (o : ℕ) (p : Option ℕ) (s : lua.State) (v : View)
      → view s ≡ v
      → v.kind o ≡ userdata
      → view (lua.store_pointer o p s) ≡ record v { pointer = update_at o p v.pointer }
  see_store_pointer o p s v e k =
      law.store_pointer o p s (ap (λ (v : View). v.kind o) e ∙ k)
      ∙ ap (λ (v : View). record v { pointer = update_at o p v.pointer }) e

  pub see_no_metafield :
      (i : Index) (name : List ℕ) (s : lua.State) (v : View) (o : ℕ)
      → view s ≡ v
      → at i v.stack ≡ object o
      → owns_metatable (v.kind o) ≡ true
      → metamethod v o name ≡ nil
      → ((lua.get_metafield i name s).0 ≡ false) × (view (lua.get_metafield i name s).1 ≡ v)
  see_no_metafield i name s v o e a k missing =
      let (found, after) =
        law.get_metafield i name s o (ap (λ (v : View). at i v.stack) e ∙ a)
          (ap (λ (v : View). owns_metatable (v.kind o)) e ∙ k) in
      let none_there : metamethod (view s) o name ≡ nil =
        ap (λ v. metamethod v o name) e ∙ missing in
      (found ∙ ap (λ x. not (is_nil_value x)) none_there, after ∙ rw none_there e)

  pub see_metafield :
      (i : Index) (name : List ℕ) (s : lua.State) (v : View) (o d : ℕ)
      → view s ≡ v
      → at i v.stack ≡ object o
      → owns_metatable (v.kind o) ≡ true
      → metamethod v o name ≡ object d
      → ((lua.get_metafield i name s).0 ≡ true)
        × (view (lua.get_metafield i name s).1 ≡ pushed (object d) v)
  see_metafield i name s v o d e a k there =
      let (found, after) =
        law.get_metafield i name s o (ap (λ (v : View). at i v.stack) e ∙ a)
          (ap (λ (v : View). owns_metatable (v.kind o)) e ∙ k) in
      let some_there : metamethod (view s) o name ≡ object d =
        ap (λ v. metamethod v o name) e ∙ there in
      (
        found ∙ ap (λ x. not (is_nil_value x)) some_there,
        after ∙ rw some_there (ap (pushed (object d)) e),
      )

  -- The end of LuaPlus::push: what is on the top takes the place of the metatable.
  pub see_settle :
      (w y z : Value) (s : lua.State) (v : View)
      → view s ≡ pushed w (pushed y (pushed z v))
      → view (lua.set_top (suc (length v.stack)) (lua.replace (absolute (suc (length v.stack))) s))
        ≡ pushed w v
  see_settle w y z s v e =
      let n = suc (length v.stack) in
      let s' = lua.replace (absolute n) s in
      let filled : with_place n w (y ∷ z ∷ v.stack) ≡ y ∷ w ∷ v.stack =
        with_place-there w y (z ∷ v.stack) n (omega arith)
        ∙ ap (λ st. y ∷ st) (with_place-here w z v.stack n refl) in
      let e' : view s' ≡ record v { stack = y ∷ w ∷ v.stack } =
        law.replace n s (omega arith) (rw e (omega arith))
        ∙ ap (fill_place n) e
        ∙ ap (λ st. record v { stack = st }) filled in
      law.set_top n s' (rw e' (omega arith))
      ∙ ap (λ (v : View). record v { stack = lowest n v.stack }) e'
      ∙ ap (λ st. record v { stack = st }) (lowest-above y (w ∷ v.stack) n refl)
