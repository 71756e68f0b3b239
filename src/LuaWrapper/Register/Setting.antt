-- ===== src/LuaWrapper/Register/Setting.antt =====
-- LuaPlus::set at a state whose view is known, and what an entry of a table changes.
use socketforioswinandroid.Common.{
  refl, ℕ, ◌≤◌, ◌≡◌, ap, ◌∙◌, List, ◌∷◌, [], length, take, drop, arith,
}
use socketforioswinandroid.LuaApi.{Index, absolute, from_top, CFunction, LuaApi}
use socketforioswinandroid.LuaApi.Machine.{
  Value, closure, nil, text, object, View, registry, put, place, at, pushed, IsPlain, fresh_object,
  entered_metatable, IsLua,
}
use socketforioswinandroid.LuaWrapper.Sees.{place-there, see_push_string, see_set_table}
use socketforioswinandroid.LuaWrapper.Register.{set}

-- The table `t` holds `x` at a text.
abbrev pub entered : ℕ → List ℕ → Value → View → View
entered t key x v = record v { raw = put t (text key) x v.raw }

module _ (lua : LuaApi) (view : lua.State → View) (law : IsLua lua view) where
  see_insert :
      (s : lua.State) (v : View) (x y : Value)
      → view s ≡ pushed x (pushed y v)
      → view (lua.insert (from_top 2) s) ≡ pushed y (pushed x v)
  see_insert s v x y e =
      law.insert s x y v.stack (ap (λ (v : View). v.stack) e)
      ∙ ap (λ (w : View). record w { stack = y ∷ x ∷ v.stack }) e

  pub see_set :
      (table : Index) (key : List ℕ) (s : lua.State) (v : View) (x : Value) (t : ℕ)
      → view s ≡ pushed x v
      → at table (x ∷ text key ∷ v.stack) ≡ object t
      → IsPlain v t
      → view (set lua table key s) ≡ entered t key x v
  unfolding set
  see_set table key s v x t e here plain =
      let s1 = lua.push_string key s in
      let e1 : view s1 ≡ pushed (text key) (pushed x v) =
        see_push_string lua view law key s (pushed x v) e in
      let s2 = lua.insert (from_top 2) s1 in
      let e2 : view s2 ≡ pushed x (pushed (text key) v) = see_insert s1 v (text key) x e1 in
      see_set_table lua view law table s2 (pushed x (pushed (text key) v)) t e2 refl here (record {
        is_table = plain.is_table;
        no_index = plain.no_index;
        no_new_index = plain.no_new_index;
      })

  pub see_set_low :
      (i : ℕ) (key : List ℕ) (s : lua.State) (v : View) (x : Value) (t : ℕ)
      → view s ≡ pushed x v
      → i ≤ length v.stack
      → place i v.stack ≡ object t
      → IsPlain v t
      → view (set lua (absolute i) key s) ≡ entered t key x v
  see_set_low i key s v x t e low here plain =
      see_set (absolute i) key s v x t e
        (place-there x (text key ∷ v.stack) i (omega arith)
          ∙ (place-there (text key) v.stack i low ∙ here))
        plain

  -- A closure over what is on the top, and one over nothing.
  pub see_push_closure :
      (f : CFunction) (s : lua.State) (v : View) (x : Value)
      → view s ≡ pushed x v
      → view (lua.push_closure f 1 s) ≡ fresh_object (closure f (x ∷ [])) v
  see_push_closure f s v x e =
      law.push_closure f 1 s (rw e (omega arith))
      ∙ ap
          (λ (v : View).
            fresh_object (closure f (take 1 v.stack)) (record v { stack = drop 1 v.stack }))
          e

  pub see_push_function :
      (f : CFunction) (s : lua.State) (v : View)
      → view s ≡ v
      → view (lua.push_closure f 0 s) ≡ fresh_object (closure f []) v
  see_push_function f s v e =
      law.push_closure f 0 s (omega arith)
      ∙ ap
          (λ (v : View).
            fresh_object (closure f (take 0 v.stack)) (record v { stack = drop 0 v.stack }))
          e

  pub see_push_method :
      (f : CFunction) (s : lua.State) (v : View) (x y : Value)
      → view s ≡ pushed x (pushed y v)
      → view (lua.push_closure f 2 s) ≡ fresh_object (closure f (x ∷ y ∷ [])) v
  see_push_method f s v x y e =
      law.push_closure f 2 s (rw e (omega arith))
      ∙ ap
          (λ (v : View).
            fresh_object (closure f (take 2 v.stack)) (record v { stack = drop 2 v.stack }))
          e

  pub see_new_metatable :
      (name : List ℕ) (s : lua.State) (v : View)
      → view s ≡ v
      → v.raw registry (text name) ≡ nil
      → view (lua.new_metatable name s) ≡ entered_metatable name v
  see_new_metatable name s v e free =
      law.new_metatable name s (ap (λ (v : View). v.raw registry (text name)) e ∙ free)
      ∙ ap (entered_metatable name) e
