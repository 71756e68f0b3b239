-- ===== src/LuaWrapper/Push.antt =====
-- LuaPlus::push of an object that has its userdata.
use socketforioswinandroid.Common.{
  ℕ, suc, ◌≤◌, ◌≡◌, refl, ap, ◌∙◌, true, none, some, List, [], ◌∷◌, length, arith,
}
use socketforioswinandroid.LuaApi.{absolute, from_top, LuaApi}
use socketforioswinandroid.LuaApi.Machine.{
  table, nil, text, light, object, View, registry, place, pushed, IsPlain, IsLua,
}
use socketforioswinandroid.LuaWrapper.Key
use socketforioswinandroid.LuaWrapper.Sees.{
  place-here, place-there, IsPlain-of_nil, see_get_table, see_push_string, see_push_light,
  see_is_nil, see_settle,
}
use socketforioswinandroid.LuaWrapper.{subtable, pushuserdata, push_under, push}

module _ (lua : LuaApi) (view : lua.State → View) (law : IsLua lua view) where
  pub subtable-found :
      (tindex : ℕ) (name mode : List ℕ) (s : lua.State) (v : View) (m u : ℕ)
      → view s ≡ v
      → tindex ≤ length v.stack
      → place tindex v.stack ≡ object m
      → v.kind m ≡ table
      → v.metatable m ≡ nil
      → v.raw m (text name) ≡ object u
      → view (subtable lua tindex name mode s) ≡ pushed (object u) v
  unfolding subtable
  subtable-found tindex name mode s v m u e low here kind bare found =
      let s1 = lua.push_string name s in
      let e1 : view s1 ≡ pushed (text name) v = see_push_string lua view law name s v e in
      let s2 = lua.get_table (absolute tindex) s1 in
      let e2 : view s2 ≡ pushed (object u) v =
        see_get_table lua view law (absolute tindex) s1 (pushed (text name) v) m e1 refl
          (place-there (text name) v.stack tindex low ∙ here)
          (IsPlain-of_nil (pushed (text name) v) m kind bare)
        ∙ ap (λ x. pushed x v) found in
      rw (see_is_nil lua view law (object u) s2 v e2) e2

  pushuserdata-found :
      (obj w : ℕ) (s : lua.State) (v : View) (u : ℕ)
      → view s ≡ pushed (object u) v
      → IsPlain v u
      → v.raw u (light obj) ≡ object w
      → ((pushuserdata lua obj s).0 ≡ none)
        × (view (pushuserdata lua obj s).1 ≡ pushed (object w) (pushed (object u) v))
  unfolding pushuserdata
  pushuserdata-found obj w s v u e plain found =
      let v' = pushed (object u) v in
      let s1 = lua.push_light_userdata obj s in
      let e1 : view s1 ≡ pushed (light obj) v' = see_push_light lua view law obj s v' e in
      let s2 = lua.get_table (from_top 2) s1 in
      let e2 : view s2 ≡ pushed (object w) v' =
        see_get_table lua view law (from_top 2) s1 (pushed (light obj) v') u e1 refl refl (record {
          is_table = plain.is_table;
          no_index = plain.no_index;
          no_new_index = plain.no_new_index;
        })
        ∙ ap (λ x. pushed x v') found in
      rw (see_is_nil lua view law (object w) s2 v' e2) (refl, e2)

  pub push_under-found :
      (obj : ℕ) (s : lua.State) (v : View) (m u w : ℕ)
      → view s ≡ pushed (object m) v
      → v.kind m ≡ table
      → v.metatable m ≡ nil
      → v.raw m (text Key.userdata) ≡ object u
      → IsPlain v u
      → v.raw u (light obj) ≡ object w
      → view (push_under lua (suc (length v.stack)) obj true s) ≡ pushed (object w) v
  unfolding push_under
  push_under-found obj s v m u w e kind bare lookup plain found =
      let mt = suc (length v.stack) in
      let v1 = pushed (object m) v in
      let s2 = subtable lua mt Key.userdata (118 ∷ []) s in
      let e2 : view s2 ≡ pushed (object u) v1 =
        subtable-found mt Key.userdata (118 ∷ []) s v1 m u e (omega arith)
          (place-here (object m) v.stack mt refl) kind bare lookup in
      let found' =
        pushuserdata-found obj w s2 v1 u e2
          (record {
            is_table = plain.is_table;
            no_index = plain.no_index;
            no_new_index = plain.no_new_index;
          })
          found in
      rw (found'.0, push_under)
        (see_settle lua view law (object w) (object u) (object m) (pushuserdata lua obj s2).1 v
          found'.1)

  -- The lookup of the metatable of a class that is registered.
  pub push-registered :
      (obj : ℕ) (class_name : List ℕ) (s : lua.State) (v : View) (m : ℕ)
      → view s ≡ v
      → v.raw registry (text class_name) ≡ object m
      → (s1 : lua.State) × (view s1 ≡ pushed (object m) v)
        × (push lua obj true class_name s
            ≡ some (suc (length v.stack), push_under lua (suc (length v.stack)) obj true s1))
  unfolding push
  push-registered obj class_name s v m e registered =
      let s1 = lua.get_metatable class_name s in
      let e1 : view s1 ≡ pushed (object m) v =
        law.get_metatable class_name s
        ∙ ap (λ (v : View). pushed (v.raw registry (text class_name)) v) e
        ∙ ap (λ x. pushed x v) registered in
      let top : lua.get_top s1 ≡ suc (length v.stack) =
        law.get_top s1 ∙ ap (λ (v : View). length v.stack) e1 in
      (s1, e1, rw (see_is_nil lua view law (object m) s1 v e1, top) refl)
