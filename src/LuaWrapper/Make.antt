-- ===== src/LuaWrapper/Make.antt =====
-- LuaPlus::push of an object that has no userdata yet: what is made, and where it is entered.
use socketforioswinandroid.Common.{
  ℕ, suc, ◌≤◌, ◌<◌, ◌≡◌, ◌≢◌, refl, ap, ◌∙◌, true, none, some, List, [], ◌∷◌, length, arith,
}
use socketforioswinandroid.LuaApi.{absolute, from_top, LuaApi}
use socketforioswinandroid.LuaApi.Machine.{
  owns_metatable, Value, nil, table, userdata, text, light, object, View, place, put, update_at,
  pushed, give_metatable, fresh_object, IsLua,
}
use socketforioswinandroid.LuaWrapper.Key
use socketforioswinandroid.LuaWrapper.Sees.{
  place-here, place-there, IsPlain-of_nil, IsPlain-of_self, update_at_self, update_at_ne,
  see_get_table, see_set_table, see_set_metatable, see_push_string, see_push_light, see_push_value,
  see_pop, see_check_stack, see_is_nil, see_new_table, see_new_userdata, see_store_pointer,
  see_settle,
}
use socketforioswinandroid.LuaWrapper.{weaktable, subtable, pushuserdata, adopt, push_under}

-- The state behind a weaktable.
abbrev pub woven : List ℕ → View → View
woven mode v = record v {
  stack = object v.next ∷ v.stack;
  kind = update_at v.next table v.kind;
  raw = put v.next (text Key.mode) (text mode) (update_at v.next (λ k. nil) v.raw);
  metatable = update_at v.next (object v.next) (update_at v.next nil v.metatable);
  pointer = update_at v.next none v.pointer;
  next = suc v.next;
}

-- A new userdata, entered in the lookup table `u`.
abbrev housed : ℕ → ℕ → View → View
housed obj u v = record v {
  stack = object v.next ∷ (object u ∷ v.stack);
  kind = update_at v.next userdata v.kind;
  raw = put u (light obj) (object v.next) (update_at v.next (λ k. nil) v.raw);
  metatable = update_at v.next nil v.metatable;
  pointer = update_at v.next none v.pointer;
  next = suc v.next;
}

-- The state behind a push that has made a userdata.
abbrev pub adopted : ℕ → ℕ → ℕ → View → View
adopted obj m u v = record v {
  stack = object v.next ∷ v.stack;
  kind = update_at v.next userdata v.kind;
  raw = put u (light obj) (object v.next) (update_at v.next (λ k. nil) v.raw);
  metatable = update_at v.next (object m) (update_at v.next nil v.metatable);
  pointer = update_at v.next (some obj) (update_at v.next none v.pointer);
  next = suc v.next;
}

module _ (lua : LuaApi) (view : lua.State → View) (law : IsLua lua view) where
  weaktable-woven :
      (mode : List ℕ) (s : lua.State) (v : View)
      → view s ≡ v
      → view (weaktable lua mode s) ≡ woven mode v
  unfolding weaktable
  weaktable-woven mode s v e =
      let n = v.next in
      let s1 = lua.new_table s in
      let v1 = fresh_object table v in
      let e1 : view s1 ≡ v1 = see_new_table lua view law s v e in
      let s2 = lua.push_value (from_top 1) s1 in
      let e2 : view s2 ≡ pushed (object n) v1 =
        see_push_value lua view law (from_top 1) s1 v1 (object n) e1 refl refl in
      let s3 = lua.set_metatable (from_top 2) s2 in
      let kind : v1.kind n ≡ table = update_at_self n table v.kind in
      let v3 = give_metatable n (pushed (object n) v1) in
      let e3 : view s3 ≡ v3 =
        see_set_metatable lua view law (from_top 2) s2 (pushed (object n) v1) n n e2 refl
          (ap owns_metatable kind) refl kind in
      let s4 = lua.push_string Key.mode s3 in
      let e4 : view s4 ≡ pushed (text Key.mode) v3 =
        see_push_string lua view law Key.mode s3 v3 e3 in
      let v5 = pushed (text mode) (pushed (text Key.mode) v3) in
      let e5 : view (lua.push_string mode s4) ≡ v5 =
        see_push_string lua view law mode s4 (pushed (text Key.mode) v3) e4 in
      let empty : (k : Value) → v3.raw n k ≡ nil =
        λ k. ap (λ (r : Value → Value). r k) (update_at_self n (λ k. nil) v.raw) in
      see_set_table lua view law (from_top 3) (lua.push_string mode s4) v5 n e5 refl refl (
        IsPlain-of_self v5 n kind (update_at_self n (object n) v1.metatable)
          (empty (text Key.index)) (empty (text Key.new_index)))

  pub subtable-made :
      (tindex : ℕ) (name mode : List ℕ) (s : lua.State) (v : View) (m : ℕ)
      → view s ≡ v
      → tindex ≤ length v.stack
      → place tindex v.stack ≡ object m
      → v.kind m ≡ table
      → v.metatable m ≡ nil
      → m < v.next
      → v.raw m (text name) ≡ nil
      → view (subtable lua tindex name mode s)
        ≡ record (woven mode v) { raw = put m (text name) (object v.next) (woven mode v).raw }
  unfolding subtable
  subtable-made tindex name mode s v m e low here kind bare old missing =
      let n = v.next in
      let s1 = lua.push_string name s in
      let e1 : view s1 ≡ pushed (text name) v = see_push_string lua view law name s v e in
      let s2 = lua.get_table (absolute tindex) s1 in
      let e2 : view s2 ≡ pushed nil v =
        see_get_table lua view law (absolute tindex) s1 (pushed (text name) v) m e1 refl
          (place-there (text name) v.stack tindex low ∙ here)
          (IsPlain-of_nil (pushed (text name) v) m kind bare)
        ∙ ap (λ x. pushed x v) missing in
      let s3 = lua.check_stack 3 (lua.pop 1 s2) in
      let e3 : view s3 ≡ v =
        see_check_stack lua view law 3 (lua.pop 1 s2) v (see_pop lua view law nil s2 v e2) in
      let s4 = weaktable lua mode s3 in
      let v4 = woven mode v in
      let e4 : view s4 ≡ v4 = weaktable-woven mode s3 v e3 in
      let s5 = lua.push_string name s4 in
      let v5 = pushed (text name) v4 in
      let e5 : view s5 ≡ v5 = see_push_string lua view law name s4 v4 e4 in
      let v6 = pushed (object n) v5 in
      let e6 : view (lua.push_value (from_top 2) s5) ≡ v6 =
        see_push_value lua view law (from_top 2) s5 v5 (object n) e5 refl refl in
      let there : place tindex v6.stack ≡ object m =
        place-there (object n) v5.stack tindex (omega arith)
        ∙ place-there (text name) v4.stack tindex (omega arith)
        ∙ place-there (object n) v.stack tindex low
        ∙ here in
      let apart : m ≢ n = λ same. omega (arith, same) in
      let still_bare : v6.metatable m ≡ nil =
        update_at_ne n (object n) (update_at n nil v.metatable) m apart
        ∙ update_at_ne n nil v.metatable m apart
        ∙ bare in
      rw (see_is_nil lua view law nil s2 v e2) (
        see_set_table lua view law (absolute tindex) (lua.push_value (from_top 2) s5) v6 m e6 refl
          there (IsPlain-of_nil v6 m (update_at_ne n table v.kind m apart ∙ kind) still_bare))

  pushuserdata-made :
      (obj : ℕ) (s : lua.State) (v : View) (u : ℕ)
      → view s ≡ pushed (object u) v
      → v.kind u ≡ table
      → v.metatable u ≡ object u
      → v.raw u (text Key.index) ≡ nil
      → v.raw u (text Key.new_index) ≡ nil
      → u < v.next
      → v.raw u (light obj) ≡ nil
      → ((pushuserdata lua obj s).0 ≡ some v.next)
        × (view (pushuserdata lua obj s).1 ≡ housed obj u v)
  unfolding pushuserdata
  pushuserdata-made obj s v u e kind own no_index no_new_index old missing =
      let v0 = pushed (object u) v in
      let s1 = lua.push_light_userdata obj s in
      let e1 : view s1 ≡ pushed (light obj) v0 = see_push_light lua view law obj s v0 e in
      let s2 = lua.get_table (from_top 2) s1 in
      let e2 : view s2 ≡ pushed nil v0 =
        see_get_table lua view law (from_top 2) s1 (pushed (light obj) v0) u e1 refl refl
          (IsPlain-of_self (pushed (light obj) v0) u kind own no_index no_new_index)
        ∙ ap (λ x. pushed x v0) missing in
      let s3 = lua.check_stack 3 (lua.pop 1 s2) in
      let e3 : view s3 ≡ v0 =
        see_check_stack lua view law 3 (lua.pop 1 s2) v0 (see_pop lua view law nil s2 v0 e2) in
      let made = see_new_userdata lua view law s3 v0 e3 in
      let s4 = (lua.new_userdata s3).1 in
      let v4 = fresh_object userdata v0 in
      let s5 = lua.push_light_userdata obj s4 in
      let v5 = pushed (light obj) v4 in
      let e5 : view s5 ≡ v5 = see_push_light lua view law obj s4 v4 made.1 in
      let v6 = pushed (object v.next) v5 in
      let e6 : view (lua.push_value (from_top 2) s5) ≡ v6 =
        see_push_value lua view law (from_top 2) s5 v5 (object v.next) e5 refl refl in
      let apart : u ≢ v.next = λ same. omega (arith, same) in
      let rows : v6.raw u ≡ v.raw u = update_at_ne v.next (λ k. nil) v.raw u apart in
      rw (see_is_nil lua view law nil s2 v0 e2) (
        ap some made.0,
        see_set_table lua view law (from_top 4) (lua.push_value (from_top 2) s5) v6 u e6 refl refl (
            IsPlain-of_self v6 u (update_at_ne v.next userdata v.kind u apart ∙ kind)
              (update_at_ne v.next nil v.metatable u apart ∙ own)
              (ap (λ (r : Value → Value). r (text Key.index)) rows ∙ no_index)
              (ap (λ (r : Value → Value). r (text Key.new_index)) rows ∙ no_new_index)),
      )

  adopt-gc :
      (obj mt n m : ℕ) (s : lua.State) (v : View)
      → view s ≡ pushed (object n) v
      → mt ≤ length v.stack
      → place mt v.stack ≡ object m
      → v.kind n ≡ userdata
      → v.kind m ≡ table
      → view (adopt lua obj mt true n s) ≡ record (pushed (object n) v) {
        metatable = update_at n (object m) v.metatable;
        pointer = update_at n (some obj) v.pointer;
      }
  unfolding adopt
  adopt-gc obj mt n m s v e low here is_block kind =
      let s1 = lua.store_pointer n (some obj) s in
      let v1 : View = record (pushed (object n) v) { pointer = update_at n (some obj) v.pointer } in
      let e1 : view s1 ≡ v1 =
        see_store_pointer lua view law n (some obj) s (pushed (object n) v) e is_block in
      let e2 : view (lua.push_value (absolute mt) s1) ≡ pushed (object m) v1 =
        see_push_value lua view law (absolute mt) s1 v1 (object m) e1
          (place-there (object n) v.stack mt low ∙ here) refl in
      see_set_metatable lua view law (from_top 2) (lua.push_value (absolute mt) s1)
        (pushed (object m) v1) n m e2 refl (ap owns_metatable is_block) refl kind

  pub push_under-made :
      (obj : ℕ) (s : lua.State) (v : View) (m u : ℕ)
      → v.kind m ≡ table
      → m < v.next
      → view (subtable lua (suc (length v.stack)) Key.userdata (118 ∷ []) s)
        ≡ pushed (object u) (pushed (object m) v)
      → v.kind u ≡ table
      → v.metatable u ≡ object u
      → v.raw u (text Key.index) ≡ nil
      → v.raw u (text Key.new_index) ≡ nil
      → u < v.next
      → v.raw u (light obj) ≡ nil
      → view (push_under lua (suc (length v.stack)) obj true s) ≡ adopted obj m u v
  unfolding push_under
  push_under-made obj s v m u kind_m old_m e2 kind own no_index no_new_index old missing =
      let n = v.next in
      let mt = suc (length v.stack) in
      let v1 = pushed (object m) v in
      let s2 = subtable lua mt Key.userdata (118 ∷ []) s in
      let s3 = (pushuserdata lua obj s2).1 in
      let made = pushuserdata-made obj s2 v1 u e2 kind own no_index no_new_index old missing in
      let v3 : View = record (housed obj u v1) { stack = object u ∷ v1.stack } in
      let v4 : View = record (adopted obj m u v) { stack = v.stack } in
      let e4 : view (adopt lua obj mt true n s3)
          ≡ pushed (object n) (pushed (object u) (pushed (object m) v4)) =
        adopt-gc obj mt n m s3 v3 made.1 (omega arith)
          (place-there (object u) v1.stack mt (omega arith) ∙ place-here (object m) v.stack mt refl)
          (update_at_self n userdata v.kind)
          (update_at_ne n userdata v.kind m (λ same. omega (arith, same)) ∙ kind_m) in
      rw (made.0, push_under)
        (see_settle lua view law (object n) (object u) (object m) (adopt lua obj mt true n s3) v4
          e4)
