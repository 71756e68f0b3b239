-- ===== src/LuaWrapper/Register/Callable.antt =====
-- The part of Register that gives the table of methods its own metatable.
use socketforioswinandroid.Common.{
  ℕ, suc, ◌≤◌, ◌<◌, ◌≡◌, ◌≢◌, refl, ap, ◌∙◌, inl, inr, [], false, List, ◌∷◌, length, arith,
}
use socketforioswinandroid.LuaApi.{absolute, from_top, new_object, CFunction, LuaApi}
use socketforioswinandroid.LuaApi.Machine.{
  Value, Kind, closure, table, owns_metatable, nil, text, object, View, registry, global_table,
  same, place, pushed, update_at, IsLua,
}
use socketforioswinandroid.LuaWrapper.Key
use socketforioswinandroid.LuaWrapper.Sees.{
  put_self, place-there, update_at_self, update_at_ne, put_ne, put_other, IsPlain-of_nil,
  see_push_string, see_push_value, see_new_table, see_set_metatable,
}
use socketforioswinandroid.LuaWrapper.Register.{set}
use socketforioswinandroid.LuaWrapper.Register.Setting.{
  entered, see_set, see_set_low, see_push_closure,
}
use socketforioswinandroid.LuaWrapper.Register.Closures.{
  HasClosure, entered-HasClosure, minted-HasClosure,
}
use socketforioswinandroid.LuaWrapper.Register.Filling.{
  Filling, minted, minted-raw, minted-Filling, in_methods-Filling, IsPlain-of_methods,
  methods_place, stack_length,
}

module _ (class_name : List ℕ) (a m : ℕ) (base : List Value) where
  -- The state once the table of methods has its own metatable, whose "__call" makes an object.
  abbrev pub new_kind : Kind
  new_kind = closure new_object (text class_name ∷ [])

  abbrev pub callable : View → View
  callable v =
      let made = entered a Key.new (object (suc v.next)) (minted new_kind (minted table v)) in
      let called = entered v.next Key.call (object (suc v.next)) made in
      record called { metatable = update_at a (object v.next) called.metatable }

  meta_text :
      (index : Value) (v : View) (name : List ℕ)
      → Filling class_name a m base index v
      → same (text name) (text Key.call) ≡ false
      → (callable v).raw v.next (text name) ≡ nil
  meta_text index v name f other =
      let apart : v.next ≢ a = λ same. omega (arith, same, f.next_to, f.old) in
      let v2 = minted new_kind (minted table v) in
      put_other v.next (text Key.call) (object (suc v.next))
        (entered a Key.new (object (suc v.next)) v2).raw v.next (text name) other
      ∙ (put_ne a (text Key.new) (object (suc v.next)) v2.raw v.next (text name) apart
          ∙ (minted-raw new_kind (minted table v) v.next (text name) (omega arith)
              ∙ ap (λ (row : Value → Value). row (text name))
                  (update_at_self v.next (λ k. nil) v.raw)))

  pub callable-Filling :
      (index : Value) (v : View)
      → Filling class_name a m base index v
      → Filling class_name a m base index (callable v)
  callable-Filling index v f =
      let f2 =
        minted-Filling class_name a m base index (minted table v)
          (minted-Filling class_name a m base index v f table) new_kind in
      let v3 = entered a Key.new (object (suc v.next)) (minted new_kind (minted table v)) in
      let f3 =
        in_methods-Filling class_name a m base index (minted new_kind (minted table v)) f2 Key.new
          (object (suc v.next)) in
      let below : (t : ℕ) (k : Value) → t < v.next → (callable v).raw t k ≡ v3.raw t k = λ t k low.
        put_ne v.next (text Key.call) (object (suc v.next)) v3.raw t k
          (λ same. omega (arith, same)) in
      record {
        stack = f3.stack;
        registered =
            below registry (text class_name) (omega (arith, f.above, f.next_to, f.old))
            ∙ f3.registered;
        global =
            below global_table (text class_name) (omega (arith, f.above, f.next_to, f.old))
            ∙ f3.global;
        kind_methods = f3.kind_methods;
        kind_metatable = f3.kind_metatable;
        bare =
            update_at_ne a (object v.next) v3.metatable m (λ same. omega (arith, same, f.next_to))
            ∙ f3.bare;
        no_lookup = below m (text Key.userdata) f.old ∙ f3.no_lookup;
        found = below m (text Key.index) f.old ∙ f3.found;
        above = f3.above;
        next_to = f3.next_to;
        old = f3.old;
        meta = inr (record {
          meta = v.next;
          own = update_at_self a (object v.next) v3.metatable;
          young = f.old;
          old = omega arith;
          no_index = meta_text index v Key.index f refl;
          no_new_index = meta_text index v Key.new_index f refl;
        });
      }

  -- What it has.
  pub callable-HasClosure :
      (key : List ℕ) (f : CFunction) (upvalues : List Value) (v : View)
      → a < m
      → m < v.next
      → HasClosure m key f upvalues v
      → HasClosure m key f upvalues (callable v)
  callable-HasClosure key f upvalues v next_to old h =
      let x = object (suc v.next) in
      let v2 = minted new_kind (minted table v) in
      entered-HasClosure v.next Key.call x m key f upvalues (entered a Key.new x v2)
        (inl (λ same. omega (arith, same, old)))
        (entered-HasClosure a Key.new x m key f upvalues v2
          (inl (λ same. omega (arith, same, next_to)))
          (minted-HasClosure new_kind m key f upvalues (minted table v) (omega (arith, old))
            (minted-HasClosure table m key f upvalues v old h)))

  pub callable-raw : (k : Value) (v : View) → a < m → m < v.next → (callable v).raw m k ≡ v.raw m k
  callable-raw k v next_to old =
      let x = object (suc v.next) in
      let v2 = minted new_kind (minted table v) in
      put_ne v.next (text Key.call) x (entered a Key.new x v2).raw m k
        (λ same. omega (arith, same, old))
      ∙ put_ne a (text Key.new) x v2.raw m k (λ same. omega (arith, same, next_to))
      ∙ minted-raw new_kind (minted table v) m k (omega (arith, old))
      ∙ minted-raw table v m k old

  pub callable-call :
      (v : View) → HasClosure v.next Key.call new_object (text class_name ∷ []) (callable v)
  callable-call v = (
    suc v.next,
    omega arith,
    put_self v.next (text Key.call) (object (suc v.next))
        (entered a Key.new (object (suc v.next)) (minted new_kind (minted table v))).raw refl,
    update_at_self (suc v.next) new_kind (minted table v).kind,
  )

  pub callable-new :
      (v : View) → a < v.next → HasClosure a Key.new new_object (text class_name ∷ []) (callable v)
  callable-new v old = (
    suc v.next,
    omega arith,
    put_ne v.next (text Key.call) (object (suc v.next))
          (entered a Key.new (object (suc v.next)) (minted new_kind (minted table v))).raw a
          (text Key.new) (λ same. omega (arith, same, old))
        ∙ put_self a (text Key.new) (object (suc v.next)) (minted new_kind (minted table v)).raw
            refl,
    update_at_self (suc v.next) new_kind (minted table v).kind,
  )

module _ (lua : LuaApi) (view : lua.State → View) (law : IsLua lua view) (class_name : List ℕ)
    (a m : ℕ) (base : List Value) where
  pub callable-view :
      (index : Value) (s : lua.State) (v : View)
      → Filling class_name a m base index v
      → view s ≡ v
      → view (
          lua.set_metatable (absolute (suc (length base))) (
            set lua (from_top 3) Key.call (
              set lua (absolute (suc (length base))) Key.new (
                lua.push_value
                  (from_top 1)
                  (lua.push_closure new_object 1 (lua.push_string class_name (lua.new_table s)))))))
        ≡ callable class_name a m base v
  callable-view index s v f e =
      let i = suc (length base) in
      let mt = v.next in
      let kind = closure new_object (text class_name ∷ []) in
      let f1 = minted-Filling class_name a m base index v f table in
      let f2 = minted-Filling class_name a m base index (minted table v) f1 kind in
      let v1 = pushed (object mt) (minted table v) in
      let v2 = pushed (object mt) (minted kind (minted table v)) in
      let x = object (suc mt) in
      let s2 = lua.push_string class_name (lua.new_table s) in
      let e2 : view s2 ≡ pushed (text class_name) v1 =
        see_push_string lua view law class_name (lua.new_table s) v1
          (see_new_table lua view law s v e) in
      let s3 = lua.push_closure new_object 1 s2 in
      let e3 : view s3 ≡ pushed x v2 =
        see_push_closure lua view law new_object s2 v1 (text class_name) e2 in
      let s4 = lua.push_value (from_top 1) s3 in
      let e4 : view s4 ≡ pushed x (pushed x v2) =
        see_push_value lua view law (from_top 1) s3 (pushed x v2) x e3 refl refl in
      let low : i ≤ length v.stack = omega (arith, stack_length class_name a m base index v f) in
      let here : place i (object mt ∷ v.stack) ≡ object a =
        place-there (object mt) v.stack i low ∙ methods_place class_name a m base index v f in
      let plain = IsPlain-of_methods class_name a m base index (minted kind (minted table v)) f2 in
      let s5 = set lua (absolute i) Key.new s4 in
      let v5 = entered a Key.new x v2 in
      let e5 : view s5 ≡ pushed x v5 =
        see_set_low lua view law i Key.new s4 (pushed x v2) x a e4 (omega arith)
          (place-there x (object mt ∷ v.stack) i (omega arith) ∙ here)
          (record {
            is_table = plain.is_table;
            no_index = plain.no_index;
            no_new_index = plain.no_new_index;
          }) in
      let bare : v5.metatable mt ≡ nil =
        update_at_ne (suc mt) nil (minted table v).metatable mt (λ same. omega (arith, same))
        ∙ update_at_self mt nil v.metatable in
      let is_table : v5.kind mt ≡ table =
        update_at_ne (suc mt) kind (minted table v).kind mt (λ same. omega (arith, same))
        ∙ update_at_self mt table v.kind in
      let s6 = set lua (from_top 3) Key.call s5 in
      let e6 : view s6 ≡ entered mt Key.call x v5 =
        see_set lua view law (from_top 3) Key.call s5 v5 x mt e5 refl
          (IsPlain-of_nil v5 mt is_table bare) in
      see_set_metatable lua view law (absolute i) s6 (entered mt Key.call x v5) a mt e6 here
        (ap owns_metatable f2.kind_methods) refl is_table
