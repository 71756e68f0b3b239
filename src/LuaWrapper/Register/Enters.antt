-- ===== src/LuaWrapper/Register/Enters.antt =====
-- A class that is registered in a Lua state that does not know it.
use socketforioswinandroid.Common.{
  [], ℕ, suc, ◌<◌, ◌≡◌, refl, ap, ◌∙◌, true, none, some, inl, List, ◌∷◌, length, arith,
}
use socketforioswinandroid.LuaApi.{absolute, globals, thunk, new_object, collect, to_string, LuaApi}
use socketforioswinandroid.LuaApi.Machine.{
  Value, table, light, nil, text, object, View, registry, global_table, pushed, IsLua,
}
use socketforioswinandroid.LuaWrapper.Key
use socketforioswinandroid.LuaWrapper.{Class, push}
use socketforioswinandroid.LuaWrapper.Sees.{
  place-here, place-there, update_at_self, update_at_ne, put_ne, put_self, IsPlain-of_nil,
  see_push_value, see_new_table,
}
use socketforioswinandroid.LuaWrapper.Known.{IsRegistered}
use socketforioswinandroid.LuaWrapper.Identity.{push_twice}
use socketforioswinandroid.LuaWrapper.Register.{set, fill, register, enter, register_named}
use socketforioswinandroid.LuaWrapper.Register.Setting.{entered, see_set, see_new_metatable}
use socketforioswinandroid.LuaWrapper.Register.Filling.{Filling, minted, minted-raw}
use socketforioswinandroid.LuaWrapper.Register.Closures.{HasClosure, method_of, same_text_self}
use socketforioswinandroid.LuaWrapper.Register.Tables.{Complete, fill-Complete}

-- The class is known: its metatable is in the registry and leads to the table of methods, which is
-- also in the globals. Its "__gc" is gc_T and its "__tostring" tostring_T; the table of methods is
-- called as new_T, which is also its "new" unless the class has a method of that name; and every
-- function of the class is in the table of methods as thunk with the class's name and its entry.
pub record Registered (class_name : List ℕ) (functions : List (ℕ × List ℕ)) (v v' : View)
    : Type 0 where
  pub methods : ℕ
  pub metatable : ℕ
  pub stack : v'.stack ≡ v.stack
  pub registered : IsRegistered class_name metatable v'
  pub no_lookup : v'.raw metatable (text Key.userdata) ≡ nil
  pub index : v'.raw metatable (text Key.index) ≡ object methods
  pub global : v'.raw global_table (text class_name) ≡ object methods
  pub methods_kind : v'.kind methods ≡ table
  pub named : v'.raw metatable (text Key.metatable) ≡ object methods
  pub collected : HasClosure metatable Key.gc collect [] v'
  pub printed : HasClosure metatable Key.to_string to_string (text class_name ∷ []) v'
  pub called :
      (t : ℕ) × (v'.metatable methods ≡ object t)
      × HasClosure t Key.call new_object (text class_name ∷ []) v'
  pub construct :
      method_of Key.new functions ≡ none
      → HasClosure methods Key.new new_object (text class_name ∷ []) v'
  pub entries :
      (name : List ℕ) (entry : ℕ)
      → method_of name functions ≡ some entry
      → HasClosure methods name thunk (text class_name ∷ light entry ∷ []) v'

-- Two new tables, entered in the registry and in the globals.
abbrev opened : List ℕ → View → View
opened class_name v = pushed (object (suc v.next)) (
    pushed (object v.next) (
      entered global_table class_name (object v.next)
        (entered registry class_name (object (suc v.next)) (minted table (minted table v)))))

opened-Filling :
    (class_name : List ℕ) (v : View)
    → global_table < v.next
    → Filling class_name v.next (suc v.next) v.stack nil (opened class_name v)
opened-Filling class_name v old =
    let a = v.next in
    let m = suc v.next in
    let v2 = minted table (minted table v) in
    let v3 = entered registry class_name (object m) v2 in
    let empty : (key : List ℕ) → (opened class_name v).raw m (text key) ≡ nil = λ key.
      put_ne global_table (text class_name) (object a) v3.raw m (text key)
        (λ same. omega (arith, same, old))
      ∙ (put_ne registry (text class_name) (object m) v2.raw m (text key)
            (λ same. omega (arith, same))
          ∙ ap (λ (row : Value → Value). row (text key))
              (update_at_self m (λ k. nil) (minted table v).raw)) in
    record {
      stack = refl;
      registered =
          put_ne global_table (text class_name) (object a) v3.raw registry (text class_name)
            (λ same. omega (arith, same))
          ∙ put_self registry (text class_name) (object m) v2.raw (same_text_self class_name);
      global =
          put_self global_table (text class_name) (object a) v3.raw (same_text_self class_name);
      kind_methods =
          update_at_ne m table (minted table v).kind a (λ same. omega (arith, same))
          ∙ update_at_self a table v.kind;
      kind_metatable = update_at_self m table (minted table v).kind;
      bare = update_at_self m nil (minted table v).metatable;
      no_lookup = empty Key.userdata;
      found = empty Key.index;
      above = old;
      next_to = omega arith;
      old = omega arith;
      meta = inl (
          update_at_ne m nil (minted table v).metatable a (λ same. omega (arith, same))
          ∙ update_at_self a nil v.metatable);
    }

module _ (lua : LuaApi) (view : lua.State → View) (law : IsLua lua view) (class : Class) where
  register_known :
      (s : lua.State) (v : View)
      → view s ≡ v
      → v.kind global_table ≡ table
      → v.metatable global_table ≡ nil
      → global_table < v.next
      → v.raw registry (text class.class_name) ≡ nil
      → Registered class.class_name class.functions v (view (register lua class s))
  unfolding register
  register_known s v e kind bare old free =
      let name = class.class_name in
      let a = v.next in
      let m = suc v.next in
      let n = length v.stack in
      let s1 = lua.new_table s in
      let v1 = pushed (object a) (minted table v) in
      let e1 : view s1 ≡ v1 = see_new_table lua view law s v e in
      let top1 : lua.get_top s1 ≡ suc n = law.get_top s1 ∙ ap (λ (v : View). length v.stack) e1 in
      let s2 = lua.new_metatable name s1 in
      let v2 = entered registry name (object m) (minted table (minted table v)) in
      let e2 : view s2 ≡ pushed (object m) (pushed (object a) v2) =
        see_new_metatable lua view law name s1 v1 e1
          (minted-raw table v registry (text name) (omega (arith, old)) ∙ free) in
      let top2 : lua.get_top s2 ≡ suc (suc n) =
        law.get_top s2 ∙ ap (λ (v : View). length v.stack) e2 in
      let s3 = lua.push_value (absolute (suc n)) s2 in
      let e3 : view s3 ≡ pushed (object a) (pushed (object m) (pushed (object a) v2)) =
        see_push_value lua view law (absolute (suc n)) s2 (pushed (object m) (pushed (object a) v2))
          (object a) e2
          (place-there (object m) (object a ∷ v.stack) (suc n) (omega arith)
            ∙ place-here (object a) v.stack (suc n) refl)
          refl in
      let bare2 : v2.metatable global_table ≡ nil =
        update_at_ne m nil (minted table v).metatable global_table
          (λ same. omega (arith, same, old))
        ∙ (update_at_ne a nil v.metatable global_table (λ same. omega (arith, same, old)) ∙ bare) in
      let kind2 : v2.kind global_table ≡ table =
        update_at_ne m table (minted table v).kind global_table (λ same. omega (arith, same, old))
        ∙ (update_at_ne a table v.kind global_table (λ same. omega (arith, same, old)) ∙ kind) in
      let s4 = set lua globals name s3 in
      let e4 : view s4 ≡ opened name v =
        see_set lua view law globals name s3 (pushed (object m) (pushed (object a) v2)) (object a)
          global_table e3 refl
          (IsPlain-of_nil (pushed (object m) (pushed (object a) v2)) global_table kind2 bare2) in
      let (v', e', all) =
        fill-Complete lua view law name a m v.stack class s4 (opened name v)
          (opened-Filling name v old) e4 in
      let tops : view (register lua class s) ≡ view (fill lua class (suc n) (suc (suc n)) name s4) =
        ap
          (λ i. view (
            fill lua class i (lua.get_top s2) name
              (set lua globals name (lua.push_value (absolute i) s2))))
          top1
        ∙ ap (λ j. view (fill lua class (suc n) j name s4)) top2 in
      known s v v' (tops ∙ e') all
    where
      known :
          (s : lua.State) (v v' : View)
          → view (register lua class s) ≡ record v' { stack = v.stack }
          → Complete lua view law class.class_name v.next (suc v.next) v.stack class v'
          → Registered class.class_name class.functions v (view (register lua class s))
      known s v v' e all =
          let f = all.filling in
          rw e (record {
            methods = v.next;
            metatable = suc v.next;
            stack = refl;
            registered = record {
              registered = f.registered;
              kind = f.kind_metatable;
              bare = f.bare;
              apart = λ same. omega (arith, same);
              old = f.old;
            };
            no_lookup = f.no_lookup;
            index = f.found;
            global = f.global;
            methods_kind = f.kind_methods;
            named = all.collected.0.0;
            collected = all.collected.1;
            printed = all.collected.0.1;
            called = all.called;
            construct = all.construct;
            entries = all.entries;
          })

  -- In a Lua state with a table of globals that has no metatable, and without the class: Register
  -- leaves the stack as it is. It makes a metatable, which the registry has under the name of the
  -- class, as push asks for it; the "__index" of the metatable is a table of methods, which is also
  -- the global of that name, and the "__metatable". The "__gc" of the metatable is gc_T, and its
  -- "__tostring" is tostring_T with the name of the class. The table of methods has at each name of
  -- the list of functions thunk, with the name of the class and the last entry of that name; a call
  -- of the table itself is new_T with the name of the class, and so is "new" if no function has
  -- that name. No object has been entered. RegisteSocketClassL with that name and without a parent
  -- table does the same.
  pub register-Registered :
      (s : lua.State) (v : View)
      → view s ≡ v
      → v.kind global_table ≡ table
      → v.metatable global_table ≡ nil
      → global_table < v.next
      → v.raw registry (text class.class_name) ≡ nil
      → Registered class.class_name class.functions v (view (register lua class s))
        × (register_named lua class class.class_name none s ≡ register lua class s)
  unfolding register register_named enter
  register-Registered s v e kind bare old free = (register_known s v e kind bare old free, refl)

  -- A class that is registered in such a Lua state: an object of it that is pushed after that, and
  -- is pushed again, is one userdata, which holds the object's address and has the metatable that
  -- the registry has for the class.
  pub push_twice-register :
      (obj : ℕ) (s : lua.State)
      → (view s).kind global_table ≡ table
      → (view s).metatable global_table ≡ nil
      → global_table < (view s).next
      → (view s).raw registry (text class.class_name) ≡ nil
      → (w : ℕ) × (m : ℕ) × (s1 : lua.State) × (s2 : lua.State) × (push lua obj true
            class.class_name
            (register lua class s)
          ≡ some (suc (length (view s).stack), s1))
        × ((view s1).stack ≡ object w ∷ (view s).stack)
        × ((view s1).pointer w ≡ some obj)
        × ((view s1).metatable w ≡ object m)
        × ((view (register lua class s)).raw registry (text class.class_name) ≡ object m)
        × (push lua obj true class.class_name s1 ≡ some (suc (length (view s1).stack), s2))
        × (view s2 ≡ pushed (object w) (view s1))
  push_twice-register obj s kind bare old free =
      let r = register_known s (view s) refl kind bare old free in
      let (w, s1, s2, first, stack, block, owner, again, same_one) =
        push_twice lua view law class.class_name obj r.metatable (register lua class s) r.registered
          (inl r.no_lookup) in
      (
        w,
        r.metatable,
        s1,
        s2,
        first ∙ ap (λ st. some (suc (length st), s1)) r.stack,
        stack ∙ ap (λ st. object w ∷ st) r.stack,
        block,
        owner,
        r.registered.registered,
        again,
        same_one,
      )
