-- ===== src/LuaWrapper/Identity.antt =====
-- An object that is pushed again is the same userdata.
use socketforioswinandroid.Common.{
  ◌<◌, ℕ, suc, ◌≡◌, refl, ap, ◌∙◌, inl, inr, true, false, some, List, [], ◌∷◌, length, arith,
}
use socketforioswinandroid.LuaApi.{LuaApi}
use socketforioswinandroid.LuaApi.Machine.{text, light, object, View, same, pushed, IsLua}
use socketforioswinandroid.LuaWrapper.Key
use socketforioswinandroid.LuaWrapper.Sees.{place-here, IsPlain-of_self}
use socketforioswinandroid.LuaWrapper.Push.{subtable-found, push_under-found, push-registered}
use socketforioswinandroid.LuaWrapper.Make.{subtable-made, push_under-made, adopted}
use socketforioswinandroid.LuaWrapper.{subtable, push_under, push}
use socketforioswinandroid.LuaWrapper.Known.{
  IsRegistered, IsNew, IsKnown, prepared, prepared-next, prepared-text, prepared-IsRegistered,
  prepared-HasLookup, adopted-text, adopted-kind, prepared-kind, adopted-IsKnown,
}

module _ (lua : LuaApi) (view : lua.State → View) (law : IsLua lua view) where
  -- A class that is registered, and an object that has its entry: push leaves the userdata of the
  -- entry on the stack, gives its place, and makes nothing.
  pub push-known :
      (class_name : List ℕ) (obj m w : ℕ) (s : lua.State) (v : View)
      → view s ≡ v
      → IsKnown class_name obj m w v
      → (s' : lua.State) × (push lua obj true class_name s ≡ some (suc (length v.stack), s'))
        × (view s' ≡ pushed (object w) v)
  push-known class_name obj m w s v e known =
      let r = known.is_registered in
      let l = known.has_lookup in
      let (s1, e1, code) = push-registered lua view law obj class_name s v m e r.registered in
      (
        push_under lua (suc (length v.stack)) obj true s1,
        code,
        push_under-found lua view law obj s1 v m known.table w e1 r.kind r.bare l.lookup
            (IsPlain-of_self v known.table l.kind l.own l.no_index l.no_new_index) known.entry,
      )

  -- A class that is registered and an object that has no userdata: push makes one.
  pub push-new :
      (class_name : List ℕ) (obj m : ℕ) (s : lua.State) (v : View)
      → view s ≡ v
      → IsRegistered class_name m v
      → IsNew obj m v
      → (s' : lua.State) × (push lua obj true class_name s ≡ some (suc (length v.stack), s'))
        × (w : ℕ) × (v' : View) × (view s' ≡ v')
        × (v'.stack ≡ object w ∷ v.stack)
        × IsKnown class_name obj m w v'
        × ((name : List ℕ)
            → same (text name) (text Key.userdata) ≡ false
            → v'.raw m (text name) ≡ v.raw m (text name))
        × ((t : ℕ) → t < v.next → v'.kind t ≡ v.kind t)
  push-new class_name obj m s v e r (inl missing) =
      let (s1, e1, code) = push-registered lua view law obj class_name s v m e r.registered in
      let mt = suc (length v.stack) in
      let p = prepared m v in
      let l = prepared-HasLookup class_name m v r in
      let made : view (subtable lua mt Key.userdata (118 ∷ []) s1)
          ≡ pushed (object v.next) (pushed (object m) p) =
        subtable-made lua view law mt Key.userdata (118 ∷ []) s1 (pushed (object m) v) m e1
          (omega arith) (place-here (object m) v.stack mt refl) r.kind r.bare r.old missing in
      (
        push_under lua mt obj true s1,
        code,
        p.next,
        adopted obj m v.next p,
        push_under-made lua view law obj s1 p m v.next (prepared-kind m m v r.old ∙ r.kind)
            (omega (arith, r.old)) made l.kind l.own l.no_index l.no_new_index l.old
            (prepared-next class_name m v r (light obj) refl),
        refl,
        adopted-IsKnown class_name obj m v.next p (prepared-IsRegistered class_name m v r) l,
        (λ name other.
            adopted-text obj m v.next m name p (omega (arith, r.old))
            ∙ prepared-text class_name m v r name other),
        (λ t old. adopted-kind obj m v.next t p (omega (arith, old)) ∙ prepared-kind m t v old),
      )
  push-new class_name obj m s v e r (inr (u, l, missing)) =
      let (s1, e1, code) = push-registered lua view law obj class_name s v m e r.registered in
      let mt = suc (length v.stack) in
      (
        push_under lua mt obj true s1,
        code,
        v.next,
        adopted obj m u v,
        push_under-made lua view law obj s1 v m u r.kind r.old
            (subtable-found lua view law mt Key.userdata (118 ∷ []) s1 (pushed (object m) v) m u e1
              (omega arith) (place-here (object m) v.stack mt refl) r.kind r.bare l.lookup)
            l.kind l.own l.no_index l.no_new_index l.old missing,
        refl,
        adopted-IsKnown class_name obj m u v r l,
        (λ name other. adopted-text obj m u m name v r.old),
        (λ t old. adopted-kind obj m u t v old),
      )

  -- A class that is registered and an object that has no userdata yet: push makes one, which holds
  -- the object's address and has the metatable of the class, leaves it on the stack and gives its
  -- place. When the object is then pushed again, it is the same userdata that comes onto the stack,
  -- and nothing else is changed.
  pub push_twice :
      (class_name : List ℕ) (obj m : ℕ) (s : lua.State)
      → IsRegistered class_name m (view s)
      → IsNew obj m (view s)
      → (w : ℕ) × (s1 : lua.State) × (s2 : lua.State) × (push lua obj true class_name s
          ≡ some (suc (length (view s).stack), s1))
        × ((view s1).stack ≡ object w ∷ (view s).stack)
        × ((view s1).pointer w ≡ some obj)
        × ((view s1).metatable w ≡ object m)
        × (push lua obj true class_name s1 ≡ some (suc (length (view s1).stack), s2))
        × (view s2 ≡ pushed (object w) (view s1))
  push_twice class_name obj m s r new =
      let (s1, code, w, v1, e1, stack, known, _, _) =
        push-new class_name obj m s (view s) refl r new in
      let known' : IsKnown class_name obj m w (view s1) = rw e1 known in
      let (s2, code2, e2) = push-known class_name obj m w s1 (view s1) refl known' in
      (w, s1, s2, code, ap (λ v. v.stack) e1 ∙ stack, known'.block, known'.class_table, code2, e2)
