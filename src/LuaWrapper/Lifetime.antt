-- ===== src/LuaWrapper/Lifetime.antt =====
-- An object from LuaPlus::push to LuaPlus::gc_T.
use socketforioswinandroid.Common.{
  ◌<◌, ℕ, suc, ◌≡◌, refl, ap, ◌∙◌, inl, true, some, [], ◌∷◌, length,
}
use socketforioswinandroid.LuaApi.{LuaApi, collect}
use socketforioswinandroid.LuaApi.Machine.{
  closure, nil, text, object, View, place, metamethod, IsLua,
}
use socketforioswinandroid.LuaWrapper.Key
use socketforioswinandroid.LuaWrapper.{Class, push, gc_t}
use socketforioswinandroid.LuaWrapper.Known.{IsRegistered, IsNew}
use socketforioswinandroid.LuaWrapper.Identity.{push-new}
use socketforioswinandroid.LuaWrapper.Collect.{gc_t-once}

-- `frame s o` is the state in which Lua calls "__gc" for the userdata `o`: the userdata alone is on
-- the stack, and the tables and the userdata are as in `s`.
abbrev pub IsFrame : (lua : LuaApi) → (lua.State → View) → (lua.State → ℕ → lua.State) → Type 0
IsFrame lua view frame =
    (s : lua.State) (o : ℕ) → view (frame s o) ≡ record (view s) { stack = object o ∷ [] }

module _ (lua : LuaApi) (view : lua.State → View) (law : IsLua lua view)
    (frame : lua.State → ℕ → lua.State) (frames : IsFrame lua view frame) (class : Class) where
  -- A class that is registered, whose metatable has gc_T as "__gc" and no "do not trash", and an
  -- object that has no userdata yet: push makes a userdata, whose "__gc" is gc_T, and when Lua
  -- calls that for the userdata it deletes that object. If gc_T is called on the userdata again
  -- nothing more is deleted.
  pub gc_t-push :
      (obj m g : ℕ) (s : lua.State) (w : class.World)
      → IsRegistered class.class_name m (view s)
      → IsNew obj m (view s)
      → (view s).raw m (text Key.do_not_trash) ≡ nil
      → (view s).raw m (text Key.gc) ≡ object g
      → g < (view s).next
      → (view s).kind g ≡ closure collect []
      → (o : ℕ) × (s1 : lua.State) × (s2 : lua.State) × (s3 : lua.State) × (push lua obj true
            class.class_name s
          ≡ some (suc (length (view s).stack), s1))
        × ((view s1).stack ≡ object o ∷ (view s).stack)
        × (metamethod (view s1) o Key.gc ≡ object g)
        × ((view s1).kind g ≡ closure collect [])
        × (gc_t lua class (frame s1 o) w ≡ (s2, class.destroy obj w))
        × (gc_t lua class s2 (class.destroy obj w) ≡ (s3, class.destroy obj w))
  gc_t-push obj m g s w r new trash has_gc old function =
      let (s1, code, o, v1, e1, stack, known, keeps, kinds) =
        push-new lua view law class.class_name obj m s (view s) refl r new in
      let framed : view (frame s1 o) ≡ record v1 { stack = object o ∷ [] } =
        frames s1 o ∙ ap (λ (v : View). record v { stack = object o ∷ [] }) e1 in
      let no_mark : metamethod v1 o Key.do_not_trash ≡ nil =
        rw (known.class_table, metamethod) (keeps Key.do_not_trash refl ∙ trash) in
      let collected : metamethod v1 o Key.gc ≡ object g =
        rw (known.class_table, metamethod) (keeps Key.gc refl ∙ has_gc) in
      let (s2, s3, first, _, _, _, again) =
        gc_t-once lua view law class (frame s1 o) w o obj
          (ap (λ (v : View). place 1 v.stack) framed)
          (ap (λ (v : View). v.kind o) framed ∙ known.kind)
          (ap (λ (v : View). v.pointer o) framed ∙ known.block)
          (inl (ap (λ (v : View). metamethod v o Key.do_not_trash) framed ∙ no_mark)) in
      (
        o,
        s1,
        s2,
        s3,
        code,
        ap (λ (v : View). v.stack) e1 ∙ stack,
        ap (λ (v : View). metamethod v o Key.gc) e1 ∙ collected,
        ap (λ (v : View). v.kind g) e1 ∙ kinds g old ∙ function,
        first,
        again,
      )
