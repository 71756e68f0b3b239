-- ===== src/LuaWrapper/Collect.antt =====
-- LuaPlus::gc_T: an object is deleted once, and not at all while "do not trash" has an entry for
-- it.
use socketforioswinandroid.Common.{
  ℕ, ◌≤◌, ◌≡◌, refl, ap, ◌∙◌, ◌⊎◌, inl, inr, false, none, some, List, [], ◌∷◌, length, arith,
}
use socketforioswinandroid.LuaApi.{absolute, from_top, LuaApi}
use socketforioswinandroid.LuaApi.Machine.{
  Value, nil, userdata, owns_metatable, object, View, place, update_at, pushed, metamethod, IsPlain,
  IsLua, is_nil_value,
}
use socketforioswinandroid.LuaWrapper.Key
use socketforioswinandroid.LuaWrapper.Sees.{
  place-there, see_metafield, see_no_metafield, see_push_value, see_get_table, see_is_nil,
  see_store_pointer, update_at_self,
}
use socketforioswinandroid.LuaWrapper.{Class, delete_object, gc_t}

-- The metatable of the userdata has no table "do not trash", or the table has no entry for it.
abbrev pub IsTrash : ℕ → View → Type 0
IsTrash o v =
    (metamethod v o Key.do_not_trash ≡ nil)
    ⊎ ((d : ℕ) × (metamethod v o Key.do_not_trash ≡ object d)
        × IsPlain v d
        × (v.raw d (object o) ≡ nil))

-- The table has an entry for it.
abbrev pub IsKept : ℕ → View → Type 0
IsKept o v =
    (d : ℕ) × (metamethod v o Key.do_not_trash ≡ object d)
    × IsPlain v d
    × (is_nil_value (v.raw d (object o)) ≡ false)

place-bound : (i : ℕ) (st : List Value) (o : ℕ) → place i st ≡ object o → i ≤ length st
place-bound i [] o e = ground (arith, e)
place-bound i (x ∷ st) o e = ground (arith, e, place-bound i st o)

module _ (lua : LuaApi) (view : lua.State → View) (law : IsLua lua view) (class : Class) where
  delete_object-some :
      (s : lua.State) (w : class.World) (v : View) (o obj : ℕ)
      → view s ≡ v
      → place 1 v.stack ≡ object o
      → v.kind o ≡ userdata
      → v.pointer o ≡ some obj
      → ((delete_object lua class s w).1 ≡ class.destroy obj w)
        × (view (delete_object lua class s w).0 ≡ record v { pointer = update_at o none v.pointer })
  unfolding delete_object
  delete_object-some s w v o obj e here kind holds =
      let block : lua.to_userdata (absolute 1) s ≡ some o =
        law.to_userdata (absolute 1) s o (ap (λ (v : View). place 1 v.stack) e ∙ here)
          (ap (λ (v : View). v.kind o) e ∙ kind) in
      let read : lua.load_pointer o s ≡ some obj =
        law.load_pointer o s (ap (λ (v : View). v.kind o) e ∙ kind)
        ∙ ap (λ (v : View). v.pointer o) e
        ∙ holds in
      rw (block, read, delete_object) (refl, see_store_pointer lua view law o none s v e kind)

  delete_object-none :
      (s : lua.State) (w : class.World) (v : View) (o : ℕ)
      → view s ≡ v
      → place 1 v.stack ≡ object o
      → v.kind o ≡ userdata
      → v.pointer o ≡ none
      → delete_object lua class s w ≡ (s, w)
  unfolding delete_object
  delete_object-none s w v o e here kind holds =
      let block : lua.to_userdata (absolute 1) s ≡ some o =
        law.to_userdata (absolute 1) s o (ap (λ (v : View). place 1 v.stack) e ∙ here)
          (ap (λ (v : View). v.kind o) e ∙ kind) in
      let read : lua.load_pointer o s ≡ none =
        law.load_pointer o s (ap (λ (v : View). v.kind o) e ∙ kind)
        ∙ ap (λ (v : View). v.pointer o) e
        ∙ holds in
      rw (block, read, delete_object) refl

  -- gc_T on such a userdata goes on to delete the object, on a stack that has it lowest.
  gc_t-trash :
      (s : lua.State) (w : class.World) (v : View) (o : ℕ)
      → view s ≡ v
      → place 1 v.stack ≡ object o
      → v.kind o ≡ userdata
      → IsTrash o v
      → (s' : lua.State) × (st : List Value) × (view s' ≡ record v { stack = st })
        × (place 1 st ≡ object o)
        × (gc_t lua class s w ≡ delete_object lua class s' w)
  unfolding gc_t
  gc_t-trash s w v o e here kind (inl missing) =
      let s1 = (lua.get_metafield (absolute 1) Key.do_not_trash s).1 in
      let (found, e1) =
        see_no_metafield lua view law (absolute 1) Key.do_not_trash s v o e here
          (ap owns_metatable kind) missing in
      (s1, v.stack, e1, here, rw (found, gc_t) refl)
  gc_t-trash s w v o e here kind (inr (d, holder, plain, missing)) =
      let low = place-bound 1 v.stack o here in
      let s1 = (lua.get_metafield (absolute 1) Key.do_not_trash s).1 in
      let (found, e1) =
        see_metafield lua view law (absolute 1) Key.do_not_trash s v o d e here
          (ap owns_metatable kind) holder in
      let s2 = lua.push_value (absolute 1) s1 in
      let v1 = pushed (object d) v in
      let e2 : view s2 ≡ pushed (object o) v1 =
        see_push_value lua view law (absolute 1) s1 v1 (object o) e1
          (place-there (object d) v.stack 1 low ∙ here) refl in
      let s3 = lua.get_table (from_top 2) s2 in
      let e3 : view s3 ≡ pushed nil v1 =
        see_get_table lua view law (from_top 2) s2 (pushed (object o) v1) d e2 refl refl (record {
          is_table = plain.is_table;
          no_index = plain.no_index;
          no_new_index = plain.no_new_index;
        })
        ∙ ap (λ x. pushed x v1) missing in
      (
        s3,
        nil ∷ (object d ∷ v.stack),
        e3,
        place-there nil (object d ∷ v.stack) 1 (omega (arith, low))
            ∙ place-there (object d) v.stack 1 low
            ∙ here,
        rw (found, see_is_nil lua view law nil s3 v1 e3, gc_t) refl,
      )

  -- A userdata that holds an object and is not marked "do not trash": gc_T deletes the object, and
  -- the userdata holds none afterwards; nothing else of what the tables and the userdata hold is
  -- changed. When gc_T is called on it again, nothing is deleted.
  pub gc_t-once :
      (s : lua.State) (w : class.World) (o obj : ℕ)
      → place 1 (view s).stack ≡ object o
      → (view s).kind o ≡ userdata
      → (view s).pointer o ≡ some obj
      → IsTrash o (view s)
      → (s1 : lua.State) × (s2 : lua.State) × (gc_t lua class s w ≡ (s1, class.destroy obj w))
        × ((view s1).pointer ≡ update_at o none (view s).pointer)
        × ((view s1).raw ≡ (view s).raw)
        × ((view s1).metatable ≡ (view s).metatable)
        × (gc_t lua class s1 (class.destroy obj w) ≡ (s2, class.destroy obj w))
  gc_t-once s w o obj here kind holds trash =
      let v = view s in
      let (s', st, e', here', code) = gc_t-trash s w v o refl here kind trash in
      let v' : View = record v { stack = st } in
      let (deleted, e1) = delete_object-some s' w v' o obj e' here' kind holds in
      let s1 = (delete_object lua class s' w).0 in
      let v1 : View = record v' { pointer = update_at o none v.pointer } in
      let trash1 : IsTrash o v1 = elim trash [
        | inl missing ↦ inl missing
        | inr (d, holder, plain, missing) ↦ inr (
          d,
          holder,
          record {
            is_table = plain.is_table;
            no_index = plain.no_index;
            no_new_index = plain.no_new_index;
          },
          missing,
        )
      ] in
      let (s'', st'', e'', here'', code'') =
        gc_t-trash s1 (class.destroy obj w) v1 o e1 here' kind trash1 in
      let kept =
        delete_object-none s'' (class.destroy obj w) (record v1 { stack = st'' }) o e'' here'' kind
          (update_at_self o none v.pointer) in
      (
        s1,
        s'',
        code ∙ ap (λ w. (s1, w)) deleted,
        ap (λ (v : View). v.pointer) e1,
        ap (λ (v : View). v.raw) e1,
        ap (λ (v : View). v.metatable) e1,
        code'' ∙ kept,
      )

  -- A userdata that is marked "do not trash": gc_T deletes nothing, and changes nothing of what the
  -- tables and the userdata hold.
  pub gc_t-kept :
      (s : lua.State) (w : class.World) (o : ℕ)
      → place 1 (view s).stack ≡ object o
      → (view s).kind o ≡ userdata
      → IsKept o (view s)
      → (s1 : lua.State) × (st : List Value) × (gc_t lua class s w ≡ (s1, w))
        × (view s1 ≡ record (view s) { stack = st })
  unfolding gc_t
  gc_t-kept s w o here kind (d, holder, plain, marked) =
      let v = view s in
      let low = place-bound 1 v.stack o here in
      let s1 = (lua.get_metafield (absolute 1) Key.do_not_trash s).1 in
      let (found, e1) =
        see_metafield lua view law (absolute 1) Key.do_not_trash s v o d refl here
          (ap owns_metatable kind) holder in
      let s2 = lua.push_value (absolute 1) s1 in
      let v1 = pushed (object d) v in
      let e2 : view s2 ≡ pushed (object o) v1 =
        see_push_value lua view law (absolute 1) s1 v1 (object o) e1
          (place-there (object d) v.stack 1 low ∙ here) refl in
      let s3 = lua.get_table (from_top 2) s2 in
      let x = v.raw d (object o) in
      let e3 : view s3 ≡ pushed x v1 =
        see_get_table lua view law (from_top 2) s2 (pushed (object o) v1) d e2 refl refl (record {
          is_table = plain.is_table;
          no_index = plain.no_index;
          no_new_index = plain.no_new_index;
        }) in
      (
        s3,
        x ∷ (object d ∷ v.stack),
        rw (found, see_is_nil lua view law x s3 v1 e3 ∙ marked, gc_t) refl,
        e3,
      )
