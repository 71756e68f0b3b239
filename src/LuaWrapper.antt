-- ===== src/LuaWrapper.antt =====
-- LuaPlus of LuaWrapper.h: objects of C++ as userdata in Lua. One userdata stands for one object; a
-- weak table, kept in the metatable of the class, finds it. What a closure has in its upvalues is
-- an argument here.
pub mod Key
pub mod Message
pub mod Sees
pub mod Register
pub mod Push
pub mod Make
pub mod Collect
pub mod Known
pub mod Identity
pub mod Lifetime
use socketforioswinandroid.Common.{
  ℕ, zero, suc, ◌+◌, ◌-◌, Bool, true, false, Option, none, some, List, [], ◌∷◌, ◌++◌, ltb, ◌==◌,
  if◌then◌else◌, ℤ, pos, negsuc, int_eq,
}
use socketforioswinandroid.LuaApi.{
  Index, absolute, from_top, globals, CFunction, thunk, new_object, collect, to_string, LuaApi,
  ◌|>◌,
}
use socketforioswinandroid.LuaWrapper.Key
use socketforioswinandroid.LuaWrapper.Message

-- A class behind the wrapper: its constructor, which is given a name and returns the address of the
-- new object, its destructor, and its table of methods: the address and the name of each entry.
pub record Class : Type 1 where
  pub World : Type 0
  pub class_name : List ℕ
  pub functions : List (ℕ × List ℕ)
  pub construct : List ℕ → World → ℕ × World
  pub destroy : ℕ → World → World

module _ (lua : LuaApi) where
  -- LuaPlus::weaktable
  unfoldable pub weaktable : List ℕ → lua.State → lua.State
  weaktable mode s =
      s
      |> lua.new_table
      |> lua.push_value (from_top 1)
      |> lua.set_metatable (from_top 2)
      |> lua.push_string Key.mode
      |> lua.push_string mode
      |> lua.set_table (from_top 3)

  -- LuaPlus::subtable
  unfoldable pub subtable : ℕ → List ℕ → List ℕ → lua.State → lua.State
  unfolding weaktable
  subtable tindex name mode s =
      let s = s |> lua.push_string name |> lua.get_table (absolute tindex) in
      if lua.is_nil (from_top 1) s
      then (s
          |> lua.pop 1
          |> lua.check_stack 3
          |> weaktable mode
          |> lua.push_string name
          |> lua.push_value (from_top 2)
          |> lua.set_table (absolute tindex))
      else s

  -- LuaPlus::pushuserdata. Its value is the block of a new userdata, and null if one was found.
  unfoldable pub pushuserdata : ℕ → lua.State → Option ℕ × lua.State
  pushuserdata key s =
      let s = s |> lua.push_light_userdata key |> lua.get_table (from_top 2) in
      if lua.is_nil (from_top 1) s
      then (let (ud, s) = s |> lua.pop 1 |> lua.check_stack 3 |> lua.new_userdata in
          (
            some ud,
            s
                |> lua.push_light_userdata key
                |> lua.push_value (from_top 2)
                |> lua.set_table (from_top 4),
          ))
      else (none, s)

  -- What LuaPlus::push does with a new userdata.
  unfoldable pub adopt : ℕ → ℕ → Bool → ℕ → lua.State → lua.State
  unfolding subtable
  adopt obj mt gc ud s =
      let s =
        s
        |> lua.store_pointer ud (some obj)
        |> lua.push_value (absolute mt)
        |> lua.set_metatable (from_top 2) in
      if gc
      then s
      else (s
          |> lua.check_stack 3
          |> subtable mt Key.do_not_trash (107 ∷ [])
          |> lua.push_value (from_top 2)
          |> lua.push_boolean true
          |> lua.set_table (from_top 3)
          |> lua.pop 1)

  -- The part of LuaPlus::push behind the lookup of the metatable, which is at `mt`.
  unfoldable pub push_under : ℕ → ℕ → Bool → lua.State → lua.State
  unfolding subtable pushuserdata adopt
  push_under mt obj gc s =
      let (ud, s) = pushuserdata obj (subtable mt Key.userdata (118 ∷ []) s) in
      let s : lua.State = elim ud [ none ↦ s | some block ↦ adopt obj mt gc block s ] in
      lua.set_top mt (lua.replace (absolute mt) s)

  -- LuaPlus::push of an object, behind the test of the null pointer.
  unfoldable pub push : ℕ → Bool → List ℕ → lua.State → Option (ℕ × lua.State)
  unfolding push_under
  push obj gc class_name s =
      let s = lua.get_metatable class_name s in
      if lua.is_nil (from_top 1) s
      then none
      else some (lua.get_top s, push_under (lua.get_top s) obj gc s)

  unfoldable pub push_pointer : Option ℕ → Bool → List ℕ → lua.State → Option (ℕ × lua.State)
  unfolding push
  push_pointer none gc class_name s = some (0, lua.push_nil s)
  push_pointer (some obj) gc class_name s = push obj gc class_name s

  -- LuaPlus::check. luaL_checkudata raises the error itself.
  unfoldable pub check : Index → List ℕ → lua.State → Option (Option ℕ)
  check narg class_name s = elim (lua.check_userdata narg class_name s) [
    | none ↦ none
    | some ud ↦ some (lua.load_pointer ud s)
  ]

  -- LuaPlus::thunk up to the call: the object, and the stack with the arguments alone.
  unfoldable pub receiver : List ℕ → lua.State → Option (Option ℕ × lua.State)
  unfolding check
  receiver class_name s = elim (check (absolute 1) class_name s) [
    | none ↦ none
    | some obj ↦ some (obj, lua.remove (absolute 1) s)
  ]

  -- LuaPlus::hasfunction
  unfoldable pub hasfunction : List ℕ → List ℕ → lua.State → Option (Bool × lua.State)
  hasfunction method class_name s =
      let base = lua.get_top s in
      elim (lua.check_userdata (absolute base) class_name s) [
        | none ↦ none
        | some ud ↦
            let s = s |> lua.push_string method |> lua.get_table (absolute base) in
            some (if lua.is_nil (from_top 1) s then false else true, lua.pop 1 s)
      ]

  -- LuaPlus::call, on a stack with a userdata below the arguments. `number` is an integer as %d
  -- prints it. -1 stands for an error, and otherwise the value is the number of results.
  unfoldable pub call :
      (number : ℤ → List ℕ) → List ℕ → List ℕ → ℕ → ℤ → ℤ → lua.State → Option (ℤ × lua.State)
  call number method class_name nargs nresults errfunc s =
      let base = lua.get_top s - nargs in
      elim (lua.check_userdata (absolute base) class_name s) [
        | none ↦ none
        | some ud ↦
            let s = s |> lua.push_string method |> lua.get_table (absolute base) in
            if lua.is_nil (from_top 1) s
            then some (
              negsuc 0,
              s
                  |> lua.set_top (base - 1)
                  |> lua.push_string (Message.missing_method class_name method),
            )
            else (let (status, s) =
                  s
                  |> lua.insert (absolute base)
                  |> lua.protected_call (1 + nargs) nresults errfunc in
                if int_eq status (pos 0)
                then some (pos (lua.get_top s + 1 - base), s)
                else (let msg : List ℕ = elim (lua.to_text (from_top 1) s) [
                  | none ↦ Message.no_message
                  | some text ↦ text
                ] in
                    some (
                      negsuc 0,
                      s
                          |> lua.push_string
                              (Message.failed_call class_name method (number status) msg)
                          |> lua.remove (absolute base),
                    )))
      ]

  -- LuaPlus::tostring_T, whose userdata is not tested for null; `none` stands for that fault.
  -- `shown` is the text of the pointer as `%p` prints it.
  unfoldable pub tostring_t : (Option ℕ → List ℕ) → List ℕ → lua.State → Option lua.State
  tostring_t shown class_name s = elim (lua.to_userdata (absolute 1) s) [
    | none ↦ none
    | some ud ↦ some (
        lua.push_string
          (class_name ++ (32 ∷ 40 ∷ [] ++ (shown (lua.load_pointer ud s) ++ (41 ∷ [])))) s)
  ]

  module _ (class : Class) where
    -- LuaPlus::new_T. It raises an error if the class has no metatable; the object is then lost.
    unfoldable pub new_t : List ℕ → lua.State → class.World → Option (lua.State × class.World)
    unfolding push
    new_t class_name s w =
        let s = lua.remove (absolute 1) s in
        let (obj, w) = class.construct class_name w in
        elim (push obj true class_name s) [ none ↦ none | some (mt, s) ↦ some (s, w) ]

    -- The part of LuaPlus::gc_T behind the test of "do not trash".
    unfoldable pub delete_object : lua.State → class.World → lua.State × class.World
    delete_object s w = elim (lua.to_userdata (absolute 1) s) [
      | none ↦ (s, w)
      | some ud ↦ elim (lua.load_pointer ud s) [
        | none ↦ (s, w)
        | some obj ↦ (lua.store_pointer ud none s, class.destroy obj w)
      ]
    ]

    -- LuaPlus::gc_T
    unfoldable pub gc_t : lua.State → class.World → lua.State × class.World
    unfolding delete_object
    gc_t s w =
        let (found, s) = lua.get_metafield (absolute 1) Key.do_not_trash s in
        if found
        then (let s = s |> lua.push_value (absolute 1) |> lua.get_table (from_top 2) in
            if lua.is_nil (from_top 1) s then delete_object s w else (s, w))
        else delete_object s w
