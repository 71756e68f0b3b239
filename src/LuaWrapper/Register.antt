-- ===== src/LuaWrapper/Register.antt =====
-- LuaPlus::Register and RegisteSocketClassL: the entry of a class in a Lua state; and the entry of
-- the library's functions, in eng_socket.cpp and LuaWrapper.cpp.
pub mod Setting
pub mod Filling
pub mod Closures
pub mod Methods
pub mod Callable
pub mod Tables
pub mod Enters
use socketforioswinandroid.Common.{
  ℕ, zero, suc, ◌-◌, true, false, Option, none, some, List, [], ◌∷◌, ltb, if◌then◌else◌, pos,
  int_eq,
}
use socketforioswinandroid.LuaApi.{
  Index, absolute, from_top, globals, thunk, new_object, collect, to_string, LuaApi, ◌|>◌,
}
use socketforioswinandroid.LuaWrapper.Key
use socketforioswinandroid.LuaWrapper.{Class}

module _ (lua : LuaApi) where
  -- LuaPlus::set
  unfoldable pub set : Index → List ℕ → lua.State → lua.State
  set table key s = s |> lua.push_string key |> lua.insert (from_top 2) |> lua.set_table table

  module _ (class : Class) where
    -- The loop of Register over the methods of the class.
    unfoldable pub add_methods : ℕ → List ℕ → List (ℕ × List ℕ) → lua.State → lua.State
    add_methods methods class_name [] s = s
    add_methods methods class_name ((entry, name) ∷ rest) s = add_methods methods class_name rest (
        s
        |> lua.push_string name
        |> lua.push_light_userdata entry
        |> lua.push_string class_name
        |> lua.push_closure thunk 2
        |> lua.set_table (absolute methods))

    -- The part that Register and RegisteSocketClassL have in common: the metatable of the objects,
    -- and the table of methods with its own metatable.
    unfoldable pub fill : ℕ → ℕ → List ℕ → lua.State → lua.State
    unfolding set add_methods
    fill methods metatable class_name s =
        s
        |> lua.push_value (absolute methods)
        |> set (absolute metatable) Key.metatable
        |> lua.push_value (absolute methods)
        |> set (absolute metatable) Key.index
        |> lua.push_string class_name
        |> lua.push_closure to_string 1
        |> set (absolute metatable) Key.to_string
        |> lua.push_closure collect 0
        |> set (absolute metatable) Key.gc
        |> lua.new_table
        |> lua.push_string class_name
        |> lua.push_closure new_object 1
        |> lua.push_value (from_top 1)
        |> set (absolute methods) Key.new
        |> set (from_top 3) Key.call
        |> lua.set_metatable (absolute methods)
        |> add_methods methods class_name class.functions
        |> lua.pop 2

    -- LuaPlus::Register
    unfoldable pub register : lua.State → lua.State
    unfolding set fill
    register s =
        let s = lua.new_table s in
        let methods = lua.get_top s in
        let s = lua.new_metatable class.class_name s in
        let metatable = lua.get_top s in
        s
        |> lua.push_value (absolute methods)
        |> set globals class.class_name
        |> fill methods metatable class.class_name

    -- The table that RegisteSocketClassL puts the class into: a global of the name given, which is
    -- made if there is none, or the globals themselves.
    unfoldable pub enter : ℕ → List ℕ → Option (List ℕ) → lua.State → lua.State
    unfolding set
    enter methods class_name none s =
        s |> lua.push_value (absolute methods) |> set globals class_name
    enter methods class_name (some parent) s =
        let s = lua.get_global parent s in
        let s =
          (if lua.is_nil (from_top 1) s
            then (let s = s |> lua.pop 1 |> lua.new_table in
                s |> lua.push_value (absolute (lua.get_top s)) |> set globals parent)
            else s) in
        s |> lua.push_value (absolute methods) |> set (from_top 3) class_name |> lua.pop 1

    -- LuaPlus::RegisteSocketClassL behind the reading of its arguments.
    unfoldable pub register_named : List ℕ → Option (List ℕ) → lua.State → lua.State
    unfolding enter fill
    register_named class_name parent s =
        let s = lua.new_table s in
        let methods = lua.get_top s in
        let s = lua.new_metatable class_name s in
        let metatable = lua.get_top s in
        s |> enter methods class_name parent |> fill methods metatable class_name

    -- LuaPlus::RegisteSocketClassL
    unfoldable pub register_socket_class : lua.State → Option lua.State
    unfolding register_named
    register_socket_class s =
        let has_parent_table = ltb 1 (lua.get_top s) in
        elim (lua.check_string (absolute 1) s) [
          | none ↦ none
          | some class_name ↦
              if has_parent_table
              then (elim (lua.check_string (absolute 2) s) [
                | none ↦ none
                | some parent ↦ some (register_named class_name (some parent) s)
              ])
              else some (register_named class_name none s)
        ]

-- The functions that are entered in a Lua state under names: an address and a name each.
module _ (lua : LuaApi) where
  -- while (lua_gettop(L) > n) lua_remove(L, n + 1): a round for each value above `n`.
  unfoldable pub remove_above : ℕ → ℕ → lua.State → lua.State
  remove_above zero n s = s
  remove_above (suc rounds) n s = elim (ltb n (lua.get_top s)) [
    | true ↦ remove_above rounds n (lua.remove (absolute (suc n)) s)
    | false ↦ s
  ]

  -- ext_lua_socket. luaL_register without a name enters into the table on the top.
  unfoldable pub ext_lua_socket : List (ℕ × List ℕ) → lua.State → lua.State
  unfolding remove_above
  ext_lua_socket funs s =
      let record_stack_index = lua.get_top s in
      let s =
        s
        |> lua.new_metatable Key.socketext
        |> lua.register_functions none []
        |> lua.register_functions (some Key.socketext) funs
        |> lua.push_value (from_top 2)
        |> lua.set_metatable (from_top 2) in
      remove_above (lua.get_top s - record_stack_index) record_stack_index s

  -- lua::RegisteGlobalFunctions
  unfoldable pub register_global_functions : List (ℕ × List ℕ) → lua.State → lua.State
  unfolding remove_above
  register_global_functions global_functions s =
      let record_stack_index = lua.get_top s in
      let s = s |> lua.register_functions (some Key.eng) global_functions |> lua.pop 1 in
      remove_above (lua.get_top s - record_stack_index) record_stack_index s

  -- RegisterLuaSocketObject, by RegisteClassToScript: `class` is CLuaMsg.
  unfoldable pub register_lua_socket_object :
      Class → (funs global_functions : List (ℕ × List ℕ)) → lua.State → lua.State
  unfolding ext_lua_socket register register_global_functions
  register_lua_socket_object class funs global_functions s =
      s |> ext_lua_socket funs |> register lua class |> register_global_functions global_functions

  -- state::setHook
  unfoldable pub set_hook : List ℕ → lua.State → lua.State
  unfolding remove_above
  set_hook chunk s =
      let start_stack_index = lua.get_top s in
      let (status, s) = lua.load_string chunk s in
      let s = (if int_eq status (pos 0) then (lua.protected_call 0 (pos 0) (pos 0) s).1 else s) in
      remove_above (lua.get_top s - start_stack_index) start_stack_index s
