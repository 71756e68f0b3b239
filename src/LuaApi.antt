-- ===== src/LuaApi.antt =====
-- The C API of Lua 5.1 as LuaWrapper.h uses it: a parameter of the model, with a state of its own.
pub mod Machine
use socketforioswinandroid.Common.{ℕ, Bool, Option, List, ℤ}

-- Where a value is: counted from the bottom of the stack, from its top, or the table of globals.
pub data Index : Type 0 where
  absolute : ℕ → Index
  from_top : ℕ → Index
  globals : Index

-- The functions of LuaWrapper.h that Lua calls.
pub data CFunction : Type 0 where
  thunk new_object collect to_string : CFunction

-- A call of lua_x or luaL_x is the field x, in the spelling of this model. Addresses of userdata
-- blocks and of light userdata are numbers. `none` means that the call has raised a Lua error.
pub record LuaApi : Type 1 where
  pub State : Type 0
  pub get_top : State → ℕ
  pub set_top : ℕ → State → State
  pub pop : ℕ → State → State
  pub check_stack : ℕ → State → State
  pub push_value : Index → State → State
  pub insert : Index → State → State
  pub remove : Index → State → State
  pub replace : Index → State → State
  pub push_nil : State → State
  pub push_boolean : Bool → State → State
  pub push_string : List ℕ → State → State
  pub push_light_userdata : ℕ → State → State
  pub push_closure : CFunction → ℕ → State → State
  pub is_nil : Index → State → Bool
  pub new_table : State → State
  pub get_table : Index → State → State
  pub set_table : Index → State → State
  pub get_global : List ℕ → State → State
  pub set_metatable : Index → State → State
  pub new_metatable : List ℕ → State → State
  pub get_metatable : List ℕ → State → State
  pub get_metafield : Index → List ℕ → State → Bool × State
  pub new_userdata : State → ℕ × State
  pub to_userdata : Index → State → Option ℕ
  pub check_userdata : Index → List ℕ → State → Option ℕ
  pub check_string : Index → State → Option (List ℕ)
  pub to_text : Index → State → Option (List ℕ)
  pub load_pointer : ℕ → State → Option ℕ
  pub store_pointer : ℕ → Option ℕ → State → State
  pub register_functions : Option (List ℕ) → List (ℕ × List ℕ) → State → State
  pub protected_call : ℕ → ℤ → ℤ → State → ℤ × State
  pub load_string : List ℕ → State → ℤ × State

-- `f(L); g(L);`
infixl 2 ◌|>◌
abbrev pub ◌|>◌ {ℓ κ} : {A : Type ℓ} {B : Type κ} → A → (A → B) → B
s |> f = f s
