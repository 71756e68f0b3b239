-- ===== src/Tests/Machine.antt =====
-- A Lua state that keeps the laws of LuaApi/Machine: the view is the state itself.
use socketforioswinandroid.Common.{
  ℕ, zero, suc, ◌-◌, refl, ap, Bool, false, not, Option, none, some, List, [], ◌∷◌, length, take,
  ◌∙◌, drop, if◌then◌else◌, pos,
}
use socketforioswinandroid.LuaApi.{Index, absolute, from_top, globals, LuaApi}
use socketforioswinandroid.LuaApi.Machine.{
  Value, Kind, table, userdata, closure, same, nil, boolean, text, light, object, View, registry,
  global_table, is_nil_value, at, lowest, update_at, pushed, metamethod, fetch, assign,
  give_metatable, fresh_object, entered_metatable, fill_place, IsLua,
}

-- The value that is under `k` others.
abbrev without : ℕ → List Value → List Value
without k [] = []
without zero (x ∷ st) = st
without (suc k) (x ∷ st) = x ∷ without k st

abbrev put_under : ℕ → Value → List Value → List Value
put_under zero x st = x ∷ st
put_under (suc k) x [] = x ∷ []
put_under (suc k) x (y ∷ st) = y ∷ put_under k x st

abbrev depth : Index → View → ℕ
depth (absolute i) v = length v.stack - i
depth (from_top k) v = k - 1
depth globals v = 0

abbrev on_table : (ℕ → View → View) → Value → View → View
on_table f (object t) v = f t v
on_table f nil v = v
on_table f (boolean b) v = v
on_table f (text s) v = v
on_table f (light p) v = v

abbrev metafield : List ℕ → Value → View → Bool × View
metafield name (object o) v = (
  not (is_nil_value (metamethod v o name)),
  if is_nil_value (metamethod v o name) then v else pushed (metamethod v o name) v,
)
metafield name nil v = (false, v)
metafield name (boolean b) v = (false, v)
metafield name (text s) v = (false, v)
metafield name (light p) v = (false, v)

abbrev as_object : Value → Option ℕ
as_object (object o) = some o
as_object nil = none
as_object (boolean b) = none
as_object (text t) = none
as_object (light p) = none

-- Only a userdata is a block, and only one that has the metatable of the class passes the check.
abbrev block_of : Kind → ℕ → Option ℕ
block_of userdata o = some o
block_of table o = none
block_of (closure f upvalues) o = none

abbrev as_block : Value → View → Option ℕ
as_block x v = elim (as_object x) [ none ↦ none | some o ↦ block_of (v.kind o) o ]

abbrev as_class : Value → List ℕ → View → Option ℕ
as_class x name v = elim (as_block x v) [
  | none ↦ none
  | some o ↦
      if same (v.metatable o) (v.raw registry (text name))
      then (if is_nil_value (v.metatable o) then none else some o)
      else none
]

abbrev as_text : Value → Option (List ℕ)
as_text (text t) = some t
as_text nil = none
as_text (boolean b) = none
as_text (object o) = none
as_text (light p) = none

-- What lua_insert makes of a stack: the value on the top goes under `k` others.
abbrev inserted : ℕ → List Value → View → View
inserted k [] v = v
inserted k (x ∷ st) v = record v { stack = put_under k x st }

-- luaL_newmetatable, by what the registry has at the name.
abbrev make_metatable : Value → List ℕ → View → View
make_metatable x name v = if is_nil_value x then entered_metatable name v else pushed x v

abbrev pub machine : LuaApi
machine = record {
  State = View;
  get_top = λ v. length v.stack;
  set_top = λ n v. record v { stack = lowest n v.stack };
  pop = λ n v. record v { stack = drop n v.stack };
  check_stack = λ n v. v;
  push_value = λ i v. pushed (at i v.stack) v;
  insert = λ i v. inserted (depth i v) v.stack v;
  remove = λ i v. record v { stack = without (depth i v) v.stack };
  replace = λ i v. elim i [ absolute n ↦ fill_place n v | from_top k ↦ v | globals ↦ v ];
  push_nil = λ v. pushed nil v;
  push_boolean = λ b v. pushed (boolean b) v;
  push_string = λ t v. pushed (text t) v;
  push_light_userdata = λ p v. pushed (light p) v;
  push_closure =
      λ f n v. fresh_object (closure f (take n v.stack)) (record v { stack = drop n v.stack });
  is_nil = λ i v. is_nil_value (at i v.stack);
  new_table = λ v. fresh_object table v;
  get_table = λ i v. on_table fetch (at i v.stack) v;
  set_table = λ i v. on_table assign (at i v.stack) v;
  get_global = λ name v. pushed (v.raw global_table (text name)) v;
  set_metatable = λ i v. on_table give_metatable (at i v.stack) v;
  new_metatable = λ name v. make_metatable (v.raw registry (text name)) name v;
  get_metatable = λ name v. pushed (v.raw registry (text name)) v;
  get_metafield = λ i name v. metafield name (at i v.stack) v;
  new_userdata = λ v. (v.next, fresh_object userdata v);
  to_userdata = λ i v. as_block (at i v.stack) v;
  check_userdata = λ i name v. as_class (at i v.stack) name v;
  check_string = λ i v. as_text (at i v.stack);
  to_text = λ i v. as_text (at i v.stack);
  load_pointer = λ o v. v.pointer o;
  store_pointer = λ o p v. record v { pointer = update_at o p v.pointer };
  register_functions = λ name functions v. v;
  protected_call = λ nargs nresults errfunc v. (pos 0, v);
  load_string = λ chunk v. (pos 0, v);
}

pub machine-IsLua : IsLua machine (λ v. v)
machine-IsLua = record {
  get_top = λ s. refl;
  set_top = λ n s h. refl;
  pop = λ n s h. refl;
  check_stack = λ n s. refl;
  push_value = λ i s x e some_value. ap (λ x. pushed x s) e;
  replace = λ i s above h. refl;
  push_string = λ t s. refl;
  push_light_userdata = λ p s. refl;
  insert = λ s x y st e. ap (λ st. inserted 1 st s) e;
  push_closure = λ f n s h. refl;
  new_metatable = λ name s e. ap (λ x. make_metatable x name s) e;
  is_nil = λ s x st e. ap (λ st. is_nil_value (at (from_top 1) st)) e;
  new_table = λ s. refl;
  new_userdata = λ s. (refl, refl);
  get_table = λ i s t h e plain. ap (λ x. on_table fetch x s) e;
  set_table = λ i s t h e plain. ap (λ x. on_table assign x s) e;
  set_metatable = λ i s o m e k top l. ap (λ x. on_table give_metatable x s) e;
  get_metatable = λ name s. refl;
  get_metafield = λ i name s o e k.
      let both = ap (λ x. metafield name x s) e in (ap (λ p. p.0) both, ap (λ p. p.1) both);
  to_userdata = λ i s o e k. ap (λ x. as_block x s) e ∙ ap (λ k. block_of k o) k;
  load_pointer = λ o s k. refl;
  store_pointer = λ o p s k. refl;
}
