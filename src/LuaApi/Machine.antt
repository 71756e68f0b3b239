-- ===== src/LuaApi/Machine.antt =====
-- What the reference manual of Lua 5.1 says of the calls: their effect on the stack, and on what
-- the tables and the userdata hold, as far as LuaWrapper.h depends on it.
use socketforioswinandroid.Common.{
  ℕ, zero, suc, ◌≤◌, ◌<◌, ◌≡◌, Bool, true, false, not, ◌&&◌, Option, none, some, List, [], ◌∷◌,
  length, take, drop, leb, ◌==◌, if◌then◌else◌,
}
use socketforioswinandroid.LuaApi.{Index, absolute, from_top, globals, CFunction, LuaApi}

-- A table, a userdata and a closure are each known by a number.
pub data Value : Type 0 where
  nil : Value
  boolean : Bool → Value
  text : List ℕ → Value
  light : ℕ → Value
  object : ℕ → Value

-- What the object of a number is. A closure has its function and its upvalues, the last in front.
pub data Kind : Type 0 where
  table userdata : Kind
  closure : CFunction → List Value → Kind

-- The objects that have a metatable of their own.
abbrev pub owns_metatable : Kind → Bool
owns_metatable table = true
owns_metatable userdata = true
owns_metatable (closure f upvalues) = false

-- The stack has its top in front. `raw` is what a table holds at a key, `metatable` a table's or a
-- userdata's metatable, `pointer` what a block of userdata holds, and `next` a number not yet in
-- use.
pub record View : Type 0 where
  pub stack : List Value
  pub kind : ℕ → Kind
  pub raw : ℕ → Value → Value
  pub metatable : ℕ → Value
  pub pointer : ℕ → Option ℕ
  pub next : ℕ

-- The registry, and the table of globals.
abbrev pub registry : ℕ
registry = 0

abbrev pub global_table : ℕ
global_table = 1

abbrev pub same_text : List ℕ → List ℕ → Bool
same_text [] [] = true
same_text [] (d ∷ ds) = false
same_text (c ∷ cs) [] = false
same_text (c ∷ cs) (d ∷ ds) = elim (c == d) [ true ↦ same_text cs ds | false ↦ false ]

abbrev pub same : Value → Value → Bool
same nil nil = true
same (boolean true) (boolean c) = c
same (boolean false) (boolean true) = false
same (boolean false) (boolean false) = true
same (text s) (text t) = same_text s t
same (light p) (light q) = p == q
same (object a) (object b) = a == b
same _ _ = false

abbrev pub is_nil_value : Value → Bool
is_nil_value nil = true
is_nil_value (boolean b) = false
is_nil_value (text t) = false
is_nil_value (light p) = false
is_nil_value (object o) = false

-- A place counted from the bottom, the lowest being 1, and the same with the place filled.
abbrev pub place : ℕ → List Value → Value
place i [] = nil
place i (x ∷ st) = if i == suc (length st) then x else place i st

abbrev pub with_place : ℕ → Value → List Value → List Value
with_place i v [] = []
with_place i v (x ∷ st) = if i == suc (length st) then v ∷ st else x ∷ with_place i v st

abbrev pub nth : ℕ → List Value → Value
nth k [] = nil
nth zero (x ∷ st) = x
nth (suc k) (x ∷ st) = nth k st

abbrev pub at : Index → List Value → Value
at (absolute i) st = place i st
at (from_top zero) st = nil
at (from_top (suc k)) st = nth k st
at globals st = object global_table

-- The lowest `n` values.
abbrev pub lowest : ℕ → List Value → List Value
lowest n [] = []
lowest n (x ∷ st) = if leb (suc (length st)) n then x ∷ st else lowest n st

abbrev pub put : ℕ → Value → Value → (ℕ → Value → Value) → ℕ → Value → Value
put t k v raw t' k' = if (t' == t) && same k' k then v else raw t' k'

abbrev pub update_at {ℓ} : {A : Type ℓ} → ℕ → A → (ℕ → A) → ℕ → A
update_at o a f o' = if o' == o then a else f o'

abbrev pub pushed : Value → View → View
pushed x v = record v { stack = x ∷ v.stack }

abbrev pub metamethod : View → ℕ → List ℕ → Value
metamethod v t name = elim (v.metatable t) [
  | object m ↦ v.raw m (text name)
  | nil ↦ nil
  | boolean b ↦ nil
  | text s ↦ nil
  | light p ↦ nil
]

-- It is a table, and no metamethod stands between it and what it holds: "__index" and "__newindex".
pub record IsPlain (v : View) (t : ℕ) : Type 0 where
  pub is_table : v.kind t ≡ table
  pub no_index : metamethod v t (95 ∷ 95 ∷ 105 ∷ 110 ∷ 100 ∷ 101 ∷ 120 ∷ []) ≡ nil
  pub no_new_index :
      metamethod v t (95 ∷ 95 ∷ 110 ∷ 101 ∷ 119 ∷ 105 ∷ 110 ∷ 100 ∷ 101 ∷ 120 ∷ []) ≡ nil

-- There is a value on the stack; and there are a value and, below it, a key that is not nil.
abbrev pub has_top : List Value → Bool
has_top [] = false
has_top (x ∷ st) = true

abbrev pub has_key : List Value → Bool
has_key [] = false
has_key (x ∷ below) = elim below [ [] ↦ false | k ∷ st ↦ not (is_nil_value k) ]

-- lua_gettable and lua_settable on such a table, lua_setmetatable, and the makers of new objects.
abbrev pub fetch : ℕ → View → View
fetch t v = elim v.stack [ [] ↦ v | k ∷ st ↦ record v { stack = v.raw t k ∷ st } ]

abbrev pub assign : ℕ → View → View
assign t v = elim v.stack [
  | [] ↦ v
  | x ∷ below ↦ elim below [ [] ↦ v | k ∷ st ↦ record v { stack = st; raw = put t k x v.raw } ]
]

abbrev pub give_metatable : ℕ → View → View
give_metatable o v = elim v.stack [
  | [] ↦ v
  | m ∷ st ↦ record v { stack = st; metatable = update_at o m v.metatable }
]

abbrev pub fresh_object : Kind → View → View
fresh_object kind v = record v {
  stack = object v.next ∷ v.stack;
  kind = update_at v.next kind v.kind;
  raw = update_at v.next (λ k. nil) v.raw;
  metatable = update_at v.next nil v.metatable;
  pointer = update_at v.next none v.pointer;
  next = suc v.next;
}

-- luaL_newmetatable of a name that the registry does not have.
abbrev pub entered_metatable : List ℕ → View → View
entered_metatable name v = record (fresh_object table v) {
  raw = put registry (text name) (object v.next) (fresh_object table v).raw;
}

abbrev pub fill_place : ℕ → View → View
fill_place i v = elim v.stack [ [] ↦ v | x ∷ st ↦ record v { stack = with_place i x st } ]

-- The laws, for runs in which the collector does not empty a weak table and no call runs out of
-- memory.
pub record IsLua (lua : LuaApi) (view : lua.State → View) : Type 0 where
  pub get_top : (s : lua.State) → lua.get_top s ≡ length (view s).stack
  pub set_top :
      (n : ℕ) (s : lua.State)
      → n ≤ length (view s).stack
      → view (lua.set_top n s) ≡ record (view s) { stack = lowest n (view s).stack }
  pub pop :
      (n : ℕ) (s : lua.State)
      → n ≤ length (view s).stack
      → view (lua.pop n s) ≡ record (view s) { stack = drop n (view s).stack }
  pub check_stack : (n : ℕ) (s : lua.State) → view (lua.check_stack n s) ≡ view s
  pub push_value :
      (i : Index) (s : lua.State) (x : Value)
      → at i (view s).stack ≡ x
      → is_nil_value x ≡ false
      → view (lua.push_value i s) ≡ pushed x (view s)
  pub replace :
      (i : ℕ) (s : lua.State)
      → 0 < i
      → i < length (view s).stack
      → view (lua.replace (absolute i) s) ≡ fill_place i (view s)
  pub push_string :
      (t : List ℕ) (s : lua.State) → view (lua.push_string t s) ≡ pushed (text t) (view s)
  pub push_light_userdata :
      (p : ℕ) (s : lua.State) → view (lua.push_light_userdata p s) ≡ pushed (light p) (view s)
  pub insert :
      (s : lua.State) (x y : Value) (st : List Value)
      → (view s).stack ≡ x ∷ y ∷ st
      → view (lua.insert (from_top 2) s) ≡ record (view s) { stack = y ∷ x ∷ st }
  pub push_closure :
      (f : CFunction) (n : ℕ) (s : lua.State)
      → n ≤ length (view s).stack
      → view (lua.push_closure f n s)
        ≡ fresh_object
            (closure f (take n (view s).stack))
            (record (view s) { stack = drop n (view s).stack })
  pub new_metatable :
      (name : List ℕ) (s : lua.State)
      → (view s).raw registry (text name) ≡ nil
      → view (lua.new_metatable name s) ≡ entered_metatable name (view s)
  pub is_nil :
      (s : lua.State) (x : Value) (st : List Value)
      → (view s).stack ≡ x ∷ st
      → lua.is_nil (from_top 1) s ≡ is_nil_value x
  pub new_table : (s : lua.State) → view (lua.new_table s) ≡ fresh_object table (view s)
  pub new_userdata :
      (s : lua.State)
      → ((lua.new_userdata s).0 ≡ (view s).next)
        × (view (lua.new_userdata s).1 ≡ fresh_object userdata (view s))
  pub get_table :
      (i : Index) (s : lua.State) (t : ℕ)
      → has_top (view s).stack ≡ true
      → at i (view s).stack ≡ object t
      → IsPlain (view s) t
      → view (lua.get_table i s) ≡ fetch t (view s)
  pub set_table :
      (i : Index) (s : lua.State) (t : ℕ)
      → has_key (view s).stack ≡ true
      → at i (view s).stack ≡ object t
      → IsPlain (view s) t
      → view (lua.set_table i s) ≡ assign t (view s)
  pub set_metatable :
      (i : Index) (s : lua.State) (o m : ℕ)
      → at i (view s).stack ≡ object o
      → owns_metatable ((view s).kind o) ≡ true
      → at (from_top 1) (view s).stack ≡ object m
      → (view s).kind m ≡ table
      → view (lua.set_metatable i s) ≡ give_metatable o (view s)
  pub get_metatable :
      (name : List ℕ) (s : lua.State)
      → view (lua.get_metatable name s) ≡ pushed ((view s).raw registry (text name)) (view s)
  pub get_metafield :
      (i : Index) (name : List ℕ) (s : lua.State) (o : ℕ)
      → at i (view s).stack ≡ object o
      → owns_metatable ((view s).kind o) ≡ true
      → ((lua.get_metafield i name s).0 ≡ not (is_nil_value (metamethod (view s) o name)))
        × (view (lua.get_metafield i name s).1 ≡ (
            if is_nil_value (metamethod (view s) o name)
            then view s
            else pushed (metamethod (view s) o name) (view s)))
  pub to_userdata :
      (i : Index) (s : lua.State) (o : ℕ)
      → at i (view s).stack ≡ object o
      → (view s).kind o ≡ userdata
      → lua.to_userdata i s ≡ some o
  pub load_pointer :
      (o : ℕ) (s : lua.State)
      → (view s).kind o ≡ userdata
      → lua.load_pointer o s ≡ (view s).pointer o
  pub store_pointer :
      (o : ℕ) (p : Option ℕ) (s : lua.State)
      → (view s).kind o ≡ userdata
      → view (lua.store_pointer o p s)
        ≡ record (view s) { pointer = update_at o p (view s).pointer }
