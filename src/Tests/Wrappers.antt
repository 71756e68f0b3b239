-- ===== src/Tests/Wrappers.antt =====
-- Runs of LuaWrapper.h: a class whose metatable is the table 2, in a Lua state that has it in the
-- registry.
use socketforioswinandroid.Common.{
  ℕ, suc, ◌≡◌, refl, true, none, some, List, [], ◌∷◌, length, inl, inr, arith,
}
use socketforioswinandroid.LuaApi.{collect}
use socketforioswinandroid.LuaApi.Machine.{
  Value, table, userdata, closure, metamethod, nil, text, light, object, View, registry, put,
  update_at, pushed,
}
use socketforioswinandroid.LuaWrapper.Key
use socketforioswinandroid.LuaWrapper.{Class, push, gc_t}
use socketforioswinandroid.LuaWrapper.Known.{IsRegistered}
use socketforioswinandroid.LuaWrapper.Identity.{push_twice}
use socketforioswinandroid.LuaWrapper.Collect.{gc_t-once, gc_t-kept}
use socketforioswinandroid.LuaWrapper.Lifetime.{gc_t-push}
use socketforioswinandroid.LuaWrapper.Register.{register, register_named}
use socketforioswinandroid.LuaWrapper.Register.Enters.{
  Registered, register-Registered, push_twice-register,
}
use socketforioswinandroid.Tests.Machine.{machine, machine-IsLua}

abbrev class_name : List ℕ
class_name = 77 ∷ []

abbrev registered_state : View
registered_state = record {
  stack = [];
  kind = update_at 3 (closure collect []) (λ o. table);
  raw = put registry (text class_name) (object 2) (put 2 (text Key.gc) (object 3) (λ t k. nil));
  metatable = λ o. nil;
  pointer = λ o. none;
  next = 4;
}

registered_state-IsRegistered : IsRegistered class_name 2 registered_state
registered_state-IsRegistered = record {
  registered = refl;
  kind = refl;
  bare = refl;
  apart = λ e. omega (arith, e);
  old = omega arith;
}

push_twice_example :
    (w : ℕ) × (s1 : View) × (s2 : View) × (push machine 900 true class_name registered_state
      ≡ some (1, s1))
    × (s1.stack ≡ object w ∷ [])
    × (s1.pointer w ≡ some 900)
    × (s1.metatable w ≡ object 2)
    × (push machine 900 true class_name s1 ≡ some (suc (length s1.stack), s2))
    × (s2 ≡ pushed (object w) s1)
push_twice_example =
    push_twice machine (λ v. v) machine-IsLua class_name 900 2 registered_state
      registered_state-IsRegistered (inl refl)

-- A class that keeps the list of the addresses it has deleted.
abbrev counted : Class
counted = record {
  World = List ℕ;
  class_name = class_name;
  functions = [];
  construct = λ name w. (900, w);
  destroy = λ obj w. obj ∷ w;
}

-- Lua as it is when it has only its registry and its globals.
abbrev unregistered_state : View
unregistered_state = record {
  stack = [];
  kind = λ o. table;
  raw = λ t k. nil;
  metatable = λ o. nil;
  pointer = λ o. none;
  next = 2;
}

-- A class with two methods.
abbrev two_methods : Class
two_methods = record counted { World = List ℕ; functions = (70, 97 ∷ []) ∷ (71, 98 ∷ []) ∷ [] }

register-Registered_example :
    Registered class_name two_methods.functions unregistered_state
      (register machine two_methods unregistered_state)
    × (register_named machine two_methods class_name none unregistered_state
        ≡ register machine two_methods unregistered_state)
register-Registered_example =
    register-Registered machine (λ v. v) machine-IsLua two_methods unregistered_state
      unregistered_state refl refl refl (omega arith) refl

push_twice-register_example :
    (w : ℕ) × (m : ℕ) × (s1 : View) × (s2 : View) × (push machine 900 true class_name
        (register machine two_methods unregistered_state)
      ≡ some (1, s1))
    × (s1.stack ≡ object w ∷ [])
    × (s1.pointer w ≡ some 900)
    × (s1.metatable w ≡ object m)
    × ((register machine two_methods unregistered_state).raw registry (text class_name) ≡ object m)
    × (push machine 900 true class_name s1 ≡ some (suc (length s1.stack), s2))
    × (s2 ≡ pushed (object w) s1)
push_twice-register_example =
    push_twice-register machine (λ v. v) machine-IsLua two_methods 900 unregistered_state refl refl
      (omega arith) refl

gc_t-push_example :
    (o : ℕ) × (s1 : View) × (s2 : View) × (s3 : View) × (push machine 900 true class_name
        registered_state
      ≡ some (1, s1))
    × (s1.stack ≡ object o ∷ [])
    × (metamethod s1 o Key.gc ≡ object 3)
    × (s1.kind 3 ≡ closure collect [])
    × (gc_t machine counted (record s1 { stack = object o ∷ [] }) [] ≡ (s2, 900 ∷ []))
    × (gc_t machine counted s2 (900 ∷ []) ≡ (s3, 900 ∷ []))
gc_t-push_example =
    gc_t-push machine (λ v. v) machine-IsLua (λ s o. record s { stack = object o ∷ [] })
      (λ s o. refl) counted 900 2 3 registered_state [] registered_state-IsRegistered (inl refl)
      refl refl (omega arith) refl

-- The userdata 3 is lowest; its metatable is 2, and the table 4 is "do not trash".
abbrev held : Value → View
held mark = record {
  stack = object 3 ∷ [];
  kind = update_at 3 userdata (λ o. table);
  raw = put 2 (text Key.do_not_trash) (object 4) (put 4 (object 3) mark (λ t k. nil));
  metatable = update_at 3 (object 2) (λ o. nil);
  pointer = update_at 3 (some 900) (λ o. none);
  next = 5;
}

gc_t-once_example :
    (s1 : View) × (s2 : View) × (gc_t machine counted (held nil) [] ≡ (s1, 900 ∷ []))
    × (s1.pointer ≡ update_at 3 none (held nil).pointer)
    × (s1.raw ≡ (held nil).raw)
    × (s1.metatable ≡ (held nil).metatable)
    × (gc_t machine counted s1 (900 ∷ []) ≡ (s2, 900 ∷ []))
gc_t-once_example =
    gc_t-once machine (λ v. v) machine-IsLua counted (held nil) [] 3 900 refl refl refl
      (inr (4, refl, record { is_table = refl; no_index = refl; no_new_index = refl }, refl))

gc_t-kept_example :
    (s1 : View) × (st : List Value) × (gc_t machine counted (held (light 1)) [] ≡ (s1, []))
    × (s1 ≡ record (held (light 1)) { stack = st })
gc_t-kept_example =
    gc_t-kept machine (λ v. v) machine-IsLua counted (held (light 1)) [] 3 refl refl
      (4, refl, record { is_table = refl; no_index = refl; no_new_index = refl }, refl)
