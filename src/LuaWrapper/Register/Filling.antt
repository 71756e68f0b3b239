-- ===== src/LuaWrapper/Register/Filling.antt =====
-- What holds while Register fills the tables of a class.
use socketforioswinandroid.Common.{
  ℕ, suc, ◌≤◌, ◌<◌, ◌≡◌, ◌≢◌, refl, ap, ◌∙◌, ◌⊎◌, inl, inr, false, none, List, ◌∷◌, length, arith,
}
use socketforioswinandroid.LuaApi.Machine.{
  Value, Kind, table, nil, text, object, View, registry, global_table, same, place, update_at,
  IsPlain, metamethod,
}
use socketforioswinandroid.LuaWrapper.Key
use socketforioswinandroid.LuaWrapper.Sees.{
  place-here, place-there, update_at_ne, put_ne, put_other, IsPlain-of_nil,
}
use socketforioswinandroid.LuaWrapper.Register.Setting.{entered}

-- A new object that is not on the stack: what `fresh_object` does beside it.
abbrev pub minted : Kind → View → View
minted kind v = record v {
  kind = update_at v.next kind v.kind;
  raw = update_at v.next (λ k. nil) v.raw;
  metatable = update_at v.next nil v.metatable;
  pointer = update_at v.next none v.pointer;
  next = suc v.next;
}

-- A metatable that is younger than `m`, without "__index" and "__newindex".
pub record HasAloof (a m : ℕ) (v : View) : Type 0 where
  pub meta : ℕ
  pub own : v.metatable a ≡ object meta
  pub young : m < meta
  pub old : meta < v.next
  pub no_index : v.raw meta (text Key.index) ≡ nil
  pub no_new_index : v.raw meta (text Key.new_index) ≡ nil

-- The table of methods is `a` and the metatable of the objects is `m`. They are the highest of the
-- stack, `m` is in the registry, `a` in the globals, and neither has entries that are in the way.
pub record Filling (class_name : List ℕ) (a m : ℕ) (base : List Value) (index : Value) (v : View)
    : Type 0 where
  pub stack : v.stack ≡ object m ∷ object a ∷ base
  pub registered : v.raw registry (text class_name) ≡ object m
  pub global : v.raw global_table (text class_name) ≡ object a
  pub kind_methods : v.kind a ≡ table
  pub kind_metatable : v.kind m ≡ table
  pub bare : v.metatable m ≡ nil
  pub no_lookup : v.raw m (text Key.userdata) ≡ nil
  pub found : v.raw m (text Key.index) ≡ index
  pub above : global_table < a
  pub next_to : a < m
  pub old : m < v.next
  pub meta : (v.metatable a ≡ nil) ⊎ HasAloof a m v

pub minted-raw :
    (kind : Kind) (v : View) (t : ℕ) (k : Value) → t < v.next → (minted kind v).raw t k ≡ v.raw t k
minted-raw kind v t k h =
    ap (λ (row : Value → Value). row k)
      (update_at_ne v.next (λ k. nil) v.raw t (λ same. omega (arith, same)))

minted-metatable :
    (kind : Kind) (v : View) (t : ℕ) → t < v.next → (minted kind v).metatable t ≡ v.metatable t
minted-metatable kind v t h = update_at_ne v.next nil v.metatable t (λ same. omega (arith, same))

module _ (class_name : List ℕ) (a m : ℕ) (base : List Value) (index : Value) (v : View)
    (f : Filling class_name a m base index v) where
  minted-HasAloof : (kind : Kind) → HasAloof a m v → HasAloof a m (minted kind v)
  minted-HasAloof kind h = record {
    meta = h.meta;
    own = minted-metatable kind v a (omega (arith, f.next_to, f.old)) ∙ h.own;
    young = h.young;
    old = omega (arith, h.old);
    no_index = minted-raw kind v h.meta (text Key.index) h.old ∙ h.no_index;
    no_new_index = minted-raw kind v h.meta (text Key.new_index) h.old ∙ h.no_new_index;
  }

  pub minted-Filling : (kind : Kind) → Filling class_name a m base index (minted kind v)
  minted-Filling kind = record {
    stack = f.stack;
    registered =
        minted-raw kind v registry (text class_name) (omega (arith, f.above, f.next_to, f.old))
        ∙ f.registered;
    global =
        minted-raw kind v global_table (text class_name) (omega (arith, f.above, f.next_to, f.old))
        ∙ f.global;
    kind_methods =
        update_at_ne v.next kind v.kind a (λ same. omega (arith, same, f.next_to, f.old))
        ∙ f.kind_methods;
    kind_metatable =
        update_at_ne v.next kind v.kind m (λ same. omega (arith, same, f.old)) ∙ f.kind_metatable;
    bare = minted-metatable kind v m f.old ∙ f.bare;
    no_lookup = minted-raw kind v m (text Key.userdata) f.old ∙ f.no_lookup;
    found = minted-raw kind v m (text Key.index) f.old ∙ f.found;
    above = f.above;
    next_to = f.next_to;
    old = omega (arith, f.old);
    meta = elim f.meta [
      | inl e ↦ inl (minted-metatable kind v a (omega (arith, f.next_to, f.old)) ∙ e)
      | inr h ↦ inr (minted-HasAloof kind h)
    ];
  }

  -- An entry of a table that is none of the others.
  entered-HasAloof :
      (t : ℕ) (key : List ℕ) (x : Value) → t ≤ m → HasAloof a m v → HasAloof a m (entered t key x v)
  entered-HasAloof t key x low h =
      let apart : h.meta ≢ t = λ same. omega (arith, same, h.young) in
      record {
        meta = h.meta;
        own = h.own;
        young = h.young;
        old = h.old;
        no_index = put_ne t (text key) x v.raw h.meta (text Key.index) apart ∙ h.no_index;
        no_new_index =
            put_ne t (text key) x v.raw h.meta (text Key.new_index) apart ∙ h.no_new_index;
      }

  pub entered-Filling :
      (t : ℕ) (key : List ℕ) (x index' : Value)
      → a ≤ t
      → t ≤ m
      → (entered t key x v).raw m (text Key.userdata) ≡ nil
      → (entered t key x v).raw m (text Key.index) ≡ index'
      → Filling class_name a m base index' (entered t key x v)
  entered-Filling t key x index' high low no_lookup found = record {
    stack = f.stack;
    registered =
        put_ne t (text key) x v.raw registry (text class_name)
          (λ same. omega (arith, same, f.above, high))
        ∙ f.registered;
    global =
        put_ne t (text key) x v.raw global_table (text class_name)
          (λ same. omega (arith, same, f.above, high))
        ∙ f.global;
    kind_methods = f.kind_methods;
    kind_metatable = f.kind_metatable;
    bare = f.bare;
    no_lookup = no_lookup;
    found = found;
    above = f.above;
    next_to = f.next_to;
    old = f.old;
    meta = elim f.meta [ inl e ↦ inl e | inr h ↦ inr (entered-HasAloof t key x low h) ];
  }

  -- In the metatable of the objects, at another key than the two that are looked at.
  pub in_metatable-Filling :
      (key : List ℕ) (x : Value)
      → same (text Key.userdata) (text key) ≡ false
      → same (text Key.index) (text key) ≡ false
      → Filling class_name a m base index (entered m key x v)
  in_metatable-Filling key x other other' =
      entered-Filling m key x index (omega (arith, f.next_to)) (omega arith)
        (put_other m (text key) x v.raw m (text Key.userdata) other ∙ f.no_lookup)
        (put_other m (text key) x v.raw m (text Key.index) other' ∙ f.found)

  pub in_methods-Filling :
      (key : List ℕ) (x : Value) → Filling class_name a m base index (entered a key x v)
  in_methods-Filling key x =
      let apart : m ≢ a = λ same. omega (arith, same, f.next_to) in
      entered-Filling a key x index (omega arith) (omega (arith, f.next_to))
        (put_ne a (text key) x v.raw m (text Key.userdata) apart ∙ f.no_lookup)
        (put_ne a (text key) x v.raw m (text Key.index) apart ∙ f.found)

  pub IsPlain-of_metatable : IsPlain v m
  IsPlain-of_metatable = IsPlain-of_nil v m f.kind_metatable f.bare

  pub IsPlain-of_methods : IsPlain v a
  IsPlain-of_methods = elim f.meta [
    | inl e ↦ IsPlain-of_nil v a f.kind_methods e
    | inr h ↦ record {
      is_table = f.kind_methods;
      no_index = rw (h.own, metamethod) h.no_index;
      no_new_index = rw (h.own, metamethod) h.no_new_index;
    }
  ]

  -- Where the two tables stand, also under some values that are pushed.
  pub methods_place : place (suc (length base)) v.stack ≡ object a
  methods_place =
      ap (place (suc (length base))) f.stack
      ∙ place-there (object m) (object a ∷ base) (suc (length base)) (omega arith)
      ∙ place-here (object a) base (suc (length base)) refl

  pub metatable_place : place (suc (suc (length base))) v.stack ≡ object m
  metatable_place =
      ap (place (suc (suc (length base)))) f.stack
      ∙ place-here (object m) (object a ∷ base) (suc (suc (length base))) refl

  pub stack_length : length v.stack ≡ suc (suc (length base))
  stack_length = ap (λ (st : List Value). length st) f.stack
