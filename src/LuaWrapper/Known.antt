-- ===== src/LuaWrapper/Known.antt =====
-- What LuaPlus::push finds and leaves in the tables of a class.
use socketforioswinandroid.Common.{
  ℕ, ◌<◌, ◌≡◌, ◌≢◌, refl, ap, ◌∙◌, ◌⊎◌, false, none, some, List, [], ◌∷◌, arith,
}
use socketforioswinandroid.LuaApi.Machine.{
  Value, nil, table, userdata, text, light, object, View, registry, same, put, update_at,
}
use socketforioswinandroid.LuaWrapper.Key
use socketforioswinandroid.LuaWrapper.Sees.{
  update_at_self, update_at_ne, put_ne, put_other, put_self,
}
use socketforioswinandroid.LuaWrapper.Make.{woven, adopted}

-- The class has its metatable `m` in the registry, and the metatable is not one of its own objects.
pub record IsRegistered (class_name : List ℕ) (m : ℕ) (v : View) : Type 0 where
  pub registered : v.raw registry (text class_name) ≡ object m
  pub kind : v.kind m ≡ table
  pub bare : v.metatable m ≡ nil
  pub apart : registry ≢ m
  pub old : m < v.next

-- Its lookup table is `u`, with no other entry than objects and "__mode".
pub record HasLookup (m u : ℕ) (v : View) : Type 0 where
  pub lookup : v.raw m (text Key.userdata) ≡ object u
  pub kind : v.kind u ≡ table
  pub own : v.metatable u ≡ object u
  pub no_index : v.raw u (text Key.index) ≡ nil
  pub no_new_index : v.raw u (text Key.new_index) ≡ nil
  pub apart : registry ≢ u
  pub apart_m : m ≢ u
  pub old : u < v.next

-- There is no lookup table yet, or the object is not in it.
abbrev pub IsNew : ℕ → ℕ → View → Type 0
IsNew obj m v =
    (v.raw m (text Key.userdata) ≡ nil) ⊎ ((u : ℕ) × HasLookup m u v × (v.raw u (light obj) ≡ nil))

-- What a table that is not among the new ones still holds behind `adopted`, at a text.
pub adopted-text :
    (obj m u t : ℕ) (name : List ℕ) (v : View)
    → t < v.next
    → (adopted obj m u v).raw t (text name) ≡ v.raw t (text name)
adopted-text obj m u t name v h =
    let apart : t ≢ v.next = λ same. omega (arith, same) in
    put_other u (light obj) (object v.next) (update_at v.next (λ k. nil) v.raw) t (text name) refl
    ∙ ap (λ (r : Value → Value). r (text name)) (update_at_ne v.next (λ k. nil) v.raw t apart)

adopted-metatable :
    (obj m u t : ℕ) (v : View) → t < v.next → (adopted obj m u v).metatable t ≡ v.metatable t
adopted-metatable obj m u t v h =
    let apart : t ≢ v.next = λ same. omega (arith, same) in
    update_at_ne v.next (object m) (update_at v.next nil v.metatable) t apart
    ∙ update_at_ne v.next nil v.metatable t apart

-- The state behind a subtable that had to make the lookup table, without the two values that it
-- leaves on the stack.
abbrev pub prepared : ℕ → View → View
prepared m v = record (woven (118 ∷ []) v) {
  stack = v.stack;
  raw = put m (text Key.userdata) (object v.next) (woven (118 ∷ []) v).raw;
}

pub adopted-kind : (obj m u t : ℕ) (v : View) → t < v.next → (adopted obj m u v).kind t ≡ v.kind t
adopted-kind obj m u t v h = update_at_ne v.next userdata v.kind t (λ same. omega (arith, same))

pub prepared-kind : (m t : ℕ) (v : View) → t < v.next → (prepared m v).kind t ≡ v.kind t
prepared-kind m t v h = update_at_ne v.next table v.kind t (λ same. omega (arith, same))

adopted-IsRegistered :
    (obj m u : ℕ) (class_name : List ℕ) (v : View)
    → 0 < v.next
    → IsRegistered class_name m v
    → IsRegistered class_name m (adopted obj m u v)
adopted-IsRegistered obj m u class_name v some_next r = record {
  registered = adopted-text obj m u registry class_name v some_next ∙ r.registered;
  kind = adopted-kind obj m u m v r.old ∙ r.kind;
  bare = adopted-metatable obj m u m v r.old ∙ r.bare;
  apart = r.apart;
  old = omega (arith, r.old);
}

adopted-HasLookup :
    (obj m u : ℕ) (v : View) → m < v.next → HasLookup m u v → HasLookup m u (adopted obj m u v)
adopted-HasLookup obj m u v old l = record {
  lookup = adopted-text obj m u m Key.userdata v old ∙ l.lookup;
  kind = adopted-kind obj m u u v l.old ∙ l.kind;
  own = adopted-metatable obj m u u v l.old ∙ l.own;
  no_index = adopted-text obj m u u Key.index v l.old ∙ l.no_index;
  no_new_index = adopted-text obj m u u Key.new_index v l.old ∙ l.no_new_index;
  apart = l.apart;
  apart_m = l.apart_m;
  old = omega (arith, l.old);
}

module _ (class_name : List ℕ) (m : ℕ) (v : View) (r : IsRegistered class_name m v) where
  prepared-old : (t : ℕ) (k : Value) → t < v.next → t ≢ m → (prepared m v).raw t k ≡ v.raw t k
  prepared-old t k old apart =
      let later : t ≢ v.next = λ same. omega (arith, same, old) in
      put_ne m (text Key.userdata) (object v.next) (woven (118 ∷ []) v).raw t k apart
      ∙ put_ne v.next (text Key.mode) (text (118 ∷ [])) (update_at v.next (λ k. nil) v.raw) t k
          later
      ∙ ap (λ (row : Value → Value). row k) (update_at_ne v.next (λ k. nil) v.raw t later)

  pub prepared-next :
      (k : Value) → same k (text Key.mode) ≡ false → (prepared m v).raw v.next k ≡ nil
  prepared-next k other =
      let later : v.next ≢ m = λ same. omega (arith, same, r.old) in
      put_ne m (text Key.userdata) (object v.next) (woven (118 ∷ []) v).raw v.next k later
      ∙ put_other v.next (text Key.mode) (text (118 ∷ [])) (update_at v.next (λ k. nil) v.raw)
          v.next k other
      ∙ ap (λ (row : Value → Value). row k) (update_at_self v.next (λ k. nil) v.raw)

  pub prepared-text :
      (name : List ℕ)
      → same (text name) (text Key.userdata) ≡ false
      → (prepared m v).raw m (text name) ≡ v.raw m (text name)
  prepared-text name other =
      let later : m ≢ v.next = λ same. omega (arith, same, r.old) in
      put_other m (text Key.userdata) (object v.next) (woven (118 ∷ []) v).raw m (text name) other
      ∙ put_ne v.next (text Key.mode) (text (118 ∷ [])) (update_at v.next (λ k. nil) v.raw) m
          (text name) later
      ∙ ap (λ (row : Value → Value). row (text name)) (update_at_ne v.next (λ k. nil) v.raw m later)

  pub prepared-IsRegistered : IsRegistered class_name m (prepared m v)
  prepared-IsRegistered =
      let later : m ≢ v.next = λ same. omega (arith, same, r.old) in
      record {
        registered =
            prepared-old registry (text class_name) (omega (arith, r.old)) r.apart ∙ r.registered;
        kind = prepared-kind m m v r.old ∙ r.kind;
        bare =
            update_at_ne v.next (object v.next) (update_at v.next nil v.metatable) m later
            ∙ update_at_ne v.next nil v.metatable m later
            ∙ r.bare;
        apart = r.apart;
        old = omega (arith, r.old);
      }

  pub prepared-HasLookup : HasLookup m v.next (prepared m v)
  prepared-HasLookup = record {
    lookup = put_self m (text Key.userdata) (object v.next) (woven (118 ∷ []) v).raw refl;
    kind = update_at_self v.next table v.kind;
    own = update_at_self v.next (object v.next) (update_at v.next nil v.metatable);
    no_index = prepared-next (text Key.index) refl;
    no_new_index = prepared-next (text Key.new_index) refl;
    apart = λ same. omega (arith, same, r.old);
    apart_m = λ same. omega (arith, same, r.old);
    old = omega arith;
  }

-- The class is registered and the object has an entry in its lookup table.
pub record IsKnown (class_name : List ℕ) (obj m w : ℕ) (v : View) : Type 0 where
  pub is_registered : IsRegistered class_name m v
  pub table : ℕ
  pub has_lookup : HasLookup m table v
  pub entry : v.raw table (light obj) ≡ object w
  pub kind : v.kind w ≡ userdata
  pub block : v.pointer w ≡ some obj
  pub class_table : v.metatable w ≡ object m

pub adopted-IsKnown :
    (class_name : List ℕ) (obj m u : ℕ) (v : View)
    → IsRegistered class_name m v
    → HasLookup m u v
    → IsKnown class_name obj m v.next (adopted obj m u v)
adopted-IsKnown class_name obj m u v r l = record {
  is_registered = adopted-IsRegistered obj m u class_name v (omega (arith, r.old)) r;
  table = u;
  has_lookup = adopted-HasLookup obj m u v r.old l;
  entry = put_self u (light obj) (object v.next) (update_at v.next (λ k. nil) v.raw) (ground arith);
  kind = update_at_self v.next userdata v.kind;
  block = update_at_self v.next (some obj) (update_at v.next none v.pointer);
  class_table = update_at_self v.next (object m) (update_at v.next nil v.metatable);
}
