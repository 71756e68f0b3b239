-- ===== src/LuaWrapper/Register/Tables.antt =====
-- The part of Register that fills the metatable and the table of methods.
use socketforioswinandroid.Common.{
  inr, none, some, [], ◌∷◌, ◌<◌, ◌≢◌, ℕ, suc, ◌≡◌, refl, ap, ◌∙◌, false, List, length, drop, arith,
}
use socketforioswinandroid.LuaApi.{
  absolute, from_top, thunk, CFunction, new_object, collect, to_string, LuaApi,
}
use socketforioswinandroid.LuaApi.Machine.{
  Value, Kind, closure, table, light, nil, text, object, View, same, pushed, IsLua,
}
use socketforioswinandroid.LuaWrapper.Key
use socketforioswinandroid.LuaWrapper.{Class}
use socketforioswinandroid.LuaWrapper.Sees.{
  update_at_self, put_other, put_self, see_push_string, see_push_value,
}
use socketforioswinandroid.LuaWrapper.Register.{set, fill}
use socketforioswinandroid.LuaWrapper.Register.Setting.{
  entered, see_set_low, see_push_closure, see_push_function,
}
use socketforioswinandroid.LuaWrapper.Register.Filling.{
  Filling, minted, minted-raw, minted-Filling, entered-Filling, in_metatable-Filling,
  IsPlain-of_metatable, methods_place, metatable_place, stack_length,
}
use socketforioswinandroid.LuaWrapper.Register.Callable.{
  callable-HasClosure, callable-raw, callable-call, callable-new, callable, callable-Filling,
  callable-view,
}
use socketforioswinandroid.LuaWrapper.Register.Methods.{Filled, add_methods-Filled}
use socketforioswinandroid.LuaWrapper.Register.Closures.{
  HasClosure, method_of, minted-HasClosure, entered-HasClosure, new-HasClosure,
}

module _ (lua : LuaApi) (view : lua.State → View) (law : IsLua lua view) (class_name : List ℕ)
    (a m : ℕ) (base : List Value) where
  -- What has been entered, step by step.
  abbrev Nothing : View → Type 0
  Nothing v = Unit {0}

  abbrev HasName : View → Type 0
  HasName v = v.raw m (text Key.metatable) ≡ object a

  abbrev HasPrint : View → Type 0
  HasPrint v = HasName v × HasClosure m Key.to_string to_string (text class_name ∷ []) v

  abbrev HasCollect : View → Type 0
  HasCollect v = HasPrint v × HasClosure m Key.gc collect [] v

  abbrev HasCall : View → Type 0
  HasCall v =
      HasCollect v
      × ((t : ℕ) × (a < t)
          × (t < v.next)
          × (v.metatable a ≡ object t)
          × HasClosure t Key.call new_object (text class_name ∷ []) v)
      × HasClosure a Key.new new_object (text class_name ∷ []) v

  -- A state that is seen, and what holds of the view.
  record Stands (P : View → Type 0) (index : Value) (s : lua.State) : Type 0 where
    now : View
    seen : view s ≡ now
    filling : Filling class_name a m base index now
    facts : P now

  -- A value from the top goes into the metatable.
  in_metatable-Stands :
      (P : View → Type 0) (index : Value) (key : List ℕ) (x : Value) (s : lua.State) (v : View)
      → P (entered m key x v)
      → Filling class_name a m base index v
      → view s ≡ pushed x v
      → same (text Key.userdata) (text key) ≡ false
      → same (text Key.index) (text key) ≡ false
      → Stands P index (set lua (absolute (suc (suc (length base)))) key s)
  in_metatable-Stands P index key x s v facts f e other other' = record {
    now = entered m key x v;
    seen =
        see_set_low lua view law (suc (suc (length base))) key s v x m e
          (omega (arith, stack_length class_name a m base index v f))
          (metatable_place class_name a m base index v f)
          (IsPlain-of_metatable class_name a m base index v f);
    filling = in_metatable-Filling class_name a m base index v f key x other other';
    facts = facts;
  }

  -- `__metatable` and `__index` are the table of methods.
  push_methods :
      (index : Value) (s : lua.State) (v : View)
      → Filling class_name a m base index v
      → view s ≡ v
      → view (lua.push_value (absolute (suc (length base))) s) ≡ pushed (object a) v
  push_methods index s v f e =
      see_push_value lua view law (absolute (suc (length base))) s v (object a) e
        (methods_place class_name a m base index v f) refl

  named-Stands :
      (index : Value) (s : lua.State)
      → Stands Nothing index s
      → Stands HasName index (
          set lua
            (absolute (suc (suc (length base))))
            Key.metatable
            (lua.push_value (absolute (suc (length base))) s))
  named-Stands index s h =
      in_metatable-Stands HasName index Key.metatable (object a) _ h.now
        (put_self m (text Key.metatable) (object a) h.now.raw refl) h.filling
        (push_methods index s h.now h.filling h.seen) refl refl

  indexed-Stands :
      (index : Value) (s : lua.State)
      → Stands HasName index s
      → Stands HasName (object a) (
          set lua
            (absolute (suc (suc (length base))))
            Key.index
            (lua.push_value (absolute (suc (length base))) s))
  indexed-Stands index s h =
      let v = h.now in
      let f = h.filling in
      record {
        now = entered m Key.index (object a) v;
        seen =
            see_set_low lua view law (suc (suc (length base))) Key.index
              (lua.push_value (absolute (suc (length base))) s) v (object a) m
              (push_methods index s v f h.seen)
              (omega (arith, stack_length class_name a m base index v f))
              (metatable_place class_name a m base index v f)
              (IsPlain-of_metatable class_name a m base index v f);
        filling =
            entered-Filling class_name a m base index v f m Key.index (object a) (object a)
              (omega (arith, f.next_to)) (omega arith)
              (put_other m (text Key.index) (object a) v.raw m (text Key.userdata) refl
                ∙ f.no_lookup)
              (put_self m (text Key.index) (object a) v.raw refl);
        facts = put_other m (text Key.index) (object a) v.raw m (text Key.metatable) refl ∙ h.facts;
      }

  named_still :
      (key : List ℕ) (kind : Kind) (v : View)
      → same (text Key.metatable) (text key) ≡ false
      → m < v.next
      → HasName v
      → HasName (entered m key (object v.next) (minted kind v))
  named_still key kind v other old named =
      put_other m (text key) (object v.next) (minted kind v).raw m (text Key.metatable) other
      ∙ minted-raw kind v m (text Key.metatable) old
      ∙ named

  -- `__tostring` and `__gc` are functions.
  printed-Stands :
      (index : Value) (s : lua.State)
      → Stands HasName index s
      → Stands HasPrint index (
          set lua
            (absolute (suc (suc (length base))))
            Key.to_string
            (lua.push_closure to_string 1 (lua.push_string class_name s)))
  printed-Stands index s h =
      let kind = closure to_string (text class_name ∷ []) in
      in_metatable-Stands HasPrint index Key.to_string (object h.now.next) _ (minted kind h.now)
        (
          named_still Key.to_string kind h.now refl h.filling.old h.facts,
          new-HasClosure m Key.to_string to_string (text class_name ∷ []) h.now,
        )
        (minted-Filling class_name a m base index h.now h.filling kind)
        (see_push_closure lua view law to_string (lua.push_string class_name s) h.now
          (text class_name) (see_push_string lua view law class_name s h.now h.seen))
        refl refl

  collected-Stands :
      (index : Value) (s : lua.State)
      → Stands HasPrint index s
      → Stands HasCollect index
          (set lua (absolute (suc (suc (length base)))) Key.gc (lua.push_closure collect 0 s))
  collected-Stands index s h =
      let kind = closure collect [] in
      in_metatable-Stands HasCollect index Key.gc (object h.now.next) _ (minted kind h.now)
        (
          (
            named_still Key.gc kind h.now refl h.filling.old h.facts.0,
            entered-HasClosure m Key.gc (object h.now.next) m Key.to_string to_string
                (text class_name ∷ []) (minted kind h.now) (inr refl)
                (minted-HasClosure kind m Key.to_string to_string (text class_name ∷ []) h.now
                  h.filling.old h.facts.1),
          ),
          new-HasClosure m Key.gc collect [] h.now,
        )
        (minted-Filling class_name a m base index h.now h.filling kind)
        (see_push_function lua view law collect s h.now h.seen) refl refl

  callable-Stands :
      (index : Value) (s : lua.State)
      → Stands HasCollect index s
      → Stands HasCall index (
          lua.set_metatable (absolute (suc (length base))) (
            set lua (from_top 3) Key.call (
              set lua (absolute (suc (length base))) Key.new (
                lua.push_value
                  (from_top 1)
                  (lua.push_closure new_object 1 (lua.push_string class_name (lua.new_table s)))))))
  callable-Stands index s h = record {
    now = callable class_name a m base h.now;
    seen = callable-view lua view law class_name a m base index s h.now h.filling h.seen;
    filling = callable-Filling class_name a m base index h.now h.filling;
    facts =
        let v = h.now in
        let f = h.filling in
        let ((named, printed), collected) = h.facts in
        (
          (
            (
              callable-raw class_name a m base (text Key.metatable) v f.next_to f.old ∙ named,
              callable-HasClosure class_name a m base Key.to_string to_string (text class_name ∷ [])
                  v f.next_to f.old printed,
            ),
            callable-HasClosure class_name a m base Key.gc collect [] v f.next_to f.old collected,
          ),
          (
            v.next,
            omega (arith, f.next_to, f.old),
            omega arith,
            update_at_self a (object v.next) (minted table (minted table v)).metatable,
            callable-call class_name a m base v,
          ),
          callable-new class_name a m base v (omega (arith, f.next_to, f.old)),
        );
  }

  -- The loop over the methods leaves that as it is.
  Filled-HasCall :
      (index : Value) (methods : List (ℕ × List ℕ)) (v v' : View)
      → Filling class_name a m base index v
      → Filled class_name a m base index methods v v'
      → HasCall v
      → HasCollect v'
        × ((t : ℕ) × (v'.metatable a ≡ object t)
            × HasClosure t Key.call new_object (text class_name ∷ []) v')
        × (method_of Key.new methods ≡ none
            → HasClosure a Key.new new_object (text class_name ∷ []) v')
  Filled-HasCall index methods v v' f filled
        (((named, printed), collected), (t, young, low, own, call), construct) =
      let apart : m ≢ a = λ same. omega (arith, same, f.next_to) in
      let kept : (t : ℕ) (key : List ℕ) (fun : CFunction) (upvalues : List Value)
          → t < v.next
          → v'.raw t (text key) ≡ v.raw t (text key)
          → HasClosure t key fun upvalues v
          → HasClosure t key fun upvalues v' =
        λ t key fun upvalues below same_entry h.
          (h.0, omega (arith, h.1, filled.grows), same_entry ∙ h.2, filled.kinds h.0 h.1 ∙ h.3) in
      (
        (
          (
            filled.elsewhere m (text Key.metatable) f.old apart ∙ named,
            kept m Key.to_string to_string (text class_name ∷ []) f.old
                (filled.elsewhere m (text Key.to_string) f.old apart) printed,
          ),
          kept m Key.gc collect [] f.old (filled.elsewhere m (text Key.gc) f.old apart) collected,
        ),
        (
          t,
          filled.same_metatable ∙ own,
          kept t Key.call new_object (text class_name ∷ []) low
              (filled.elsewhere t (text Key.call) low (λ same. omega (arith, same, young))) call,
        ),
        (λ free.
            kept a Key.new new_object (text class_name ∷ []) (omega (arith, f.next_to, f.old))
              (filled.others Key.new free) construct),
      )

  -- The tables of the class are as they should be, and the stack is as it was below them.
  pub record Complete (class : Class) (v' : View) : Type 0 where
    pub filling : Filling class_name a m base (object a) v'
    pub collected : HasCollect v'
    pub called :
        (t : ℕ) × (v'.metatable a ≡ object t)
        × HasClosure t Key.call new_object (text class_name ∷ []) v'
    pub construct :
        method_of Key.new class.functions ≡ none
        → HasClosure a Key.new new_object (text class_name ∷ []) v'
    pub entries :
        (name : List ℕ) (entry : ℕ)
        → method_of name class.functions ≡ some entry
        → HasClosure a name thunk (text class_name ∷ light entry ∷ []) v'

  pub fill-Complete :
      (class : Class) (s : lua.State) (v : View)
      → Filling class_name a m base nil v
      → view s ≡ v
      → (v' : View) × (view
            (fill lua class (suc (length base)) (suc (suc (length base))) class_name s)
          ≡ record v' { stack = base })
        × Complete class v'
  unfolding fill
  fill-Complete class s v f e =
      let h = callable-Stands (object a) _ (
        collected-Stands (object a) _ (
          printed-Stands (object a) _ (
            indexed-Stands nil _
              (named-Stands nil s (record { now = v; seen = e; filling = f; facts = tt }))))) in
      let (v', e', filled) =
        add_methods-Filled lua view law class class_name a m base (object a) class.functions _ h.now
          h.seen h.filling in
      let (collected, called, construct) =
        Filled-HasCall (object a) class.functions h.now v' h.filling filled h.facts in
      (
        v',
        popped _ v' e' filled.filling,
        record {
          filling = filled.filling;
          collected = collected;
          called = called;
          construct = construct;
          entries = filled.entries;
        },
      )
    where
      popped :
          (s : lua.State) (v : View)
          → view s ≡ v
          → Filling class_name a m base (object a) v
          → view (lua.pop 2 s) ≡ record v { stack = base }
      popped s v e f =
          law.pop 2 s (
            omega (
              arith,
              ap (λ (v : View). length v.stack) e,
              stack_length class_name a m base (object a) v f,
            ))
          ∙ (ap (λ (v : View). record v { stack = drop 2 v.stack }) e
              ∙ ap (λ (st : List Value). record v { stack = drop 2 st }) f.stack)
