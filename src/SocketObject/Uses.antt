-- ===== src/SocketObject/Uses.antt =====
-- What the methods of a SocketObject, and of a message that a script holds, do with its connection.
use socketforioswinandroid.Common.{
  ℕ, ◌≤◌, ◌<◌, ◌≡◌, refl, ap, subst, inl, inr, Bool, none, Option-cases, List, length, arith, ℤ, ok,
  Yields, Yields-bind, Yields-value,
}
use socketforioswinandroid.MemBuffer.{Allocator}
use socketforioswinandroid.Network.{Network}
use socketforioswinandroid.Connection.{
  MessagePtr, Process, connect, reconnect, send_msg, remove_msg,
}
use socketforioswinandroid.Connection.Update.{update}
use socketforioswinandroid.Connection.Steps.{
  Reached, made, goes, connects, reconnects, turns, closes, clears, sends, inits, removes,
  keeps_alive, works, Reached-Good,
}
use socketforioswinandroid.Connection.Update.States.{IsConsistent}
use socketforioswinandroid.SocketObject.{
  SocketObject, named_connection, get_connection, hold, has_pending_msg, init_pike,
  close_connection, restart, connect_to_server, keep_alived_object, reconnect_to_server,
  update_net_msg,
}

module _ (net : Network) where
  -- One call of a method. `sends` and `loads` are what SendMsg and LoadMsg of CLuaMsg do with the
  -- object, and `works` is a step of the rest of the process.
  pub data Use (p : Process net) (o : SocketObject) (p' : Process net) (o' : SocketObject)
      : Type 0 where
    connects_to :
        (address : List ℕ) (port : ℤ) (success : Bool)
        → length address < 128
        → connect_to_server net address port p o ≡ ok (success, p', o')
        → Use p o p' o'
    reconnects_to : reconnect_to_server net p o ≡ ok (p', o') → Use p o p' o'
    updates :
        (a : Allocator) (inner fuel : ℕ) (dt : ℤ)
        → update_net_msg net a inner fuel dt p o ≡ ok (p', o')
        → Use p o p' o'
    closes_connection : close_connection net p o ≡ (p', o') → Use p o p' o'
    restarts : restart net p o ≡ (p', o') → Use p o p' o'
    stays_alive :
        (keepalive keepidle keepinterval keepcount rst : ℤ)
        → keep_alived_object net keepalive keepidle keepinterval keepcount p o ≡ (rst, p', o')
        → Use p o p' o'
    asks : (answer : Bool) → p ≡ p' → has_pending_msg o ≡ (answer, o') → Use p o p' o'
    inits_pike : p ≡ p' → init_pike o ≡ o' → Use p o p' o'
    sends_msg :
        (q : MessagePtr) → p ≡ p' → hold (send_msg q (get_connection o)) o ≡ o' → Use p o p' o'
    loads_msg :
        (address : ℕ) → p ≡ p' → hold (remove_msg address (get_connection o)) o ≡ o' → Use p o p' o'
    works_on : p.next_address ≤ p'.next_address → o ≡ o' → Use p o p' o'

  -- What the methods lead to from an object that has just been made, under any name.
  pub data Used : Process net → SocketObject → Type 0 where
    fresh :
        (p : Process net) (address : ℕ) (name : List ℕ)
        → Used p
            (record { address = address; m_p_connection_mgr = none; m_socket_object_name = name })
    used : {p p' : Process net} {o o' : SocketObject} → Used p o → Use p o p' o' → Used p' o'

  abbrev Held : Process net → SocketObject → Type 0
  Held p o = Reached net p (get_connection o)

  connected-Held :
      (address : List ℕ) (port : ℤ) (p : Process net) (o : SocketObject)
      → length address < 128
      → Held p o
      → Yields (λ r. Held r.1 r.2) (connect_to_server net address port p o)
  unfolding connect_to_server get_connection hold
  connected-Held address port p o short h =
      Yields-bind (λ r. Reached net r.1 r.2) (λ r. Held r.1 r.2)
        (connect net address port p (get_connection o)) _
        (Yields-value (connect net address port p (get_connection o))
          λ r e. goes h (connects address port r.0 short e))
        λ r reached. reached

  reconnected-Held :
      (p : Process net) (o : SocketObject)
      → Held p o
      → Yields (λ r. Held r.0 r.1) (reconnect_to_server net p o)
  unfolding reconnect_to_server get_connection hold
  reconnected-Held p o h =
      Yields-bind (λ r. Reached net r.0 r.1) (λ r. Held r.0 r.1)
        (reconnect net p (get_connection o)) _
        (Yields-value (reconnect net p (get_connection o)) λ r e. goes h (reconnects e))
        λ r reached. reached

  updated-Held :
      (a : Allocator) (inner fuel : ℕ) (dt : ℤ) (p : Process net) (o : SocketObject)
      → Held p o
      → Yields (λ r. Held r.0 r.1) (update_net_msg net a inner fuel dt p o)
  unfolding update_net_msg get_connection hold
  updated-Held a inner fuel dt p o h =
      Yields-bind (λ r. Reached net r.0 r.1) (λ r. Held r.0 r.1)
        (update net a inner fuel dt p (get_connection o)) _
        (Yields-value (update net a inner fuel dt p (get_connection o))
          λ r e. goes h (turns a inner fuel dt e))
        λ r reached. reached

  closed-Held :
      (p : Process net) (o : SocketObject)
      → Held p o
      → Held (close_connection net p o).0 (close_connection net p o).1
  unfolding close_connection get_connection hold
  closed-Held p o h = goes (goes h (closes refl)) (clears refl)

  restarted-Held :
      (p : Process net) (o : SocketObject) → Held (restart net p o).0 (restart net p o).1
  unfolding restart get_connection hold named_connection
  restarted-Held p o = elim (Option-cases o.m_p_connection_mgr) [
    | inl e ↦ rw (e, restart) (made p o.m_socket_object_name)
    | inr (c, e) ↦ rw (e, restart) (made _ o.m_socket_object_name)
  ]

  Use-Held : {p p' : Process net} {o o' : SocketObject} → Use p o p' o' → Held p o → Held p' o'
  unfolding keep_alived_object has_pending_msg init_pike get_connection hold
  Use-Held {p} {p'} {o} {o'} (connects_to address port success short e) h =
      rw e at (connected-Held address port p o short h)
  Use-Held {p} {p'} {o} {o'} (reconnects_to e) h = rw e at (reconnected-Held p o h)
  Use-Held {p} {p'} {o} {o'} (updates a inner fuel dt e) h =
      rw e at (updated-Held a inner fuel dt p o h)
  Use-Held {p} {p'} {o} {o'} (closes_connection e) h =
      subst (λ (r : Process net × SocketObject). Held r.0 r.1) e (closed-Held p o h)
  Use-Held {p} {p'} {o} {o'} (restarts e) h =
      subst (λ (r : Process net × SocketObject). Held r.0 r.1) e (restarted-Held p o)
  Use-Held {p} {p'} {o} {o'} (stays_alive keepalive keepidle keepinterval keepcount rst e) h =
      subst (λ (r : ℤ × Process net × SocketObject). Held r.1 r.2) e
        (goes h (keeps_alive keepalive keepidle keepinterval keepcount _ refl refl))
  Use-Held {p} {p'} {o} {o'} (asks answer e e') h =
      goes (subst (λ (r : Bool × SocketObject). Held p r.1) e' h)
        (works (omega (arith, ap (λ (p : Process net). p.next_address) e)) refl)
  Use-Held {p} {p'} {o} {o'} (inits_pike e e') h = subst (λ o. Held p' o) e' (goes h (inits e refl))
  Use-Held {p} {p'} {o} {o'} (sends_msg q e e') h =
      subst (λ o. Held p' o) e' (goes h (sends q e refl))
  Use-Held {p} {p'} {o} {o'} (loads_msg address e e') h =
      subst (λ o. Held p' o) e' (goes h (removes address e refl))
  Use-Held {p} {p'} {o} {o'} (works_on more e) h =
      subst (λ o. Held p' o) e (goes h (works more refl))

  -- Whatever methods of an object are called, and SendMsg and LoadMsg with it, in any order: its
  -- connection is one that calls of the connection's own operations lead to, and it has a socket in
  -- the states Connecting and Connected and in no other.
  pub Used-Reached :
      (p : Process net) (o : SocketObject)
      → Used p o
      → Reached net p (get_connection o) × IsConsistent (get_connection o)
  unfolding get_connection hold named_connection
  Used-Reached p o u =
      let reached = go u in (reached, (Reached-Good net p (get_connection o) reached).0)
    where
      go : {p : Process net} {o : SocketObject} → Used p o → Held p o
      go (fresh p address name) = made p name
      go (used u step) = Use-Held step (go u)
