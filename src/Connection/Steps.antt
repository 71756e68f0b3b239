-- ===== src/Connection/Steps.antt =====
-- What a program can do with a connection: the calls of its operations, in any order, between which
-- the rest of the process goes on.
use socketforioswinandroid.Common.{
  ℕ, ◌≤◌, ◌<◌, ◌≡◌, refl, sym, subst, ap, ◌∙◌, inl, inr, Bool, Option-cases, List, ◌∷◌, ◌++◌,
  length, arith, ℤ, ok,
}
use socketforioswinandroid.MemBuffer.{Allocator}
use socketforioswinandroid.Network.{Network}
use socketforioswinandroid.Connection.{
  MessagePtr, ConnectionManager, Process, new_connection_manager, close, clear_cached, connect,
  reconnect, keep_alived_connection, send_msg, init_encrypt, remove_msg,
}
use socketforioswinandroid.Connection.Update.{update}
use socketforioswinandroid.Connection.Update.States.{IsConsistent}
use socketforioswinandroid.Connection.Update.Turn.{update-Moves}
use socketforioswinandroid.Connection.Update.Sound.{update-Sound}
use socketforioswinandroid.Connection.Renews.{
  Good, close-IsConsistent, connect-Good, reconnect-Good,
}
use socketforioswinandroid.Connection.Numbers.{
  IsNumbered, IsNumbered-wider, IsNumbered-remove, remove_address-Numbered, close-Sound,
  clear_cached-Sound,
}

module _ (net : Network) where
  -- One call, or a step of the rest of the process. That may be anything but an operation on this
  -- connection: it may use the operating system and the pool, and make messages.
  pub data Step (p : Process net) (c : ConnectionManager) (p' : Process net)
      (c' : ConnectionManager) : Type 0 where
    connects :
        (address : List ℕ) (port : ℤ) (opened : Bool)
        → length address < 128
        → connect net address port p c ≡ ok (opened, p', c')
        → Step p c p' c'
    reconnects : reconnect net p c ≡ ok (p', c') → Step p c p' c'
    turns :
        (a : Allocator) (inner fuel : ℕ) (dt : ℤ)
        → update net a inner fuel dt p c ≡ ok (p', c')
        → Step p c p' c'
    closes : close net p c ≡ (p', c') → Step p c p' c'
    clears : clear_cached net p c ≡ (p', c') → Step p c p' c'
    sends : (q : MessagePtr) → p ≡ p' → send_msg q c ≡ c' → Step p c p' c'
    inits : p ≡ p' → init_encrypt c ≡ c' → Step p c p' c'
    removes : (address : ℕ) → p ≡ p' → remove_msg address c ≡ c' → Step p c p' c'
    keeps_alive :
        (keepalive keepidle keepinterval keepcount rst : ℤ)
        → keep_alived_connection net keepalive keepidle keepinterval keepcount p c ≡ (rst, p')
        → c ≡ c'
        → Step p c p' c'
    works : p.next_address ≤ p'.next_address → c ≡ c' → Step p c p' c'

  -- What steps lead to from a connection that has just been made, under any name.
  pub data Reached : Process net → ConnectionManager → Type 0 where
    made :
        (p : Process net) (name : List ℕ)
        → Reached p (record new_connection_manager { m_name = name })
    goes :
        {p p' : Process net} {c c' : ConnectionManager}
        → Reached p c
        → Step p c p' c'
        → Reached p' c'

  keep_alived_connection-next_address :
      (keepalive keepidle keepinterval keepcount : ℤ) (p : Process net) (c : ConnectionManager)
      → (keep_alived_connection net keepalive keepidle keepinterval keepcount p c).1.next_address
        ≡ p.next_address
  unfolding keep_alived_connection
  keep_alived_connection-next_address keepalive keepidle keepinterval keepcount p c =
      elim (Option-cases c.m_p_socket) [ inl gone ↦ rw gone refl | inr (s, up) ↦ rw up refl ]

  works-Good :
      (p p' : Process net) (c : ConnectionManager)
      → p.next_address ≤ p'.next_address
      → Good net p c
      → Good net p' c
  works-Good p p' c more good = (
    good.0,
    (
      good.1.0,
      IsNumbered-wider 0 0 p.next_address p'.next_address c.m_recv_list (omega arith) more good.1.1,
    ),
  )

  Step-Good :
      {p p' : Process net} {c c' : ConnectionManager}
      → Step p c p' c'
      → Good net p c
      → Good net p' c'
  unfolding send_msg init_encrypt remove_msg clear_cached
  Step-Good {p} {p'} {c} {c'} (connects address port opened short e) good =
      rw e at (connect-Good net address port p c short good.1)
  Step-Good {p} {p'} {c} {c'} (reconnects e) good = rw e at (reconnect-Good net p c good)
  Step-Good {p} {p'} {c} {c'} (turns a inner fuel dt e) good = (
    (update-Moves net a inner fuel dt p p' c c' good.0 e).0,
    rw e at (update-Sound net a inner fuel dt p c good.1),
  )
  Step-Good {p} {p'} {c} {c'} (closes e) good =
      subst (λ (r : Process net × ConnectionManager). Good net r.0 r.1) e
        (close-IsConsistent net p c good.0, close-Sound net p c good.1)
  Step-Good {p} {p'} {c} {c'} (clears e) good =
      subst (λ (r : Process net × ConnectionManager). Good net r.0 r.1) e
        (good.0, clear_cached-Sound net p c good.1)
  Step-Good {p} {p'} {c} {c'} (sends q e e') good =
      works-Good p p' c' (omega (arith, ap (λ (p : Process net). p.next_address) e))
        (subst (λ c. Good net p c) e' good)
  Step-Good {p} {p'} {c} {c'} (inits e e') good =
      works-Good p p' c' (omega (arith, ap (λ (p : Process net). p.next_address) e))
        (subst (λ c. Good net p c) e' good)
  Step-Good {p} {p'} {c} {c'} (removes address e e') good =
      works-Good p p' c' (omega (arith, ap (λ (p : Process net). p.next_address) e)) (
        subst (λ c. Good net p c) e'
          (good.0, (good.1.0, IsNumbered-remove 0 p.next_address address c.m_recv_list good.1.1)))
  Step-Good {p} {p'} {c} {c'} (keeps_alive keepalive keepidle keepinterval keepcount rst e e')
        good =
      let same : p'.next_address ≡ p.next_address =
        sym (ap (λ (r : ℤ × Process net). r.1.next_address) e)
        ∙ keep_alived_connection-next_address keepalive keepidle keepinterval keepcount p c in
      works-Good p p' c' (omega (arith, same)) (subst (λ c. Good net p c) e' good)
  Step-Good {p} {p'} {c} {c'} (works more e) good =
      works-Good p p' c' more (subst (λ c. Good net p c) e good)

  -- Whatever calls have been made on a connection since it was made, in any order, with server
  -- addresses of less than 128 bytes, and whatever the rest of the process did between them: the
  -- connection has a socket in the states Connecting and Connected and in no other, the server's
  -- address fits m_server, and the addresses of the messages of m_recvList grow from its front to
  -- its back and are below the next one that a new message gets.
  pub Reached-Good :
      (p : Process net) (c : ConnectionManager)
      → Reached p c
      → IsConsistent c × ((length c.m_server < 128) × IsNumbered 0 p.next_address c.m_recv_list)
  unfolding new_connection_manager
  Reached-Good p c r = go r
    where
      go : {p : Process net} {c : ConnectionManager} → Reached p c → Good net p c
      go (made p name) = (refl, (omega arith, omega arith))
      go (goes r step) = Step-Good step (go r)

  -- Whatever has been done with a connection by calls of its operations, RemoveMsg on a message of
  -- m_recvList takes out that message and no other, and the others stay in their order.
  pub remove_msg-Reached :
      (p : Process net) (c : ConnectionManager) (front back : List MessagePtr) (q : MessagePtr)
      → Reached p c
      → c.m_recv_list ≡ front ++ (q ∷ back)
      → (remove_msg q.address c).m_recv_list ≡ front ++ back
  unfolding remove_msg
  remove_msg-Reached p c front back q r e =
      rw e
        (remove_address-Numbered 0 p.next_address front back q (rw e at (Reached-Good p c r).1.1)).1
