-- ===== src/Connection/Update/Sound.antt =====
-- What Update keeps of the received messages, and of the address of the server.
mod Outgoing
use socketforioswinandroid.Common.{
  ℕ, zero, suc, ◌+◌, ◌<◌, ◌≡◌, refl, ap, inl, inr, true, false, Bool-cases, Option, none, some,
  Option-cases, List, List-cases, [], ◌∷◌, ◌++◌, length, arith, ℤ, int_eq, is_positive, is_negative,
  pos_part, ok, Yields, Yields-bind, Yields-any, negsuc, ◌⊎◌,
}
use socketforioswinandroid.MemBuffer.{Allocator}
use socketforioswinandroid.NetMessage.{is_end, get_read_cap}
use socketforioswinandroid.NetMessage.Frame.Receive.{receive_chunk}
use socketforioswinandroid.MessagePool.{create_message, delete_message}
use socketforioswinandroid.Network.{Network, SocketCommon, recv}
use socketforioswinandroid.Connection.{
  MessagePtr, ConnectionManager, Process, connect_timeout, check_state,
}
use socketforioswinandroid.Connection.Update.{
  is_live, is_connecting, is_connect_error, minus, split_back, wait_for_connection, send_message,
  send_loop, open_message, take_in, recv_round, recv_loop, after_check, update,
}
use socketforioswinandroid.Connection.Numbers.{
  IsNumbered, IsNumbered-last, IsNumbered-changed, Sound, Kept, on_error-Sound, on_time_out-Sound,
  check_state-Sound,
}
use socketforioswinandroid.Connection.Update.Sound.Outgoing.{waited-Sound, send_loop-Sound}

-- The last message is one of the list.
split_back-split :
    (qs : List MessagePtr)
    → ((qs ≡ []) × (split_back qs ≡ none))
      ⊎ ((front : List MessagePtr) × (back : MessagePtr) × (split_back qs ≡ some (front, back))
          × (qs ≡ front ++ (back ∷ [])))
unfolding split_back
split_back-split [] = inl (refl, refl)
split_back-split (q ∷ qs) = elim (split_back-split qs) [
  | inl (e, none_left) ↦ inr ([], q, rw (e, split_back) refl, rw e refl)
  | inr (front, back, e, e') ↦ inr (q ∷ front, back, rw (e, split_back) refl, ap (λ l. q ∷ l) e')
]

module _ (net : Network) where
  -- The message that a round goes on with stands at the back of a numbered list.
  abbrev Opened : List MessagePtr × MessagePtr × Process net → Type 0
  Opened (front, q, p) = IsNumbered 0 p.next_address (front ++ (q ∷ []))

  open_message-Opened :
      (a : Allocator) (p : Process net) (qs : List MessagePtr)
      → IsNumbered 0 p.next_address qs
      → Opened (open_message net a p qs)
  unfolding open_message
  open_message-Opened a p qs k = elim (split_back-split qs) [
    | inl (e, e') ↦ rw (e', open_message) (new_one p qs k)
    | inr (front, back, e', e) ↦ elim (Bool-cases (is_end back.message)) [
      | inl whole ↦ rw (e', whole, open_message) (new_one p qs k)
      | inr part ↦ rw (e', part, open_message) (rw e at k)
    ]
  ]
    where
      new_one :
          (p : Process net) (qs : List MessagePtr)
          → IsNumbered 0 p.next_address qs
          → IsNumbered 0 (p.next_address + 1) (
              qs
              ++ (record { address = p.next_address; message = (create_message a 512 p.pool).0 }
                  ∷ []))
      new_one p qs k =
          IsNumbered-last 0 p.next_address qs
            (record { address = p.next_address; message = (create_message a 512 p.pool).0 })
            (omega arith) k

  -- recv() and everything after it keep the address at which the message stands.
  take_in-Sound :
      (a : Allocator) (front : List MessagePtr) (q : MessagePtr) (answer : Option (List ℕ))
      (p : Process net) (c : ConnectionManager) (s : SocketCommon)
      → c.m_p_socket ≡ some s
      → length c.m_server < 128
      → Opened (front, q, p)
      → Yields (Kept net) (take_in net a front q answer p c)
  unfolding take_in
  take_in-Sound a front q none p c s up short k =
      on_error-Sound net p (record c { m_recv_list = front ++ (q ∷ []) }) (short, k)
  take_in-Sound a front q (some []) p c s up short k =
      on_error-Sound net p (record c { m_recv_list = front ++ (q ∷ []) }) (short, k)
  take_in-Sound a front q (some (b ∷ bs)) p c s up short k =
      Yields-bind (λ _. Unit {0}) (Kept net) (receive_chunk a (b ∷ bs) _) _ (Yields-any _)
        λ m _.
          let c' : ConnectionManager = record c {
            m_recv_list = front ++ (record q { message = m } ∷ []);
          } in
          Yields-bind (Kept net) (Kept net) (check_state net p c') _
            (check_state-Sound net p c' s up
              (short, IsNumbered-changed 0 p.next_address front q m k))
            λ (_, p, c) k. k

  recv_round-Sound :
      (a : Allocator) (s s' : SocketCommon) (opened : List MessagePtr × MessagePtr × Process net)
      (c : ConnectionManager)
      → c.m_p_socket ≡ some s
      → length c.m_server < 128
      → Opened opened
      → Yields (Kept net) (recv_round net a s' opened c)
  unfolding recv_round
  recv_round-Sound a s s' (front, q, p) c up short k =
      elim (Bool-cases (is_negative (get_read_cap q.message))) [
        | inl huge ↦ rw huge tt
        | inr small ↦ rw small (
            take_in-Sound a front q (recv net (pos_part (get_read_cap q.message)) s' p.world).0 _ c
              s up short k)
      ]

  recv_loop-Sound :
      (a : Allocator) (fuel : ℕ) (p : Process net) (c : ConnectionManager)
      → Sound net p c
      → Yields (Kept net) (recv_loop net a fuel p c)
  unfolding recv_loop
  recv_loop-Sound a zero p c k = tt
  recv_loop-Sound a (suc fuel) p c k = elim (Option-cases c.m_p_socket) [
    | inl gone ↦ rw gone tt
    | inr (s, up) ↦ elim (Bool-cases s.m_read_flag) [
      | inr empty ↦ rw (up, empty) k
      | inl waiting ↦
          let c' : ConnectionManager = record c { m_p_socket = some s } in
          rw (up, waiting)
            (Yields-bind (Kept net) (Kept net)
              (recv_round net a s (open_message net a p c.m_recv_list) c')
              (λ (more, p, c). elim more [
                | false ↦ ok (false, p, c)
                | true ↦ recv_loop net a fuel p c
              ])
              (recv_round-Sound a s s (open_message net a p c.m_recv_list) c' refl k.0
                (open_message-Opened a p c.m_recv_list k.1))
              λ r kept. elim (Bool-cases r.0) [
                | inr over ↦ rw over kept
                | inl more ↦ rw more (recv_loop-Sound a fuel r.1 r.2 kept)
              ])
    ]
  ]

  after_check-Sound :
      (a : Allocator) (inner fuel : ℕ) (dt : ℤ) (p : Process net) (c : ConnectionManager)
      → Sound net p c
      → Yields (λ r. Sound net r.0 r.1) (after_check net a inner fuel dt p c)
  unfolding after_check
  after_check-Sound a inner fuel dt p c k = elim (Bool-cases (is_connect_error c.m_net_state)) [
    | inl failed ↦ rw failed k
    | inr well ↦ elim (Bool-cases (is_connecting c.m_net_state)) [
      | inl waits ↦ elim (Option-cases c.m_p_socket) [
        | inl gone ↦ rw (well, waits, gone) tt
        | inr (s, up) ↦ rw (well, waits, up) (waited-Sound net dt s p c k)
      ]
      | inr begun ↦
          rw (well, begun)
            (Yields-bind (Kept net) (λ r. Sound net r.0 r.1) (send_loop net inner fuel p c) _
              (send_loop-Sound net inner fuel p c k)
              λ sent kept. elim (Bool-cases sent.0) [
                | inr over ↦ rw over kept
                | inl more ↦ rw more (
                    Yields-bind (Kept net) (λ r. Sound net r.0 r.1)
                      (recv_loop net a fuel sent.1 sent.2) _
                      (recv_loop-Sound a fuel sent.1 sent.2 kept) λ _ kept. kept)
              ])
    ]
  ]

  pub update-Sound :
      (a : Allocator) (inner fuel : ℕ) (dt : ℤ) (p : Process net) (c : ConnectionManager)
      → Sound net p c
      → Yields (λ r. Sound net r.0 r.1) (update net a inner fuel dt p c)
  unfolding update
  update-Sound a inner fuel dt p c k = elim (Option-cases c.m_p_socket) [
    | inl gone ↦ rw gone k
    | inr (s, up) ↦ elim (Bool-cases (is_live c.m_net_state)) [
      | inr idle ↦ rw (up, idle) k
      | inl live ↦
          let c' : ConnectionManager = record c { m_p_socket = some s } in
          rw (up, live)
            (Yields-bind (Kept net) (λ r. Sound net r.0 r.1) (check_state net p c')
              (λ (_, p, c). after_check net a inner fuel dt p c)
              (check_state-Sound net p c' s refl k)
              λ (_, p, c) kept. after_check-Sound a inner fuel dt p c kept)
    ]
  ]
