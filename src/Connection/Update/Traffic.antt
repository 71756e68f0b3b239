-- ===== src/Connection/Update/Traffic.antt =====
-- The loops of Update leave a connection open, or failed.
use socketforioswinandroid.Common.{
  ℕ, zero, suc, ◌≡◌, refl, ◌∙◌, ◌⊎◌, inl, inr, Bool, true, false, Bool-cases, Option, none, some,
  List-cases, List, [], ◌∷◌, ◌++◌, is_negative, pos_part, ok, Yields, Yields-bind, Yields-mono,
  Yields-any,
}
use socketforioswinandroid.MemBuffer.{Allocator}
use socketforioswinandroid.NetMessage.{get_read_cap}
use socketforioswinandroid.NetMessage.Frame.Receive.{receive_chunk}
use socketforioswinandroid.MessagePool.{delete_message}
use socketforioswinandroid.Network.{Network, SocketCommon, recv}
use socketforioswinandroid.Connection.{
  MessagePtr, connect_error, connected, ConnectionManager, Process, check_state,
}
use socketforioswinandroid.Connection.Update.{
  send_message, send_loop, take_in, open_message, recv_round, recv_loop,
}
use socketforioswinandroid.Connection.Update.States.{on_error-down, Checked, check_state-Checked}

module _ (net : Network) where
  -- An open connection that goes on, or that has failed.
  abbrev pub Running : ConnectionManager → Type 0
  Running c =
      ((s : SocketCommon) × (c.m_p_socket ≡ some s) × (c.m_net_state ≡ connected))
      ⊎ ((c.m_p_socket ≡ none) × (c.m_net_state ≡ connect_error))

  abbrev pub Goes : Bool × Process net × ConnectionManager → Type 0
  Goes (more, p, c) = Running c

  check_state-Running :
      (p : Process net) (c : ConnectionManager) (s : SocketCommon)
      → c.m_p_socket ≡ some s
      → c.m_net_state ≡ connected
      → Yields Goes (check_state net p c)
  check_state-Running p c s up now =
      Yields-mono (Checked net p c) Goes (check_state net p c) (check_state-Checked net p c s up)
        λ (seen, p', c') checked. elim checked [
          | inl (s', _, up', same) ↦ inl (s', up', same ∙ now)
          | inr (_, gone, failed) ↦ inr (gone, failed)
        ]

  pub send_loop-Running :
      (inner fuel : ℕ) (p : Process net) (c : ConnectionManager)
      → Running c
      → Yields Goes (send_loop net inner fuel p c)
  unfolding send_loop
  send_loop-Running inner zero p c r = tt
  send_loop-Running inner (suc fuel) p c (inr (gone, now)) = rw gone tt
  send_loop-Running inner (suc fuel) p c (inl (s, up, now)) = elim (Bool-cases s.m_write_flag) [
    | inr full ↦ rw (up, full) (inl (s, refl, now))
    | inl free ↦ elim (List-cases c.m_send_list) [
      | inl e ↦ rw (up, free, e) (inl (s, refl, now))
      | inr (q, qs, e) ↦
          rw (up, free, e)
            (Yields-bind (λ _. Unit {0}) Goes (send_message net inner s q.message p.world) _
              (Yields-any (send_message net inner s q.message p.world))
              λ sent _. elim (Bool-cases sent.0) [
                | inr failed ↦ rw failed (
                    inr (
                      on_error-down net (record p { world = sent.2 })
                        (record c {
                          m_send_list = record q { message = sent.1 } ∷ qs;
                          m_p_socket = some s;
                        })))
                | inl done ↦
                    let p' : Process net = record p {
                      world = sent.2;
                      pool = delete_message sent.1 p.pool;
                    } in
                    let c' : ConnectionManager = record c {
                      m_send_list = qs;
                      m_p_socket = some s;
                    } in
                    rw done (
                      Yields-bind Goes Goes (check_state net p' c')
                        (λ (_, p, c). send_loop net inner fuel p c)
                        (check_state-Running p' c' s refl now)
                        λ (_, p, c) r. send_loop-Running inner fuel p c r)
              ])
    ]
  ]

  take_in-Running :
      (a : Allocator) (front : List MessagePtr) (q : MessagePtr) (answer : Option (List ℕ))
      (p : Process net) (c : ConnectionManager) (s : SocketCommon)
      → c.m_p_socket ≡ some s
      → c.m_net_state ≡ connected
      → Yields Goes (take_in net a front q answer p c)
  unfolding take_in
  take_in-Running a front q none p c s up now =
      inr (on_error-down net p (record c { m_recv_list = front ++ (q ∷ []) }))
  take_in-Running a front q (some []) p c s up now =
      inr (on_error-down net p (record c { m_recv_list = front ++ (q ∷ []) }))
  take_in-Running a front q (some (b ∷ bs)) p c s up now =
      Yields-bind (λ _. Unit {0}) Goes (receive_chunk a (b ∷ bs) _) _ (Yields-any _)
        λ m _.
          let c' : ConnectionManager = record c {
            m_recv_list = front ++ (record q { message = m } ∷ []);
          } in
          Yields-bind Goes Goes (check_state net p c') (λ (_, p, c). ok (true, p, c))
            (check_state-Running p c' s up now) λ (_, p, c) r. r

  recv_round-Running :
      (a : Allocator) (s s' : SocketCommon) (opened : List MessagePtr × MessagePtr × Process net)
      (c : ConnectionManager)
      → c.m_p_socket ≡ some s
      → c.m_net_state ≡ connected
      → Yields Goes (recv_round net a s' opened c)
  unfolding recv_round
  recv_round-Running a s s' (front, q, p) c up now =
      elim (Bool-cases (is_negative (get_read_cap q.message))) [
        | inl huge ↦ rw huge tt
        | inr small ↦ rw small (
            take_in-Running a front q (recv net (pos_part (get_read_cap q.message)) s' p.world).0 _
              c s up now)
      ]

  pub recv_loop-Running :
      (a : Allocator) (fuel : ℕ) (p : Process net) (c : ConnectionManager)
      → Running c
      → Yields Goes (recv_loop net a fuel p c)
  unfolding recv_loop
  recv_loop-Running a zero p c r = tt
  recv_loop-Running a (suc fuel) p c (inr (gone, now)) = rw gone tt
  recv_loop-Running a (suc fuel) p c (inl (s, up, now)) = elim (Bool-cases s.m_read_flag) [
    | inr empty ↦ rw (up, empty) (inl (s, refl, now))
    | inl waiting ↦
        let c' : ConnectionManager = record c { m_p_socket = some s } in
        rw (up, waiting)
          (Yields-bind Goes Goes (recv_round net a s (open_message net a p c.m_recv_list) c')
            (λ (more, p, c). elim more [
              | false ↦ ok (false, p, c)
              | true ↦ recv_loop net a fuel p c
            ])
            (recv_round-Running a s s (open_message net a p c.m_recv_list) c' refl now)
            λ r running. elim (Bool-cases r.0) [
              | inr over ↦ rw over running
              | inl more ↦ rw more (recv_loop-Running a fuel r.1 r.2 running)
            ])
  ]
