-- ===== src/Connection/Update/Turn.antt =====
-- Where one turn of Update takes a connection.
use socketforioswinandroid.Common.{
  ℕ, ◌≡◌, refl, sym, ap, ◌∙◌, inl, inr, true, false, Bool-cases, none, some, Option-cases, ℤ, ok,
  Returns, returns, Returns-bind, Returns-both, Yields, Yields-bind, Returns-Yields,
}
use socketforioswinandroid.MemBuffer.{Allocator}
use socketforioswinandroid.Network.{Network, SocketCommon, fits_fd_set}
use socketforioswinandroid.Connection.{
  NetConState, connecting, connect_time_out, connect_error, connected, disconnected,
  ConnectionManager, Process, check_state,
}
use socketforioswinandroid.Connection.Update.{
  is_live, is_connecting, is_connect_error, minus, fits_int, send_loop, recv_loop, after_check,
  update,
}
use socketforioswinandroid.Connection.Update.States.{
  Moves, stays, fails, has_socket, IsConsistent, Checked, check_state-Checked, check_state_ends,
  check_state-timer, waited-Moves, waited-Yields,
}
use socketforioswinandroid.Connection.Update.Traffic.{
  Running, Goes, send_loop-Running, recv_loop-Running,
}

module _ (net : Network) where
  -- What a turn leaves of a connection in the state `s`.
  abbrev Turned : NetConState → Process net × ConnectionManager → Type 0
  Turned s (p, c) = IsConsistent c × Moves s c.m_net_state

  Running-Turned :
      (p : Process net) (c : ConnectionManager) → Running net c → Turned connected (p, c)
  Running-Turned p c (inl (s, up, now)) = (ap has_socket up ∙ sym (ap is_live now), rw now stays)
  Running-Turned p c (inr (gone, now)) =
      (ap has_socket gone ∙ sym (ap is_live now), rw now (fails refl))

  loops-Turned :
      (a : Allocator) (inner fuel : ℕ) (dt : ℤ) (p : Process net) (c : ConnectionManager)
      → c.m_net_state ≡ connected
      → Running net c
      → Yields (Turned connected) (after_check net a inner fuel dt p c)
  unfolding after_check
  loops-Turned a inner fuel dt p c now r =
      let well : is_connect_error c.m_net_state ≡ false = ap is_connect_error now in
      let begun : is_connecting c.m_net_state ≡ false = ap is_connecting now in
      rw (well, begun)
        (Yields-bind (Goes net) (Turned connected) (send_loop net inner fuel p c) _
          (send_loop-Running net inner fuel p c r)
          λ sent running. elim (Bool-cases sent.0) [
            | inr over ↦ rw over (Running-Turned sent.1 sent.2 running)
            | inl more ↦ rw more (
                Yields-bind (Goes net) (Turned connected) (recv_loop net a fuel sent.1 sent.2) _
                  (recv_loop-Running net a fuel sent.1 sent.2 running)
                  λ (_, p, c) r. Running-Turned p c r)
          ])

  failed-Turned :
      (a : Allocator) (inner fuel : ℕ) (dt : ℤ) (s : NetConState) (p : Process net)
      (c : ConnectionManager)
      → is_live s ≡ true
      → c.m_p_socket ≡ none
      → c.m_net_state ≡ connect_error
      → Returns (Turned s) (after_check net a inner fuel dt p c)
  unfolding after_check
  failed-Turned a inner fuel dt s p c live gone now =
      let failed : is_connect_error c.m_net_state ≡ true = ap is_connect_error now in
      rw failed (returns (ap has_socket gone ∙ sym (ap is_live now), rw now (fails live)))

  waited-Turned :
      (a : Allocator) (inner fuel : ℕ) (dt : ℤ) (p : Process net) (c : ConnectionManager)
      (s : SocketCommon)
      → c.m_p_socket ≡ some s
      → c.m_net_state ≡ connecting
      → fits_int (minus c.m_t_out_timer dt) ≡ true
      → Returns (Turned connecting) (after_check net a inner fuel dt p c)
  unfolding after_check
  waited-Turned a inner fuel dt p c s up now small =
      let well : is_connect_error c.m_net_state ≡ false = ap is_connect_error now in
      let waits : is_connecting c.m_net_state ≡ true = ap is_connecting now in
      rw (well, waits, up) (waited-Moves net dt s p c up now small)

  waited_Turned :
      (a : Allocator) (inner fuel : ℕ) (dt : ℤ) (p : Process net) (c : ConnectionManager)
      (s : SocketCommon)
      → c.m_p_socket ≡ some s
      → c.m_net_state ≡ connecting
      → Yields (Turned connecting) (after_check net a inner fuel dt p c)
  unfolding after_check
  waited_Turned a inner fuel dt p c s up now =
      let well : is_connect_error c.m_net_state ≡ false = ap is_connect_error now in
      let waits : is_connecting c.m_net_state ≡ true = ap is_connecting now in
      rw (well, waits, up) (waited-Yields net dt s p c up now)

  -- A turn of a connection that is being opened, whose descriptor is below FD_SETSIZE, comes to an
  -- end without a fault if m_tOutTimer less dt is an integer of 32 bits.
  -- It leaves the connection in the state Connecting or moves it to Connected, ConnectTimeOut or
  -- ConnectError; and a socket is left just in the states Connecting and Connected.
  pub update-connecting :
      (a : Allocator) (inner fuel : ℕ) (dt : ℤ) (p : Process net) (c : ConnectionManager)
      → IsConsistent c
      → c.m_net_state ≡ connecting
      → ((s : SocketCommon) → c.m_p_socket ≡ some s → fits_fd_set s.m_socket ≡ true)
      → fits_int (minus c.m_t_out_timer dt) ≡ true
      → Returns
          (λ r. IsConsistent r.1 × Moves connecting r.1.m_net_state)
          (update net a inner fuel dt p c)
  unfolding update
  update-connecting a inner fuel dt p c fit now below small = elim (Option-cases c.m_p_socket) [
    | inl gone ↦ absurd (cc (fit, gone, now))
    | inr (s, up) ↦
        let live : is_live c.m_net_state ≡ true = ap is_live now in
        let c' : ConnectionManager = record c { m_p_socket = some s } in
        rw (up, live)
          (Returns-bind
            (Returns-both (check_state_ends net p c' s refl (below s up))
              (check_state-timer net p c' s refl))
            λ r (checked, kept). elim checked [
              | inl (s', _, up', same) ↦
                  waited-Turned a inner fuel dt r.1 r.2 s' up' (same ∙ now)
                    (ap (λ t. fits_int (minus t dt)) kept ∙ small)
              | inr (_, gone, failed) ↦
                  failed-Turned a inner fuel dt connecting r.1 r.2 refl gone failed
            ])
  ]

  update_opening :
      (a : Allocator) (inner fuel : ℕ) (dt : ℤ) (p : Process net) (c : ConnectionManager)
      → IsConsistent c
      → c.m_net_state ≡ connecting
      → Yields (Turned connecting) (update net a inner fuel dt p c)
  unfolding update
  update_opening a inner fuel dt p c fit now = elim (Option-cases c.m_p_socket) [
    | inl gone ↦ absurd (cc (fit, gone, now))
    | inr (s, up) ↦
        let live : is_live c.m_net_state ≡ true = ap is_live now in
        let c' : ConnectionManager = record c { m_p_socket = some s } in
        rw (up, live)
          (Yields-bind (Checked net p c') (Turned connecting) (check_state net p c')
            (λ (_, p, c). after_check net a inner fuel dt p c) (check_state-Checked net p c' s refl)
            λ r checked. elim checked [
              | inl (s', _, up', same) ↦ waited_Turned a inner fuel dt r.1 r.2 s' up' (same ∙ now)
              | inr (_, gone, failed) ↦
                  Returns-Yields (after_check net a inner fuel dt r.1 r.2)
                    (failed-Turned a inner fuel dt connecting r.1 r.2 refl gone failed)
            ])
  ]

  update-connected :
      (a : Allocator) (inner fuel : ℕ) (dt : ℤ) (p : Process net) (c : ConnectionManager)
      → IsConsistent c
      → c.m_net_state ≡ connected
      → Yields (Turned connected) (update net a inner fuel dt p c)
  unfolding update
  update-connected a inner fuel dt p c fit now = elim (Option-cases c.m_p_socket) [
    | inl gone ↦ absurd (cc (fit, gone, now))
    | inr (s, up) ↦
        let live : is_live c.m_net_state ≡ true = ap is_live now in
        let c' : ConnectionManager = record c { m_p_socket = some s } in
        rw (up, live)
          (Yields-bind (Checked net p c') (Turned connected) (check_state net p c')
            (λ (_, p, c). after_check net a inner fuel dt p c) (check_state-Checked net p c' s refl)
            λ r checked. elim checked [
              | inl (s', _, up', same) ↦
                  loops-Turned a inner fuel dt r.1 r.2 (same ∙ now) (inl (s', up', same ∙ now))
              | inr (_, gone, failed) ↦
                  Returns-Yields (after_check net a inner fuel dt r.1 r.2)
                    (failed-Turned a inner fuel dt connected r.1 r.2 refl gone failed)
            ])
  ]

  update_idle :
      (a : Allocator) (inner fuel : ℕ) (dt : ℤ) (p : Process net) (c : ConnectionManager)
      → IsConsistent c
      → is_live c.m_net_state ≡ false
      → update net a inner fuel dt p c ≡ ok (p, c)
  unfolding update
  update_idle a inner fuel dt p c fit idle = elim (Option-cases c.m_p_socket) [
    | inl gone ↦ rw gone refl
    | inr (s, up) ↦ absurd (cc (fit, idle, up))
  ]

  -- If a connection has a socket just in the states Connecting and Connected, so it has after a
  -- turn that comes to a value, and the turn takes the state only where the state machine of the
  -- connection can go.
  pub update-Moves :
      (a : Allocator) (inner fuel : ℕ) (dt : ℤ) (p p' : Process net) (c c' : ConnectionManager)
      → IsConsistent c
      → update net a inner fuel dt p c ≡ ok (p', c')
      → IsConsistent c' × Moves c.m_net_state c'.m_net_state
  update-Moves a inner fuel dt p p' c c' fit turn = rw turn at (go c.m_net_state refl)
    where
      idle :
          (s : NetConState)
          → c.m_net_state ≡ s
          → is_live s ≡ false
          → Yields (Turned s) (update net a inner fuel dt p c)
      idle s e stopped =
          rw (update_idle a inner fuel dt p c fit (ap is_live e ∙ stopped)) (fit, rw e stays)

      go :
          (s : NetConState) → c.m_net_state ≡ s → Yields (Turned s) (update net a inner fuel dt p c)
      go connecting e = update_opening a inner fuel dt p c fit e
      go connected e = update-connected a inner fuel dt p c fit e
      go connect_time_out e = idle connect_time_out e refl
      go connect_error e = idle connect_error e refl
      go disconnected e = idle disconnected e refl
