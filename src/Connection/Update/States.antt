-- ===== src/Connection/Update/States.antt =====
-- The states that Update moves between, and the socket that goes with them.
use socketforioswinandroid.Common.{
  ◌≡◌, refl, sym, ap, ◌∙◌, ◌⊎◌, inl, inr, Bool, true, false, Bool-cases, Option, none, some,
  Option-cases, ℤ, negsuc, int_eq, is_positive, Returns, returns, Yields, Returns-Yields,
}
use socketforioswinandroid.Network.{Network, SocketCommon, look, fits_fd_set}
use socketforioswinandroid.Connection.{
  NetConState, connecting, connect_time_out, connect_error, connected, ConnectionManager, Process,
  connect_timeout, is_error, close, on_error, on_time_out, on_success, check_state,
}
use socketforioswinandroid.Connection.Update.{
  is_live, minus, fits_int, less_time, wait_for_connection,
}

-- The moves of the connection in one turn.
pub data Moves : NetConState → NetConState → Type 0 where
  stays : {s : NetConState} → Moves s s
  opens : Moves connecting connected
  times_out : Moves connecting connect_time_out
  fails : {s : NetConState} → is_live s ≡ true → Moves s connect_error

abbrev pub has_socket : Option SocketCommon → Bool
has_socket none = false
has_socket (some s) = true

-- A socket is there in the states Connecting and Connected, and in no other.
abbrev pub IsConsistent : ConnectionManager → Type 0
IsConsistent c = has_socket c.m_p_socket ≡ is_live c.m_net_state

module _ (net : Network) (p : Process net) where
  pub on_error-down :
      (c : ConnectionManager)
      → ((on_error net p c).1.m_p_socket ≡ none)
        × ((on_error net p c).1.m_net_state ≡ connect_error)
  unfolding on_error close
  on_error-down c = elim (Option-cases c.m_p_socket) [
    | inl e ↦ rw e (refl, refl)
    | inr (s, e) ↦ rw e (refl, refl)
  ]

  on_time_out-down :
      (c : ConnectionManager)
      → ((on_time_out net p c).1.m_p_socket ≡ none)
        × ((on_time_out net p c).1.m_net_state ≡ connect_time_out)
  unfolding on_time_out close
  on_time_out-down c = elim (Option-cases c.m_p_socket) [
    | inl e ↦ rw e (refl, refl)
    | inr (s, e) ↦ rw e (refl, refl)
  ]

  -- CheckState keeps the state and the socket, or puts the connection into the state ConnectError.
  abbrev pub Checked : ConnectionManager → Bool × Process net × ConnectionManager → Type 0
  Checked c (seen, p', c') =
      ((s : SocketCommon) × (seen ≡ true)
        × (c'.m_p_socket ≡ some s)
        × (c'.m_net_state ≡ c.m_net_state))
      ⊎ ((seen ≡ false) × (c'.m_p_socket ≡ none) × (c'.m_net_state ≡ connect_error))

  pub check_state-Checked :
      (c : ConnectionManager) (s : SocketCommon)
      → c.m_p_socket ≡ some s
      → Yields (Checked c) (check_state net p c)
  unfolding check_state
  check_state-Checked c s e = rw e (elim (Option-cases (look net s.m_socket p.world)) [
    | inl beside ↦ rw (beside, check_state) tt
    | inr (seen, e') ↦ elim (Bool-cases (is_error seen)) [
      | inl bad ↦ rw (e', bad, check_state) (inr (refl, refl, refl))
      | inr good ↦ rw (e', good, check_state) (inl (_, refl, refl, refl))
    ]
  ])

  pub check_state-timer :
      (c : ConnectionManager) (s : SocketCommon)
      → c.m_p_socket ≡ some s
      → Yields (λ r. r.2.m_t_out_timer ≡ c.m_t_out_timer) (check_state net p c)
  unfolding check_state on_error close
  check_state-timer c s e = rw e (elim (Option-cases (look net s.m_socket p.world)) [
    | inl beside ↦ rw (beside, check_state) tt
    | inr (seen, e') ↦ elim (Bool-cases (is_error seen)) [
      | inl bad ↦ rw (e', bad, check_state) refl
      | inr good ↦ rw (e', good, check_state) refl
    ]
  ])

  -- On a descriptor that FD_SET takes it comes to an end.
  pub check_state_ends :
      (c : ConnectionManager) (s : SocketCommon)
      → c.m_p_socket ≡ some s
      → fits_fd_set s.m_socket ≡ true
      → Returns (Checked c) (check_state net p c)
  unfolding check_state look
  check_state_ends c s e small =
      simp (e, small, check_state, look)
        (elim (Bool-cases (is_error (net.select s.m_socket p.world).0)) [
          | inl bad ↦ rw bad (returns (inr (refl, refl, refl)))
          | inr good ↦ rw good (returns (inl (_, refl, refl, refl)))
        ])

-- The part of Update for the state Connecting: it waits, or opens the connection, or times out.
module _ (net : Network) (dt : ℤ) (s : SocketCommon) (p : Process net) (c : ConnectionManager) where
  abbrev pub UnderWay : Process net × ConnectionManager → Type 0
  UnderWay (p, c) = IsConsistent c × Moves connecting c.m_net_state

  waits_on :
      (timer : ℤ)
      → c.m_p_socket ≡ some s
      → c.m_net_state ≡ connecting
      → UnderWay (p, record c { m_t_out_timer = timer })
  waits_on timer up now = (ap has_socket up ∙ sym (ap is_live now), rw now stays)

  given_up : UnderWay (on_time_out net p (record c { m_t_out_timer = negsuc 0 }))
  given_up =
      let (gone, stopped) = on_time_out-down net p (record c { m_t_out_timer = negsuc 0 }) in
      (ap has_socket gone ∙ sym (ap is_live stopped), rw stopped times_out)

  pub waited-Moves :
      c.m_p_socket ≡ some s
      → c.m_net_state ≡ connecting
      → fits_int (minus c.m_t_out_timer dt) ≡ true
      → Returns UnderWay (wait_for_connection net dt s p c)
  unfolding wait_for_connection on_success less_time
  waited-Moves up now small = elim (Bool-cases s.m_write_flag) [
    | inl writable ↦ elim (Bool-cases (int_eq connect_timeout c.m_t_out_timer)) [
      | inl first ↦
          rw (writable, first, small) (returns (waits_on (minus c.m_t_out_timer dt) up now))
      | inr later ↦ rw (writable, later) (returns (ap has_socket up, opens))
    ]
    | inr silent ↦ elim (Bool-cases (is_positive (minus c.m_t_out_timer dt))) [
      | inl left ↦ rw (silent, small, left) (returns (waits_on (minus c.m_t_out_timer dt) up now))
      | inr over ↦ rw (silent, small, over) (returns given_up)
    ]
  ]

  pub waited-Yields :
      c.m_p_socket ≡ some s
      → c.m_net_state ≡ connecting
      → Yields UnderWay (wait_for_connection net dt s p c)
  unfolding wait_for_connection on_success less_time
  waited-Yields up now = elim (Bool-cases (fits_int (minus c.m_t_out_timer dt))) [
    | inl small ↦ Returns-Yields _ (waited-Moves up now small)
    | inr large ↦ elim (Bool-cases s.m_write_flag) [
      | inl writable ↦ elim (Bool-cases (int_eq connect_timeout c.m_t_out_timer)) [
        | inl first ↦ rw (writable, first, large) tt
        | inr later ↦ rw (writable, later) (ap has_socket up, opens)
      ]
      | inr silent ↦ rw (silent, large) tt
    ]
  ]
