-- ===== src/Connection/Opens.antt =====
-- How Connect ends.
use socketforioswinandroid.Common.{
  Yields-mono, Yields, subst, ℕ, ◌<◌, ◌≡◌, refl, sym, ap, ◌∙◌, ◌⊎◌, inl, inr, Bool, true, false,
  Bool-cases, some, Option-cases, List, length, lt→ltb, ℤ, negsuc, int_eq, Returns, returns,
  Returns-mono,
}
use socketforioswinandroid.Network.{Network, SocketCommon, fits_fd_set, new_socket_common}
use socketforioswinandroid.Connection.{
  connecting, ConnectionManager, Process, connect_timeout, on_error, close, clear_cached,
  check_state, Attempt, gave_up, goes_on, try_addresses, do_connect, connect,
}
use socketforioswinandroid.Connection.Tries.{IsPosix, Fits, try_addresses-Fits}
use socketforioswinandroid.Connection.Update.{is_live}
use socketforioswinandroid.Connection.Update.States.{
  has_socket, IsConsistent, on_error-down, Checked, check_state-Checked, check_state_ends,
}

module _ (net : Network) where
  -- The connection is consistent, and the answer says whether it is being opened.
  abbrev pub Answered : Bool × Process net × ConnectionManager → Type 0
  Answered (opened, p, c) = IsConsistent c × (opened ≡ is_live c.m_net_state)

  pub Attempt-cases :
      (t : Attempt net)
      → ((s : SocketCommon) × (w : net.World) × (t ≡ gave_up s w))
        ⊎ ((s : SocketCommon) × (w : net.World) × (t ≡ goes_on s w))
  Attempt-cases (gave_up s w) = inl (s, w, refl)
  Attempt-cases (goes_on s w) = inr (s, w, refl)

  failed-Answered :
      (p : Process net) (c : ConnectionManager)
      → Answered (false, (on_error net p c).0, (on_error net p c).1)
  failed-Answered p c =
      let (gone, failed) = on_error-down net p c in
      (ap has_socket gone ∙ sym (ap is_live failed), sym (ap is_live failed))

  Checked-Answered :
      (p : Process net) (c : ConnectionManager) (r : Bool × Process net × ConnectionManager)
      → c.m_net_state ≡ connecting
      → Checked net p c r
      → Answered r
  Checked-Answered p c r now (inl (s, seen, up, same)) =
      let live : is_live r.2.m_net_state ≡ true = ap is_live (same ∙ now) in
      (ap has_socket up ∙ sym live, seen ∙ sym live)
  Checked-Answered p c r now (inr (seen, gone, failed)) =
      (ap has_socket gone ∙ sym (ap is_live failed), seen ∙ sym (ap is_live failed))

  goes_on-fits :
      IsPosix net
      → (address : List ℕ) (port : ℤ) (w0 : net.World) (addresses : List net.Address)
        (s : SocketCommon) (w : net.World)
      → (net.getaddrinfo address port w0).0 ≡ some addresses
      → try_addresses net addresses new_socket_common (net.getaddrinfo address port w0).1
        ≡ goes_on s w
      → fits_fd_set s.m_socket ≡ true
  goes_on-fits law address port w0 addresses s w found e =
      let (x, rest, split) = law.finds address port w0 addresses found in
      let fits = try_addresses-Fits net law x rest new_socket_common _ in
      subst (λ (t : Attempt net). Fits net t) (rw split at e) fits

  do_connect-Answered :
      (address : List ℕ) (port : ℤ) (p : Process net) (c : ConnectionManager)
      → IsPosix net
      → length address < 128
      → Returns Answered (do_connect net false address port p c)
  unfolding do_connect
  do_connect-Answered address port p c law short =
      rw (lt→ltb (length address) 128 short, do_connect)
        (elim (Option-cases (net.getaddrinfo address port p.world).0) [
          | inl unknown ↦
              rw unknown
                (returns (failed-Answered _ (record c { m_server = address; m_port = port })))
          | inr (addresses, found) ↦
              elim (Attempt-cases (
                try_addresses net addresses new_socket_common
                  (net.getaddrinfo address port p.world).1)) [
                    | inl (s, w, e) ↦
                        rw (found, e)
                          (returns (
                            failed-Answered (record p { world = w })
                              (record c {
                                m_server = address;
                                m_port = port;
                                m_p_socket = some s;
                              })))
                    | inr (s, w, e) ↦
                        let p' : Process net = record p { world = w } in
                        let c' : ConnectionManager = record c {
                          m_server = address;
                          m_port = port;
                          m_p_socket = some s;
                          m_net_state = connecting;
                          m_t_out_timer = connect_timeout;
                        } in
                        rw (found, e)
                          (Returns-mono
                            (check_state_ends net p' c' s refl
                              (goes_on-fits law address port p.world addresses s w found e))
                            λ r. Checked-Answered p' c' r refl)
                  ]
        ])

  -- Over a system whose descriptors are below FD_SETSIZE and whose getaddrinfo() gives an address
  -- when it succeeds, as IsPosix says: Connect to an address that fits m_server, and that stands
  -- outside of the connection, comes to an end without a fault. A socket is left just
  -- in the states Connecting and Connected, and the answer is whether the state is one of them.
  pub connect-Answered :
      (address : List ℕ) (port : ℤ) (p : Process net) (c : ConnectionManager)
      → IsPosix net
      → length address < 128
      → Returns
          (λ r. IsConsistent r.2 × (r.0 ≡ is_live r.2.m_net_state))
          (connect net address port p c)
  unfolding connect
  connect-Answered address port p c law short = elim (Bool-cases (int_eq c.m_port (negsuc 0))) [
    | inl first ↦ rw (first, connect) (do_connect-Answered address port p c law short)
    | inr again ↦
        let closed = close net p c in
        let cleared = clear_cached net closed.0 closed.1 in
        rw (again, connect) (do_connect-Answered address port cleared.0 cleared.1 law short)
  ]

  -- The same of every system, for what Connect comes to.
  do_connect_answers :
      (address : List ℕ) (port : ℤ) (p : Process net) (c : ConnectionManager)
      → length address < 128
      → Yields Answered (do_connect net false address port p c)
  unfolding do_connect
  do_connect_answers address port p c short =
      rw (lt→ltb (length address) 128 short, do_connect)
        (elim (Option-cases (net.getaddrinfo address port p.world).0) [
          | inl unknown ↦
              rw unknown (failed-Answered _ (record c { m_server = address; m_port = port }))
          | inr (addresses, found) ↦
              elim (Attempt-cases (
                try_addresses net addresses new_socket_common
                  (net.getaddrinfo address port p.world).1)) [
                    | inl (s, w, e) ↦
                        rw (found, e)
                          (failed-Answered (record p { world = w })
                            (record c { m_server = address; m_port = port; m_p_socket = some s }))
                    | inr (s, w, e) ↦
                        let p' : Process net = record p { world = w } in
                        let c' : ConnectionManager = record c {
                          m_server = address;
                          m_port = port;
                          m_p_socket = some s;
                          m_net_state = connecting;
                          m_t_out_timer = connect_timeout;
                        } in
                        rw (found, e)
                          (Yields-mono (Checked net p' c') Answered (check_state net p' c')
                            (check_state-Checked net p' c' s refl)
                            λ r. Checked-Answered p' c' r refl)
                  ]
        ])

  pub connect_answers :
      (address : List ℕ) (port : ℤ) (p : Process net) (c : ConnectionManager)
      → length address < 128
      → Yields Answered (connect net address port p c)
  unfolding connect
  connect_answers address port p c short = elim (Bool-cases (int_eq c.m_port (negsuc 0))) [
    | inl first ↦ rw (first, connect) (do_connect_answers address port p c short)
    | inr again ↦
        let closed = close net p c in
        let cleared = clear_cached net closed.0 closed.1 in
        rw (again, connect) (do_connect_answers address port cleared.0 cleared.1 short)
  ]
