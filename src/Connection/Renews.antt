-- ===== src/Connection/Renews.antt =====
-- What Connect, ReConnect and Close keep of a connection.
use socketforioswinandroid.Common.{
  Yields-both, false, ℕ, ◌<◌, refl, inl, inr, Bool-cases, some, Option-cases, List, length, lt→ltb,
  ℤ, negsuc, int_eq, Yields,
}
use socketforioswinandroid.Network.{Network, new_socket_common}
use socketforioswinandroid.Connection.{
  connecting, ConnectionManager, Process, connect_timeout, close, clear_cached, try_addresses,
  do_connect, connect, reconnect,
}
use socketforioswinandroid.Connection.Update.States.{IsConsistent}
use socketforioswinandroid.Connection.Opens.{Attempt-cases, Answered, connect_answers}
use socketforioswinandroid.Connection.Numbers.{
  Sound, Kept, close-Sound, on_error-Sound, check_state-Sound, clear_cached-Sound,
}

module _ (net : Network) where
  -- A socket is there in the states Connecting and Connected, and in no other; the server's address
  -- fits m_server; the addresses of the received messages grow, below the next one.
  abbrev pub Good : Process net → ConnectionManager → Type 0
  Good p c = IsConsistent c × Sound net p c

  do_connect-Sound :
      (address : List ℕ) (port : ℤ) (p : Process net) (c : ConnectionManager)
      → length address < 128
      → Sound net p c
      → Yields (Kept net) (do_connect net false address port p c)
  unfolding do_connect
  do_connect-Sound address port p c short k =
      rw (lt→ltb (length address) 128 short, do_connect)
        (elim (Option-cases (net.getaddrinfo address port p.world).0) [
          | inl unknown ↦ rw unknown (
              on_error-Sound net (record p { world = (net.getaddrinfo address port p.world).1 })
                (record c { m_server = address; m_port = port }) (short, k.1))
          | inr (addresses, found) ↦
              elim (Attempt-cases net (
                try_addresses net addresses new_socket_common
                  (net.getaddrinfo address port p.world).1)) [
                    | inl (s, w, e) ↦
                        rw (found, e)
                          (on_error-Sound net (record p { world = w })
                            (record c { m_server = address; m_port = port; m_p_socket = some s })
                            (short, k.1))
                    | inr (s, w, e) ↦
                        let p' : Process net = record p { world = w } in
                        let c' : ConnectionManager = record c {
                          m_server = address;
                          m_port = port;
                          m_p_socket = some s;
                          m_net_state = connecting;
                          m_t_out_timer = connect_timeout;
                        } in
                        rw (found, e) (check_state-Sound net p' c' s refl (short, k.1))
                  ]
        ])

  connect-Sound :
      (address : List ℕ) (port : ℤ) (p : Process net) (c : ConnectionManager)
      → length address < 128
      → Sound net p c
      → Yields (Kept net) (connect net address port p c)
  unfolding connect
  connect-Sound address port p c short k = elim (Bool-cases (int_eq c.m_port (negsuc 0))) [
    | inl first ↦ rw (first, connect) (do_connect-Sound address port p c short k)
    | inr again ↦
        let closed = close net p c in
        let cleared = clear_cached net closed.0 closed.1 in
        rw (again, connect)
          (do_connect-Sound address port cleared.0 cleared.1 short
            (clear_cached-Sound net closed.0 closed.1 (close-Sound net p c k)))
  ]

  pub connect-Good :
      (address : List ℕ) (port : ℤ) (p : Process net) (c : ConnectionManager)
      → length address < 128
      → Sound net p c
      → Yields (λ r. Good r.1 r.2) (connect net address port p c)
  connect-Good address port p c short k =
      Yields-both (Answered net) (Kept net) (connect net address port p c) (λ r. Good r.1 r.2)
        (connect_answers net address port p c short) (connect-Sound address port p c short k)
        λ r answered kept. (answered.0, kept)

  pub close-IsConsistent :
      (p : Process net) (c : ConnectionManager) → IsConsistent c → IsConsistent (close net p c).1
  unfolding close
  close-IsConsistent p c fit = elim (Option-cases c.m_p_socket) [
    | inl gone ↦ rw gone (rw gone at fit)
    | inr (s, up) ↦ rw up refl
  ]

  -- ReConnect comes to a value only before the first Connect.
  pub reconnect-Good :
      (p : Process net) (c : ConnectionManager)
      → Good p c
      → Yields (λ r. Good r.0 r.1) (reconnect net p c)
  unfolding reconnect do_connect
  reconnect-Good p c good = elim (Bool-cases (int_eq c.m_port (negsuc 0))) [
    | inl never ↦ rw (never, reconnect) good
    | inr before ↦ rw (before, reconnect) tt
  ]
