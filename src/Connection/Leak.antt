-- ===== src/Connection/Leak.antt =====
-- The descriptors that Connect leaves open when addresses refuse.
use socketforioswinandroid.Common.{
  pos, ℕ, ◌<◌, ◌≡◌, refl, ap, ◌∙◌, inl, inr, Bool, true, false, Bool-cases, none, some, List, ◌∷◌,
  ◌++◌, if◌then◌else◌, length, lt→ltb, arith, ℤ, negsuc, int_eq, Returns, returns, Returns-mono,
}
use socketforioswinandroid.Network.{
  Network, SocketCommon, look, fits_fd_set, set_flags, new_socket_common, close_socket,
}
use socketforioswinandroid.Connection.Update.States.{on_error-down}
use socketforioswinandroid.Connection.{
  connecting, ConnectionManager, Process, connect_timeout, is_error, on_error, close, check_state,
  do_connect, connect,
}
use socketforioswinandroid.Connection.Counting.{
  IsCounting, remove_descriptor, AllRefuse, try_addresses-Opened,
}

int_eq_self : (fd : ℤ) → int_eq fd fd ≡ true
int_eq_self (pos n) = ground arith
int_eq_self (negsuc n) = ground arith

remove_first : (fd : ℤ) (others : List ℤ) → remove_descriptor fd (fd ∷ others) ≡ others
remove_first fd others =
    ap (λ b. if b then others else fd ∷ remove_descriptor fd others) (int_eq_self fd)

module _ (net : Network) (opened : net.World → List ℤ) (refuses : net.Address → Bool)
    (law : IsCounting net opened refuses) where
  close_some :
      (p : Process net) (c : ConnectionManager) (s : SocketCommon) (others : List ℤ)
      → c.m_p_socket ≡ some s
      → opened p.world ≡ s.m_socket ∷ others
      → opened (close net p c).0.world ≡ others
  unfolding close close_socket
  close_some p c s others up there =
      rw (up, close)
        (law.one_less s.m_socket p.world
          ∙ ap (remove_descriptor s.m_socket) there
          ∙ remove_first s.m_socket others)

  close_none :
      (p : Process net) (c : ConnectionManager)
      → c.m_p_socket ≡ none
      → opened (close net p c).0.world ≡ opened p.world
  unfolding close
  close_none p c gone = rw (gone, close) refl

  -- What is open when the connection is closed after that.
  abbrev Closing : List ℤ → Bool × Process net × ConnectionManager → Type 0
  Closing l r = opened (close net r.1 r.2).0.world ≡ l

  check_state-Closing :
      (p : Process net) (c : ConnectionManager) (s : SocketCommon) (others : List ℤ)
      → c.m_p_socket ≡ some s
      → fits_fd_set s.m_socket ≡ true
      → opened p.world ≡ s.m_socket ∷ others
      → Returns (Closing others) (check_state net p c)
  unfolding check_state look on_error set_flags
  check_state-Closing p c s others up small there =
      let w = (net.select s.m_socket p.world).1 in
      let p' : Process net = record p { world = w } in
      let kept : opened w ≡ s.m_socket ∷ others = law.select_keeps s.m_socket p.world ∙ there in
      simp (up, small, check_state, look)
        (elim (Bool-cases (is_error (net.select s.m_socket p.world).0)) [
          | inl bad ↦
              let s' = set_flags false false s in
              let c' : ConnectionManager = record c { m_p_socket = some s' } in
              let (p'', c'') = on_error net p' c' in
              rw bad (
                returns (
                  close_none p'' c'' (on_error-down net p' c').0
                  ∙ close_some p' c' s' others refl kept))
          | inr good ↦ rw good (
              returns (
                close_some p' (record c { m_p_socket = some (set_flags _ _ s) }) (set_flags _ _ s)
                  others refl kept))
        ])

  -- Over a system that opens and closes descriptors as IsCounting says: the address of the server
  -- fits m_server and has not been set before, and its addresses are some that refuse and then one
  -- that does not. Connect comes to an end, and when the connection is closed after that, one
  -- descriptor for each address that refused is still open beside those that were open before.
  pub connect-Leak :
      (front rest : List net.Address) (good : net.Address) (address : List ℕ) (port : ℤ)
      (p : Process net) (c : ConnectionManager)
      → length address < 128
      → int_eq c.m_port (negsuc 0) ≡ true
      → (net.getaddrinfo address port p.world).0 ≡ some (front ++ (good ∷ rest))
      → AllRefuse net refuses front
      → refuses good ≡ false
      → Returns
          (λ r.
            (left : List ℤ) × (opened (close net r.1 r.2).0.world ≡ left ++ opened p.world)
            × (length left ≡ length front))
          (connect net address port p c)
  unfolding connect do_connect
  connect-Leak front rest good address port p c short first found h taken =
      let w = (net.getaddrinfo address port p.world).1 in
      let (s, w', left, e, small, there, n) =
        try_addresses-Opened net opened refuses law front rest good new_socket_common w h taken in
      let p' : Process net = record p { world = w' } in
      let c' : ConnectionManager = record c {
        m_server = address;
        m_port = port;
        m_p_socket = some s;
        m_net_state = connecting;
        m_t_out_timer = connect_timeout;
      } in
      rw (first, lt→ltb (length address) 128 short, found, e, connect, do_connect)
        (Returns-mono (check_state-Closing p' c' s (left ++ opened w) refl small there) λ r closed.
          (left, closed ∙ ap (λ l. left ++ l) (law.lookup_keeps address port p.world), n))
