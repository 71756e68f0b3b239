-- ===== src/Connection/Update/Crash.antt =====
-- What Update does after a CheckState inside its loops has failed.
use socketforioswinandroid.Common.{
  ℕ, suc, ◌≡◌, refl, ap, ◌∙◌, Bool, true, false, some, List, ◌∷◌, ℤ, ok, fault,
}
use socketforioswinandroid.MemBuffer.{Allocator}
use socketforioswinandroid.MessagePool.{delete_message}
use socketforioswinandroid.Connection.Update.Outbox.{check_state-ready}
use socketforioswinandroid.NetMessage.{NetMessage}
use socketforioswinandroid.Network.{
  look, Network, SocketCommon, Selected, ready, fits_fd_set, set_flags,
}
use socketforioswinandroid.Connection.{
  connected, MessagePtr, ConnectionManager, Process, is_error, on_error, close, check_state,
}
use socketforioswinandroid.Connection.Update.{
  is_live, is_connect_error, is_connecting, send_message, send_loop, after_check, update,
}

module _ (net : Network) where
  -- A CheckState that finds an error.
  abbrev failing : Process net → ConnectionManager → SocketCommon → Process net × ConnectionManager
  failing p c s =
      on_error net (record p { world = (net.select s.m_socket p.world).1 })
        (record c { m_p_socket = some (set_flags false false s) })

  check_state-failing :
      (p : Process net) (c : ConnectionManager) (s : SocketCommon)
      → c.m_p_socket ≡ some s
      → fits_fd_set s.m_socket ≡ true
      → is_error (net.select s.m_socket p.world).0 ≡ true
      → check_state net p c ≡ ok (false, (failing p c s).0, (failing p c s).1)
  unfolding check_state look
  check_state-failing p c s up small bad = simp (up, small, bad, check_state, look)

  -- The failed CheckState has deleted the socket.
  send_loop_crash :
      (inner fuel : ℕ) (p : Process net) (c : ConnectionManager) (s : SocketCommon) (q : MessagePtr)
      (qs : List MessagePtr) (m : NetMessage) (w : net.World)
      → c.m_p_socket ≡ some s
      → s.m_write_flag ≡ true
      → c.m_send_list ≡ q ∷ qs
      → send_message net inner s q.message p.world ≡ ok (true, m, w)
      → fits_fd_set s.m_socket ≡ true
      → is_error (net.select s.m_socket w).0 ≡ true
      → send_loop net inner (suc (suc fuel)) p c ≡ fault
  unfolding send_loop on_error close
  send_loop_crash inner fuel p c s q qs m w up free queued sent small bad =
      let p1 : Process net = record p { world = w; pool = delete_message m p.pool } in
      let c1 : ConnectionManager = record c { m_send_list = qs } in
      rw (up, free, queued, sent, check_state-failing p1 c1 s up small bad, send_loop) refl

  -- A turn of an open connection, whose descriptor is below FD_SETSIZE, that finds its socket
  -- writable and sends the first message whole, and whose next call of select() reports an error,
  -- reads through the null pointer that OnError has left.
  pub update_crash :
      (a : Allocator) (inner fuel : ℕ) (dt : ℤ) (p : Process net) (c : ConnectionManager)
      (s : SocketCommon) (q : MessagePtr) (qs : List MessagePtr) (m : NetMessage) (read : Bool)
      (w0 w : net.World)
      → c.m_p_socket ≡ some s
      → c.m_net_state ≡ connected
      → c.m_send_list ≡ q ∷ qs
      → net.select s.m_socket p.world ≡ (ready false true read, w0)
      → send_message net inner (set_flags true read s) q.message w0 ≡ ok (true, m, w)
      → fits_fd_set s.m_socket ≡ true
      → is_error (net.select s.m_socket w).0 ≡ true
      → update net a inner (suc (suc fuel)) dt p c ≡ fault
  unfolding update after_check look set_flags
  update_crash a inner fuel dt p c s q qs m read w0 w up now queued seen sent small bad =
      let sees : look net s.m_socket p.world ≡ some (ready false true read) =
        simp (small, look) (ap (λ (r : Selected × net.World). some r.0) seen) in
      let s1 = set_flags true read s in
      let p1 : Process net = record p { world = w0 } in
      let c1 : ConnectionManager = record c { m_p_socket = some s1 } in
      let checked : check_state net p c ≡ ok (true, p1, c1) =
        check_state-ready net p c s true read up sees
        ∙ ap (λ (r : Selected × net.World). ok (true, record p { world = r.1 }, c1)) seen in
      let crash = send_loop_crash inner fuel p1 c1 s1 q qs m w refl refl queued sent small bad in
      let live : is_live c.m_net_state ≡ true = ap is_live now in
      let well : is_connect_error c.m_net_state ≡ false = ap is_connect_error now in
      let begun : is_connecting c.m_net_state ≡ false = ap is_connecting now in
      simp (up, live, well, begun, checked, crash, update, after_check)
