-- ===== src/Connection/Update/Sound/Outgoing.antt =====
-- What waiting and sending keep of the received messages, and of the address of the server.
use socketforioswinandroid.Common.{
  ℕ, zero, suc, refl, inl, inr, Bool-cases, some, Option-cases, List-cases, ◌∷◌, ℤ, int_eq,
  is_positive, Yields, Yields-bind, Yields-any, negsuc,
}
use socketforioswinandroid.MessagePool.{delete_message}
use socketforioswinandroid.Network.{Network, SocketCommon}
use socketforioswinandroid.Connection.{ConnectionManager, Process, connect_timeout, check_state}
use socketforioswinandroid.Connection.Update.{
  minus, fits_int, less_time, wait_for_connection, send_message, send_loop,
}
use socketforioswinandroid.Connection.Numbers.{
  Sound, Kept, on_error-Sound, on_time_out-Sound, check_state-Sound,
}

module _ (net : Network) where
  pub waited-Sound :
      (dt : ℤ) (s : SocketCommon) (p : Process net) (c : ConnectionManager)
      → Sound net p c
      → Yields (λ r. Sound net r.0 r.1) (wait_for_connection net dt s p c)
  unfolding wait_for_connection less_time
  waited-Sound dt s p c k = elim (Bool-cases s.m_write_flag) [
    | inl writable ↦ elim (Bool-cases (int_eq connect_timeout c.m_t_out_timer)) [
      | inl first ↦ elim (Bool-cases (fits_int (minus c.m_t_out_timer dt))) [
        | inl small ↦ rw (writable, first, small) k
        | inr large ↦ rw (writable, first, large) tt
      ]
      | inr later ↦ rw (writable, later) k
    ]
    | inr silent ↦ elim (Bool-cases (fits_int (minus c.m_t_out_timer dt))) [
      | inr large ↦ rw (silent, large) tt
      | inl small ↦ elim (Bool-cases (is_positive (minus c.m_t_out_timer dt))) [
        | inl left ↦ rw (silent, small, left) k
        | inr over ↦
            rw (silent, small, over)
              (on_time_out-Sound net p (record c { m_t_out_timer = negsuc 0 }) k)
      ]
    ]
  ]

  pub send_loop-Sound :
      (inner fuel : ℕ) (p : Process net) (c : ConnectionManager)
      → Sound net p c
      → Yields (Kept net) (send_loop net inner fuel p c)
  unfolding send_loop
  send_loop-Sound inner zero p c k = tt
  send_loop-Sound inner (suc fuel) p c k = elim (Option-cases c.m_p_socket) [
    | inl gone ↦ rw gone tt
    | inr (s, up) ↦ elim (Bool-cases s.m_write_flag) [
      | inr full ↦ rw (up, full) k
      | inl free ↦ elim (List-cases c.m_send_list) [
        | inl e ↦ rw (up, free, e) k
        | inr (q, qs, e) ↦
            rw (up, free, e)
              (Yields-bind (λ _. Unit {0}) (Kept net) (send_message net inner s q.message p.world) _
                (Yields-any (send_message net inner s q.message p.world))
                λ sent _. elim (Bool-cases sent.0) [
                  | inr failed ↦ rw failed (
                      on_error-Sound net (record p { world = sent.2 })
                        (record c {
                          m_send_list = record q { message = sent.1 } ∷ qs;
                          m_p_socket = some s;
                        })
                        k)
                  | inl done ↦
                      let p' : Process net = record p {
                        world = sent.2;
                        pool = delete_message sent.1 p.pool;
                      } in
                      let c' : ConnectionManager = record c {
                        m_send_list = qs;
                        m_p_socket = some s;
                      } in
                      rw done (
                        Yields-bind (Kept net) (Kept net) (check_state net p' c')
                          (λ (_, p, c). send_loop net inner fuel p c)
                          (check_state-Sound net p' c' s refl k)
                          λ (_, p, c) k. send_loop-Sound inner fuel p c k)
                ])
      ]
    ]
  ]
