-- ===== src/Connection/Returned.antt =====
-- What becomes of the buffers of a connection that is deleted.
use socketforioswinandroid.Common.{
  ◌≡◌, refl, sym, ap, ◌∙◌, inl, inr, true, Option-cases, List, [], ◌∷◌,
}
use socketforioswinandroid.NetMessage.{NetMessage}
use socketforioswinandroid.MessagePool.{MessageBufPool, release, delete_message, delete_messages}
use socketforioswinandroid.MessagePool.Order.{insert-perm}
use socketforioswinandroid.MessagePool.Bag.{
  of_list, of_list_sound, add_all, add_all-nil, add_all-cons,
}
use socketforioswinandroid.MessagePool.Account.{held}
use socketforioswinandroid.Network.{Network}
use socketforioswinandroid.Connection.{
  ConnectionManager, Process, messages, close, clear_cached, delete_connection,
}

delete_message_bag :
    (m : NetMessage) (p : MessageBufPool)
    → p.m_has_init ≡ true
    → ((delete_message m p).m_has_init ≡ true)
      × (of_list (delete_message m p).m_pool ≡ of_list (m.m_buffer ∷ p.m_pool))
unfolding delete_message release
delete_message_bag m p live = rw live (refl, of_list_sound (insert-perm m.m_buffer p.m_pool))

delete_messages_bag :
    (ms : List NetMessage) (p : MessageBufPool)
    → p.m_has_init ≡ true
    → ((delete_messages ms p).m_has_init ≡ true)
      × (of_list (delete_messages ms p).m_pool ≡ add_all (held ms) (of_list p.m_pool))
unfolding delete_messages
delete_messages_bag [] p live = (live, sym (add_all-nil (of_list p.m_pool)))
delete_messages_bag (m ∷ ms) p live =
    let (still, one) = delete_message_bag m p live in
    let (live', rest) = delete_messages_bag ms (delete_message m p) still in
    (live', rest ∙ (ap (add_all (held ms)) one ∙ sym (add_all-cons m.m_buffer (held ms) p.m_pool)))

module _ (net : Network) where
  close-pool : (p : Process net) (c : ConnectionManager) → (close net p c).0.pool ≡ p.pool
  unfolding close
  close-pool p c = elim (Option-cases c.m_p_socket) [
    | inl gone ↦ rw gone refl
    | inr (s, up) ↦ rw up refl
  ]

  close-messages :
      (p : Process net) (c : ConnectionManager)
      → ((close net p c).1.m_send_list ≡ c.m_send_list)
        × ((close net p c).1.m_recv_list ≡ c.m_recv_list)
  unfolding close
  close-messages p c = elim (Option-cases c.m_p_socket) [
    | inl gone ↦ rw gone (refl, refl)
    | inr (s, up) ↦ rw up (refl, refl)
  ]

  clear_cached_bag :
      (p : Process net) (c : ConnectionManager)
      → p.pool.m_has_init ≡ true
      → of_list (clear_cached net p c).0.pool.m_pool
        ≡ add_all
            (held (messages c.m_recv_list))
            (add_all (held (messages c.m_send_list)) (of_list p.pool.m_pool))
  unfolding clear_cached
  clear_cached_bag p c live =
      let (still, sent) = delete_messages_bag (messages c.m_send_list) p.pool live in
      let (_, received) =
        delete_messages_bag (messages c.m_recv_list)
          (delete_messages (messages c.m_send_list) p.pool) still in
      received ∙ ap (add_all (held (messages c.m_recv_list))) sent

  -- While the pool lives: when a connection is deleted, the free buffers are, but for their order,
  -- those that were free and those of all the messages in its two queues.
  pub delete_connection-Returned :
      (p : Process net) (c : ConnectionManager)
      → p.pool.m_has_init ≡ true
      → of_list (delete_connection net p c).pool.m_pool
        ≡ add_all
            (held (messages c.m_recv_list))
            (add_all (held (messages c.m_send_list)) (of_list p.pool.m_pool))
  unfolding delete_connection
  delete_connection-Returned p c live =
      let (p', c') = close net p c in
      let pool = close-pool p c in
      let (sending, receiving) = close-messages p c in
      clear_cached_bag p' c' (ap (λ (p : MessageBufPool). p.m_has_init) pool ∙ live)
      ∙ (ap
            (λ l.
              add_all (held (messages l))
                (add_all (held (messages c'.m_send_list)) (of_list p'.pool.m_pool)))
            receiving
          ∙ (ap
                (λ l.
                  add_all (held (messages c.m_recv_list))
                    (add_all (held (messages l)) (of_list p'.pool.m_pool)))
                sending
              ∙ ap
                  (λ (pool : MessageBufPool).
                    add_all (held (messages c.m_recv_list))
                      (add_all (held (messages c.m_send_list)) (of_list pool.m_pool)))
                  pool))
