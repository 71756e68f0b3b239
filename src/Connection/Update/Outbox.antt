-- ===== src/Connection/Update/Outbox.antt =====
-- The loop of Update over m_sendList: a whole queue of messages goes to the socket.
use socketforioswinandroid.Common.{
  ℕ, zero, suc, ◌+◌, ◌^◌, ◌<◌, ◌≡◌, refl, sym, ap, ◌∙◌, Bool, true, false, some, List, [], ◌∷◌,
  ◌++◌, append_assoc, append-nil, length, length-append, ℤ, arith, ok, Returns, returns,
  Returns-mono, Returns-value,
}
use socketforioswinandroid.NetMessage.{NetMessage}
use socketforioswinandroid.NetMessage.Frame.{head_of, encode_frame}
use socketforioswinandroid.NetMessage.Frame.Send.{Framed}
use socketforioswinandroid.MessagePool.{delete_message}
use socketforioswinandroid.Network.{look, Network, SocketCommon, ready, set_flags}
use socketforioswinandroid.Connection.{MessagePtr, ConnectionManager, Process, check_state}
use socketforioswinandroid.Connection.Update.{send_loop, send_message}
use socketforioswinandroid.Connection.Update.Delivery.{IsSending, send_message-Framed}

-- The frames of some bodies, one behind the other.
abbrev pub stream : List (List ℕ) → List ℕ
stream [] = []
stream (body ∷ bodies) = encode_frame body ++ stream bodies

-- The messages of a queue are ready to be sent, and hold these bodies.
pub data Queued : List (List ℕ) → List MessagePtr → Type 0 where
  nothing : Queued [] []
  another :
      {body : List ℕ} {rest : List (List ℕ)} {q : MessagePtr} {others : List MessagePtr}
      → Framed body q.message
      → 6 + length body < 2 ^ 31
      → Queued rest others
      → Queued (body ∷ rest) (q ∷ others)

-- A connected socket on which select() finds room to write, and which it leaves as it is.
pub record IsWritable (net : Network) (fd : ℤ) (log : net.World → List ℕ) : Type 0 where
  pub has_bytes : net.World → Bool
  pub seen : (w : net.World) → look net fd w ≡ some (ready false true (has_bytes w))
  pub quiet : (w : net.World) → log (net.select fd w).1 ≡ log w

-- What CheckState does when select() finds no error.
pub check_state-ready :
    (net : Network) (p : Process net) (c : ConnectionManager) (s : SocketCommon) (write read : Bool)
    → c.m_p_socket ≡ some s
    → look net s.m_socket p.world ≡ some (ready false write read)
    → check_state net p c
      ≡ ok (
        true,
        record p { world = (net.select s.m_socket p.world).1 },
        record c { m_p_socket = some (set_flags write read s) },
      )
unfolding check_state
check_state-ready net p c s write read up seen = rw (up, seen, check_state) refl

module _ (net : Network) (fd : ℤ) (log : net.World → List ℕ) where
  -- What the loop leaves of a connection, once the bytes are with the socket.
  pub record Sent (p : Process net) (c : ConnectionManager) (bytes : List ℕ)
      (r : Bool × Process net × ConnectionManager) : Type 0 where
    pub goes_on : r.0 ≡ true
    pub none_left : r.2.m_send_list ≡ []
    pub logged : log r.1.world ≡ log p.world ++ bytes
    pub socket : SocketCommon
    pub up : r.2.m_p_socket ≡ some socket
    pub same_descriptor : socket.m_socket ≡ fd
    pub same_state : r.2.m_net_state ≡ c.m_net_state
    pub same_received : r.2.m_recv_list ≡ c.m_recv_list

module _ (net : Network) (fd : ℤ) (log : net.World → List ℕ) (sending : IsSending net fd log)
    (room : IsWritable net fd log) where
  -- A round of the loop, whose message comes to its end.
  send_loop-round :
      (inner fuel : ℕ) (p : Process net) (c : ConnectionManager) (s : SocketCommon) (q : MessagePtr)
      (qs : List MessagePtr) (m : NetMessage) (w : net.World)
      → c.m_p_socket ≡ some s
      → s.m_write_flag ≡ true
      → c.m_send_list ≡ q ∷ qs
      → s.m_socket ≡ fd
      → send_message net inner s q.message p.world ≡ ok (true, m, w)
      → send_loop net inner (suc fuel) p c
        ≡ send_loop net inner fuel
            (record p { world = (net.select s.m_socket w).1; pool = delete_message m p.pool })
            (record c { m_send_list = qs; m_p_socket = some (set_flags true (room.has_bytes w) s) })
  unfolding send_loop
  send_loop-round inner fuel p c s q qs m w up free queue same sent =
      let p1 : Process net = record p { world = w; pool = delete_message m p.pool } in
      let c1 : ConnectionManager = record c { m_send_list = qs } in
      let checked =
        check_state-ready net p1 c1 s true (room.has_bytes w) up (rw same (room.seen w)) in
      rw (up, free, queue, sent, checked, send_loop) refl

  send_loop-done :
      (inner fuel : ℕ) (p : Process net) (c : ConnectionManager) (s : SocketCommon)
      → c.m_p_socket ≡ some s
      → c.m_send_list ≡ []
      → s.m_write_flag ≡ true
      → send_loop net inner (suc fuel) p c ≡ ok (true, p, c)
  unfolding send_loop
  send_loop-done inner fuel p c s up queue free = simp (up, free, queue, send_loop)

  loop_over :
      (inner fuel : ℕ) (bodies : List (List ℕ)) (qs : List MessagePtr) (p : Process net)
      (c : ConnectionManager) (s : SocketCommon)
      → Queued bodies qs
      → c.m_send_list ≡ qs
      → c.m_p_socket ≡ some s
      → s.m_socket ≡ fd
      → s.m_write_flag ≡ true
      → length bodies < fuel
      → length (stream bodies) < inner
      → Returns (Sent net fd log p c (stream bodies)) (send_loop net inner fuel p c)
  unfolding send_loop set_flags
  loop_over inner zero bodies qs p c s queued queue up same free rounds enough =
      absurd (omega arith)
  loop_over inner (suc fuel) bodies qs p c s nothing queue up same free rounds enough =
      rw (send_loop-done inner fuel p c s up queue free) (
        returns (record {
          goes_on = refl;
          none_left = queue;
          logged = sym (append-nil (log p.world));
          socket = s;
          up = up;
          same_descriptor = same;
          same_state = refl;
          same_received = refl;
        }))
  loop_over inner (suc fuel) bodies qs p c s
        (another {body} {rest} {q} {others} framed small queued) queue up same free rounds enough =
      let size : length (encode_frame body) ≡ q.message.m_head_size + length body =
        length-append (head_of (length body)) body ∙ ap (λ n. n + length body) (sym framed.head) in
      let total : length (encode_frame body ++ stream rest)
          ≡ length (encode_frame body) + length (stream rest) =
        length-append (encode_frame body) (stream rest) in
      let sends : IsSending net s.m_socket log = rw same sending in
      let (r, sent, (finished, ended, logged)) = Returns-value (
        send_message-Framed net s log sends inner body q.message p.world framed small
          (omega (arith, size, total, enough))) in
      let whole = sent ∙ ap (λ d. ok (d, r.1, r.2)) finished in
      rw (send_loop-round inner fuel p c s q others r.1 r.2 up free queue same whole) (
        Returns-mono
          (loop_over inner fuel rest others _ _ (set_flags true (room.has_bytes r.2) s) queued refl
            refl same refl (omega arith) (omega (arith, total, enough)))
          λ r' after. record {
            goes_on = after.goes_on;
            none_left = after.none_left;
            logged =
                after.logged
                ∙ ap (λ t. t ++ stream rest) (rw same (room.quiet r.2) ∙ logged)
                ∙ append_assoc (log p.world) (encode_frame body) (stream rest);
            socket = after.socket;
            up = after.up;
            same_descriptor = after.same_descriptor;
            same_state = after.same_state;
            same_received = after.same_received;
          })

  -- A socket that takes a byte at least at each call, and on which select() goes on finding room to
  -- write and no error; messages that are ready to be sent; a round for each of them and one more,
  -- and for each a round for each byte of all the frames and one more: the loop comes to its end
  -- with every message sent. What the socket has taken is the frames of the bodies in the order of
  -- the queue, behind what it had taken before. The socket, the state and m_recvList are kept.
  pub send_loop-Queued :
      (inner fuel : ℕ) (bodies : List (List ℕ)) (p : Process net) (c : ConnectionManager)
      (s : SocketCommon)
      → Queued bodies c.m_send_list
      → c.m_p_socket ≡ some s
      → s.m_socket ≡ fd
      → s.m_write_flag ≡ true
      → length bodies < fuel
      → length (stream bodies) < inner
      → Returns (Sent net fd log p c (stream bodies)) (send_loop net inner fuel p c)
  send_loop-Queued inner fuel bodies p c s queued up same free rounds enough =
      loop_over inner fuel bodies c.m_send_list p c s queued refl up same free rounds enough
