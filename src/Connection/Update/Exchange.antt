-- ===== src/Connection/Update/Exchange.antt =====
-- A turn of Update on a connection that works.
use socketforioswinandroid.Common.{
  ℕ, ◌<◌, ◌≡◌, refl, sym, ap, ◌∙◌, true, false, not, some, List, [], ◌++◌, length, ◌==◌, ℤ, Returns,
  returns, Returns-bind, Returns-mono, Returns-both,
}
use socketforioswinandroid.MemBuffer.{Allocator, IsAllocator, HasMemory}
use socketforioswinandroid.MessagePool.Fresh.{AllBlocks}
use socketforioswinandroid.Network.{Network, SocketCommon, ready, look, set_flags}
use socketforioswinandroid.Connection.{connected, MessagePtr, ConnectionManager, Process}
use socketforioswinandroid.Connection.Update.{
  is_live, is_connecting, is_connect_error, after_check, update,
}
use socketforioswinandroid.Connection.Update.Delivery.{IsSending}
use socketforioswinandroid.Connection.Update.Outbox.{
  IsWritable, Queued, nothing, another, stream, check_state-ready, send_loop-Queued,
}
use socketforioswinandroid.Connection.Update.Inbox.{IsReadable, Delivered, IsClosed, AllShort}
use socketforioswinandroid.Connection.Update.Inbox.Drain.{recv_loop-Delivered}
use socketforioswinandroid.Connection.Update.Keeps.{HoldBlocks, send_loop-Steady, recv_loop-GoesOn}

-- A socket that sends and receives, each without a trace in the other direction: `log` is what it
-- has taken, and `pending` what the peer has sent and recv() has not delivered.
pub record IsDuplex (net : Network) (fd : ℤ) (log pending : net.World → List ℕ) : Type 0 where
  pub sending : IsSending net fd log
  pub readable : IsReadable net fd pending
  pub room : (w : net.World) → readable.has_room w ≡ true
  pub send_keeps : (bytes : List ℕ) (w : net.World) → pending (net.send fd bytes w).1 ≡ pending w
  pub recv_keeps : (cap : ℕ) (w : net.World) → log (net.recv fd cap w).1 ≡ log w
  pub select_keeps : (w : net.World) → log (net.select fd w).1 ≡ log w

Queued-HoldBlocks :
    (bodies : List (List ℕ)) (qs : List MessagePtr) → Queued bodies qs → HoldBlocks qs
Queued-HoldBlocks bodies qs nothing = tt
Queued-HoldBlocks bodies qs (another framed small queued) =
    (framed.block, Queued-HoldBlocks _ _ queued)

module _ (net : Network) (log pending : net.World → List ℕ) where
  -- What the turn leaves: everything sent, everything received.
  pub record Exchanged (p : Process net) (c : ConnectionManager) (outgoing incoming : List (List ℕ))
      (r : Process net × ConnectionManager) : Type 0 where
    pub all_sent : r.1.m_send_list ≡ []
    pub logged : log r.0.world ≡ log p.world ++ stream outgoing
    pub all_read : pending r.0.world ≡ []
    pub received : List MessagePtr
    pub list : r.1.m_recv_list ≡ c.m_recv_list ++ received
    pub delivered : Delivered incoming received
    pub same_state : r.1.m_net_state ≡ connected

module _ (net : Network) (a : Allocator) (law : IsAllocator a) (memory : HasMemory a) (fd : ℤ)
    (log pending : net.World → List ℕ) (duplex : IsDuplex net fd log pending) where
  abbrev writable_duplex : IsWritable net fd log
  writable_duplex = record {
    has_bytes = λ w. not (length (pending w) == 0);
    seen = λ w.
        duplex.readable.seen w
        ∙ ap (λ r. some (ready false r (not (length (pending w) == 0)))) (duplex.room w);
    quiet = duplex.select_keeps;
  }

  -- Behind the first CheckState.
  after_check-Exchanged :
      (inner fuel : ℕ) (dt : ℤ) (outgoing incoming : List (List ℕ)) (p : Process net)
      (c : ConnectionManager) (s : SocketCommon)
      → c.m_p_socket ≡ some s
      → s.m_socket ≡ fd
      → s.m_write_flag ≡ true
      → s.m_read_flag ≡ not (length (stream incoming) == 0)
      → c.m_net_state ≡ connected
      → Queued outgoing c.m_send_list
      → IsClosed c.m_recv_list
      → pending p.world ≡ stream incoming
      → AllShort incoming
      → AllBlocks p.pool.m_pool
      → length outgoing < fuel
      → length (stream outgoing) < inner
      → length (stream incoming) < fuel
      → Returns
          (Exchanged net log pending p c outgoing incoming)
          (after_check net a inner fuel dt p c)
  unfolding after_check
  after_check-Exchanged inner fuel dt outgoing incoming p c s up same free flag now queued closed
        waiting short blocks rounds enough drained =
      let well : is_connect_error c.m_net_state ≡ false = ap is_connect_error now in
      let begun : is_connecting c.m_net_state ≡ false = ap is_connecting now in
      let there = not (length (stream incoming) == 0) in
      let unread : net.World → Type 0 = λ w. pending w ≡ stream incoming in
      let sees : (w : net.World) → unread w → look net fd w ≡ some (ready false true there) =
        λ w e. writable_duplex.seen w ∙ ap (λ l. some (ready false true (not (length l == 0)))) e in
      let sent =
        send_loop-Queued net fd log duplex.sending writable_duplex inner fuel outgoing p c s queued
          up same free rounds enough in
      let steady =
        send_loop-Steady net fd unread there (λ bytes w e. duplex.send_keeps bytes w ∙ e)
          (λ w e. duplex.readable.quiet w ∙ e) sees inner fuel p c
          (record {
            world = waiting;
            blocks = blocks;
            queue = Queued-HoldBlocks outgoing c.m_send_list queued;
            told = λ s' up'.
                let new : s' ≡ s = cc (up, up') in
                (
                  ap (λ (s : SocketCommon). s.m_read_flag) new ∙ flag,
                  ap (λ (s : SocketCommon). s.m_socket) new ∙ same,
                );
          }) in
      rw (well, begun)
        (Returns-bind (Returns-both sent steady) λ r (sent, steady).
          let still = steady sent.goes_on in
          let told = still.told sent.socket sent.up in
          let taken =
            recv_loop-Delivered net a law memory fd pending duplex.readable fuel incoming r.1 r.2
              sent.socket (rw sent.same_received closed) sent.up told.1
              (told.0 ∙ sym (ap (λ l. not (length l == 0)) still.world)) short still.world
              still.blocks drained in
          let goes =
            recv_loop-GoesOn net a fd (λ w. log w ≡ log r.1.world) duplex.readable.has_room
              (λ w. not (length (pending w) == 0)) (λ cap w e. duplex.recv_keeps cap w ∙ e)
              (λ w e. duplex.select_keeps w ∙ e) duplex.readable.seen fuel r.1 r.2 refl
              (λ s' up'. (still.told s' up').1) in
          rw sent.goes_on (
            Returns-bind (Returns-both taken goes) λ r' (taken, goes). returns (record {
              all_sent = taken.same_queue ∙ sent.none_left;
              logged = (goes taken.goes_on).0 ∙ sent.logged;
              all_read = taken.nothing_left;
              received = taken.received;
              list = taken.list ∙ ap (λ l. l ++ taken.received) sent.same_received;
              delivered = taken.delivered;
              same_state = taken.same_state ∙ (sent.same_state ∙ now);
            })))

  -- While memory does not run out: a connection in the state Connected, over a socket that sends
  -- and receives as IsDuplex says; a queue of messages that are ready to be sent; a list m_recvList
  -- whose last message is whole; a pool of whole blocks; the frames of some bodies, none longer
  -- than 2 ^ 30 bytes with its head, on their way from the peer; and a round for each message and
  -- each byte and one more. One turn of Update then comes to an end. It leaves the queue empty and
  -- its frames, in their order, with the socket; it has read every byte, and m_recvList has one
  -- whole message for each body, in their order, behind what was there; and the state is Connected.
  pub update-Exchanged :
      (inner fuel : ℕ) (dt : ℤ) (outgoing incoming : List (List ℕ)) (p : Process net)
      (c : ConnectionManager) (s : SocketCommon)
      → c.m_p_socket ≡ some s
      → s.m_socket ≡ fd
      → c.m_net_state ≡ connected
      → Queued outgoing c.m_send_list
      → IsClosed c.m_recv_list
      → pending p.world ≡ stream incoming
      → AllShort incoming
      → AllBlocks p.pool.m_pool
      → length outgoing < fuel
      → length (stream outgoing) < inner
      → length (stream incoming) < fuel
      → Returns (Exchanged net log pending p c outgoing incoming) (update net a inner fuel dt p c)
  unfolding update set_flags
  update-Exchanged inner fuel dt outgoing incoming p c s up same now queued closed waiting short
        blocks rounds enough drained =
      let live : is_live c.m_net_state ≡ true = ap is_live now in
      let there = not (length (pending p.world) == 0) in
      let sees = ap (λ d. look net d p.world) same ∙ writable_duplex.seen p.world in
      let checked = check_state-ready net p c s true there up sees in
      let w1 = (net.select s.m_socket p.world).1 in
      let unread : pending w1 ≡ pending p.world = rw same (duplex.readable.quiet p.world) in
      let logged : log w1 ≡ log p.world = rw same (duplex.select_keeps p.world) in
      simp (up, live, checked, update)
        (Returns-mono
          (after_check-Exchanged inner fuel dt outgoing incoming (record p { world = w1 })
            (record c { m_p_socket = some (set_flags true there s) }) (set_flags true there s) refl
            same refl (ap (λ l. not (length l == 0)) waiting) now queued closed (unread ∙ waiting)
            short blocks rounds enough drained)
          λ r e. record {
            all_sent = e.all_sent;
            logged = e.logged ∙ ap (λ l. l ++ stream outgoing) logged;
            all_read = e.all_read;
            received = e.received;
            list = e.list;
            delivered = e.delivered;
            same_state = e.same_state;
          })
