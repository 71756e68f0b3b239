-- ===== src/Connection/Update/Inbox/Drain.antt =====
-- The receive loop comes to the end of the stream.
use socketforioswinandroid.Common.{
  ℕ, zero, suc, ◌+◌, ◌<◌, ◌≡◌, refl, sym, ap, ◌∙◌, inr, Bool, true, false, not, some, List, [], ◌∷◌,
  ◌++◌, append_assoc, append-nil, length, length-append, ◌==◌, ℤ, arith, ok, Returns, returns,
  Returns-mono,
}
use socketforioswinandroid.MemBuffer.{Allocator, IsAllocator, HasMemory}
use socketforioswinandroid.NetMessage.Frame.{encode_frame}
use socketforioswinandroid.NetMessage.Frame.Receive.Stage.{Stage-Asks, Stage-Received}
use socketforioswinandroid.MessagePool.Fresh.{AllBlocks}
use socketforioswinandroid.Network.{Network, SocketCommon}
use socketforioswinandroid.Connection.{MessagePtr, ConnectionManager, Process}
use socketforioswinandroid.Connection.Update.{split_back, open_message, recv_loop}
use socketforioswinandroid.Connection.Update.Outbox.{stream}
use socketforioswinandroid.Connection.Update.Inbox.{
  IsReadable, Delivered, nothing, another, IsClosed, AllShort, split_back-last, open_message-open,
}
use socketforioswinandroid.Connection.Update.Inbox.Loop.{
  Going, recv_loop-Going, bytes_there, recv_loop-next,
}

module _ (net : Network) (pending : net.World → List ℕ) where
  -- What the loop leaves of a connection, once the stream of the bodies has been delivered.
  pub record Taken (kept : List MessagePtr) (bodies : List (List ℕ)) (c : ConnectionManager)
      (r : Bool × Process net × ConnectionManager) : Type 0 where
    pub goes_on : r.0 ≡ true
    pub nothing_left : pending r.1.world ≡ []
    pub received : List MessagePtr
    pub list : r.2.m_recv_list ≡ kept ++ received
    pub delivered : Delivered bodies received
    pub same_queue : r.2.m_send_list ≡ c.m_send_list
    pub same_state : r.2.m_net_state ≡ c.m_net_state

  Taken-of :
      (kept kept' : List MessagePtr) (more : List MessagePtr) (bodies bodies' : List (List ℕ))
      (c c' : ConnectionManager) (r : Bool × Process net × ConnectionManager)
      → kept' ≡ kept ++ more
      → ((got : List MessagePtr) → Delivered bodies' got → Delivered bodies (more ++ got))
      → c'.m_send_list ≡ c.m_send_list
      → c'.m_net_state ≡ c.m_net_state
      → Taken kept' bodies' c' r
      → Taken kept bodies c r
  Taken-of kept kept' more bodies bodies' c c' r e adds queue state t = record {
    goes_on = t.goes_on;
    nothing_left = t.nothing_left;
    received = more ++ t.received;
    list = t.list ∙ ap (λ l. l ++ t.received) e ∙ append_assoc kept more t.received;
    delivered = adds t.received t.delivered;
    same_queue = t.same_queue ∙ queue;
    same_state = t.same_state ∙ state;
  }

module _ (net : Network) (a : Allocator) (law : IsAllocator a) (memory : HasMemory a) (fd : ℤ)
    (pending : net.World → List ℕ) (readable : IsReadable net fd pending) where
  recv_loop-done :
      (fuel : ℕ) (p : Process net) (c : ConnectionManager) (s : SocketCommon)
      → c.m_p_socket ≡ some s
      → s.m_read_flag ≡ false
      → recv_loop net a (suc fuel) p c ≡ ok (true, p, c)
  unfolding recv_loop
  recv_loop-done fuel p c s up flag = simp (up, flag, recv_loop)

  drained :
      (fuel : ℕ) (front : List MessagePtr) (q : MessagePtr) (body todo : List ℕ)
      (rest : List (List ℕ)) (p : Process net) (c : ConnectionManager)
      → Going net a law memory fd pending readable front q body todo rest p c
      → AllShort (body ∷ rest)
      → length todo + length (stream rest) < fuel
      → Returns (Taken net pending front (body ∷ rest) c) (recv_loop net a fuel p c)
  drained zero front q body todo rest p c g short h = absurd (omega arith)
  drained (suc fuel) front q body [] [] p c g short h =
      let empty : g.socket.m_read_flag ≡ false = g.flag ∙ ap (λ l. not (length l == 0)) g.waiting in
      rw (recv_loop-done fuel p c g.socket g.up empty) (
        returns (record {
          goes_on = refl;
          nothing_left = g.waiting;
          received = q ∷ [];
          list = g.list;
          delivered = another (Stage-Received body q.message g.stage) nothing;
          same_queue = refl;
          same_state = refl;
        }))
  drained (suc fuel) front q body [] (b ∷ bs) p c g short h =
      let whole = Stage-Received body q.message g.stage in
      let closed : IsClosed c.m_recv_list =
        inr (front, q, ap split_back g.list ∙ split_back-last front q, whole.ended) in
      let (p', c', q', todo', runs, g', less, queue, state) =
        recv_loop-next net a law memory fd pending readable fuel p c g.socket b bs closed g.up
          g.same g.flag short.1.0 g.waiting g.blocks in
      let total = length-append (encode_frame b) (stream bs) in
      rw runs (
        Returns-mono
          (drained fuel c.m_recv_list q' b todo' bs p' c' g' short.1
            (omega (arith, less, total, h)))
          λ r t.
            Taken-of net pending front c.m_recv_list (q ∷ []) (body ∷ (b ∷ bs)) (b ∷ bs) c c' r
              g.list (λ got d. another whole d) queue state t)
  drained (suc fuel) front q body (x ∷ xs) rest p c g short h =
      let todo = x ∷ xs in
      let more : 0 < length todo = omega arith in
      let total : length (pending p.world) ≡ length todo + length (stream rest) =
        ap length g.waiting ∙ length-append todo (stream rest) in
      let opened =
        ap (open_message net a p) g.list
        ∙ open_message-open net a p front q
            (Stage-Asks body todo q.message g.stage more).open_yet in
      let (p', c', q', todo', runs, g', less, queue, state) =
        recv_loop-Going net a law memory fd pending readable fuel p p c g.socket front q body todo
          rest g.up g.same
          (bytes_there net a law memory fd pending readable g.socket p.world g.flag
            (omega (arith, total)))
          opened g.stage more short.0 g.waiting g.blocks in
      rw runs (
        Returns-mono (drained fuel front q' body todo' rest p' c' g' short (omega (arith, less, h)))
          λ r t.
            Taken-of net pending front front [] (body ∷ rest) (body ∷ rest) c c' r
              (sym (append-nil front)) (λ got d. d) queue state t)

  -- While memory does not run out: a socket on which recv() and select() behave as IsReadable says,
  -- whose peer has sent the frames of some bodies, none longer than 2 ^ 30 bytes with its head; a
  -- list m_recvList whose last message is whole; a pool of whole blocks; and a round for each byte
  -- of the frames and one more. Then the loop comes to its end, with every byte read. Behind the
  -- messages that were there, m_recvList has a whole message for each body, in their order,
  -- whatever chunks recv() cut the bodies into. m_sendList and the state are kept.
  pub recv_loop-Delivered :
      (fuel : ℕ) (bodies : List (List ℕ)) (p : Process net) (c : ConnectionManager)
      (s : SocketCommon)
      → IsClosed c.m_recv_list
      → c.m_p_socket ≡ some s
      → s.m_socket ≡ fd
      → s.m_read_flag ≡ not (length (pending p.world) == 0)
      → AllShort bodies
      → pending p.world ≡ stream bodies
      → AllBlocks p.pool.m_pool
      → length (stream bodies) < fuel
      → Returns (Taken net pending c.m_recv_list bodies c) (recv_loop net a fuel p c)
  recv_loop-Delivered zero bodies p c s closed up same flag short waiting blocks h =
      absurd (omega arith)
  recv_loop-Delivered (suc fuel) [] p c s closed up same flag short waiting blocks h =
      let empty : s.m_read_flag ≡ false = flag ∙ ap (λ l. not (length l == 0)) waiting in
      rw (recv_loop-done fuel p c s up empty) (
        returns (record {
          goes_on = refl;
          nothing_left = waiting;
          received = [];
          list = sym (append-nil c.m_recv_list);
          delivered = nothing;
          same_queue = refl;
          same_state = refl;
        }))
  recv_loop-Delivered (suc fuel) (body ∷ rest) p c s closed up same flag short waiting blocks h =
      let (p', c', q', todo', runs, g', less, queue, state) =
        recv_loop-next net a law memory fd pending readable fuel p c s body rest closed up same flag
          short.0 waiting blocks in
      let total = length-append (encode_frame body) (stream rest) in
      rw runs (
        Returns-mono
          (drained fuel c.m_recv_list q' body todo' rest p' c' g' short
            (omega (arith, less, total, h)))
          λ r t.
            Taken-of net pending c.m_recv_list c.m_recv_list [] (body ∷ rest) (body ∷ rest) c c' r
              (sym (append-nil c.m_recv_list)) (λ got d. d) queue state t)
