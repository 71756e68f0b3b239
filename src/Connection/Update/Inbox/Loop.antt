-- ===== src/Connection/Update/Inbox/Loop.antt =====
-- A round of the receive loop, by how far its message is.
use socketforioswinandroid.Common.{
  ℕ, suc, ◌+◌, ◌^◌, ◌≤◌, ◌<◌, ◌≡◌, refl, ap, ◌∙◌, true, false, not, some, List, [], ◌∷◌, ◌++◌,
  length, length-append, length-take, length-drop, take, drop, take-append_le, drop-append_le, ◌==◌,
  ℤ, arith, Returns-value,
}
use socketforioswinandroid.MemBuffer.{Allocator, IsAllocator, HasMemory}
use socketforioswinandroid.NetMessage.Frame.{encode_frame}
use socketforioswinandroid.NetMessage.Frame.Receive.Stage.{
  Stage, at_head, frame_long, Stage-Asks, receive_chunk-Stage,
}
use socketforioswinandroid.MessagePool.Fresh.{AllBlocks, create_message-IsFresh}
use socketforioswinandroid.Network.{look, Network, SocketCommon, set_flags}
use socketforioswinandroid.Connection.{MessagePtr, ConnectionManager, Process}
use socketforioswinandroid.Connection.Update.{open_message, recv_loop}
use socketforioswinandroid.Connection.Update.Outbox.{stream}
use socketforioswinandroid.Connection.Update.Inbox.{
  IsReadable, IsClosed, open_message-closed, recv_loop-round, fresh, after_fresh,
}

module _ (net : Network) (a : Allocator) (law : IsAllocator a) (memory : HasMemory a) (fd : ℤ)
    (pending : net.World → List ℕ) (readable : IsReadable net fd pending) where
  -- The loop is at the message `q`, of whose frame `todo` is still to come; `rest` comes behind it.
  pub record Going (front : List MessagePtr) (q : MessagePtr) (body todo : List ℕ)
      (rest : List (List ℕ)) (p : Process net) (c : ConnectionManager) : Type 0 where
    pub list : c.m_recv_list ≡ front ++ (q ∷ [])
    pub stage : Stage body todo q.message
    pub socket : SocketCommon
    pub up : c.m_p_socket ≡ some socket
    pub same : socket.m_socket ≡ fd
    pub flag : socket.m_read_flag ≡ not (length (pending p.world) == 0)
    pub waiting : pending p.world ≡ todo ++ stream rest
    pub blocks : AllBlocks p.pool.m_pool

  -- A round with the message `q` leaves less of its frame to come.
  pub recv_loop-Going :
      (fuel : ℕ) (p p1 : Process net) (c : ConnectionManager) (s : SocketCommon)
      (front : List MessagePtr) (q : MessagePtr) (body todo : List ℕ) (rest : List (List ℕ))
      → c.m_p_socket ≡ some s
      → s.m_socket ≡ fd
      → s.m_read_flag ≡ true
      → open_message net a p c.m_recv_list ≡ (front, q, p1)
      → Stage body todo q.message
      → 0 < length todo
      → 4 + length body ≤ 2 ^ 30
      → pending p1.world ≡ todo ++ stream rest
      → AllBlocks p1.pool.m_pool
      → (p' : Process net) × (c' : ConnectionManager) × (q' : MessagePtr) × (todo' : List ℕ)
        × (recv_loop net a (suc fuel) p c ≡ recv_loop net a fuel p' c')
        × Going front q' body todo' rest p' c'
        × (length todo' < length todo)
        × (c'.m_send_list ≡ c.m_send_list)
        × (c'.m_net_state ≡ c.m_net_state)
  unfolding set_flags
  recv_loop-Going fuel p p1 c s front q body todo rest up same flag opened stage more short waiting
        blocks =
      let asks = Stage-Asks body todo q.message stage more in
      let w = p1.world in
      let all : length (pending w) ≡ length todo + length (stream rest) =
        ap length waiting ∙ length-append todo (stream rest) in
      let there : 0 < length (pending w) = omega (arith, all, more) in
      let k = readable.count asks.cap w in
      let below : k ≤ asks.cap = readable.no_more asks.cap w in
      let within : k ≤ length todo = omega (arith, below, asks.within) in
      let some_byte : 0 < k = readable.some_byte asks.cap w asks.positive there in
      let chunk = take k todo in
      let size : length chunk ≡ k = omega (arith, length-take k todo, within) in
      let w1 = (net.recv s.m_socket asks.cap w).1 in
      let given : (net.recv s.m_socket asks.cap w).0 ≡ some chunk =
        rw same (readable.gives asks.cap w asks.positive there)
        ∙ ap (λ t. some (take k t)) waiting
        ∙ ap some (take-append_le k todo (stream rest) within) in
      let left : pending w1 ≡ drop k todo ++ stream rest =
        rw same (readable.leaves asks.cap w asks.positive there)
        ∙ ap (drop k) waiting
        ∙ drop-append_le k todo (stream rest) within in
      let (m, takes, stage') = Returns-value (
        receive_chunk-Stage a law memory body todo q.message asks.cap k stage short asks.asked below
          within (λ four. readable.whole asks.cap w four (omega (arith, all, asks.within)))) in
      let write = readable.has_room w1 in
      let read = not (length (pending w1) == 0) in
      let quiet : pending (net.select s.m_socket w1).1 ≡ pending w1 =
        ap (λ d. pending (net.select d w1).1) same ∙ readable.quiet w1 in
      (
        record p1 { world = (net.select s.m_socket w1).1 },
        _,
        record q { message = m },
        drop k todo,
        recv_loop-round net a fuel asks.cap p p1 c s front q chunk m write read up flag opened
            asks.asked given (omega (arith, size, some_byte)) takes
            (ap (λ d. look net d w1) same ∙ readable.seen w1),
        record {
          list = refl;
          stage = stage';
          socket = set_flags write read s;
          up = refl;
          same = same;
          flag = rw quiet refl;
          waiting = quiet ∙ left;
          blocks = blocks;
        },
        omega (arith, length-drop k todo, some_byte, within, more),
        refl,
        refl,
      )

  -- The message that the loop opens behind a list that is closed.
  fresh-Stage :
      (body : List ℕ) (p : Process net)
      → AllBlocks p.pool.m_pool
      → Stage body (encode_frame body) (fresh net a p).message
        × AllBlocks (after_fresh net a p).pool.m_pool
  fresh-Stage body p blocks =
      let (f, room, rest) =
        create_message-IsFresh a law memory 512 p.pool (omega arith) (omega arith) blocks in
      (at_head f (omega (arith, room)) refl, rest)

  -- The flag that says that bytes are there.
  pub bytes_there :
      (s : SocketCommon) (w : net.World)
      → s.m_read_flag ≡ not (length (pending w) == 0)
      → 0 < length (pending w)
      → s.m_read_flag ≡ true
  bytes_there s w e h =
      let some_left : (length (pending w) == 0) ≡ false = ground arith in e ∙ ap not some_left

  -- The first round with a new message.
  pub recv_loop-next :
      (fuel : ℕ) (p : Process net) (c : ConnectionManager) (s : SocketCommon) (body : List ℕ)
      (rest : List (List ℕ))
      → IsClosed c.m_recv_list
      → c.m_p_socket ≡ some s
      → s.m_socket ≡ fd
      → s.m_read_flag ≡ not (length (pending p.world) == 0)
      → 4 + length body ≤ 2 ^ 30
      → pending p.world ≡ encode_frame body ++ stream rest
      → AllBlocks p.pool.m_pool
      → (p' : Process net) × (c' : ConnectionManager) × (q' : MessagePtr) × (todo' : List ℕ)
        × (recv_loop net a (suc fuel) p c ≡ recv_loop net a fuel p' c')
        × Going c.m_recv_list q' body todo' rest p' c'
        × (length todo' < length (encode_frame body))
        × (c'.m_send_list ≡ c.m_send_list)
        × (c'.m_net_state ≡ c.m_net_state)
  recv_loop-next fuel p c s body rest closed up same flag short waiting blocks =
      let (stage, blocks') = fresh-Stage body p blocks in
      let long = frame_long body in
      let total : length (pending p.world) ≡ length (encode_frame body) + length (stream rest) =
        ap length waiting ∙ length-append (encode_frame body) (stream rest) in
      recv_loop-Going fuel p (after_fresh net a p) c s c.m_recv_list (fresh net a p) body
        (encode_frame body) rest up same (bytes_there s p.world flag (omega (arith, total, long)))
        (open_message-closed net a p c.m_recv_list closed) stage (omega (arith, long)) short waiting
        blocks'
