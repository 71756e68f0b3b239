-- ===== src/Connection/Update/Inbox.antt =====
-- The receive loop of Update: a stream of frames becomes messages in m_recvList.
pub mod Loop
pub mod Drain
use socketforioswinandroid.Common.{
  ℕ, zero, suc, ◌+◌, ◌-◌, ◌^◌, ◌≤◌, ◌<◌, ◌≡◌, refl, sym, ap, ◌∙◌, ◌⊎◌, inl, inr, Bool, true, false,
  not, Bool-cases, Option, none, some, List, [], ◌∷◌, ◌++◌, List-cases, append_assoc, append-nil,
  length, length-append, length-take, take, drop, ◌==◌, ltb, if◌then◌else◌, ℤ, pos, pos_part,
  is_negative, arith, Result, ok, ◌>>=◌, Returns, returns, Returns-mono, Returns-value,
}
use socketforioswinandroid.MemBuffer.{Allocator, IsAllocator, HasMemory}
use socketforioswinandroid.NetMessage.{NetMessage, is_end, get_read_cap}
use socketforioswinandroid.NetMessage.Frame.{encode_frame}
use socketforioswinandroid.NetMessage.Frame.Receive.{receive_chunk}
use socketforioswinandroid.NetMessage.Frame.Receive.Whole.{Received}
use socketforioswinandroid.NetMessage.Frame.Receive.Stage.{
  Stage, at_head, Asks, Stage-Asks, Stage-Received, receive_chunk-Stage,
}
use socketforioswinandroid.MessagePool.{create_message}
use socketforioswinandroid.MessagePool.Fresh.{AllBlocks, create_message-IsFresh}
use socketforioswinandroid.Network.{Network, SocketCommon, ready, look, set_flags, recv}
use socketforioswinandroid.Connection.{
  MessagePtr, ConnectionManager, Process, check_state, decode_buf,
}
use socketforioswinandroid.Connection.Update.{
  split_back, open_message, take_in, recv_round, recv_loop,
}
use socketforioswinandroid.Connection.Update.Outbox.{stream, check_state-ready}

-- A connected socket behind which `pending` is what the peer has sent and recv() has not delivered.
-- A call delivers a byte at least, if there is one, and it delivers as much as is asked for when
-- that is four bytes at most and all of them are there. select() finds no error, and finds the
-- socket readable while there are bytes.
pub record IsReadable (net : Network) (fd : ℤ) (pending : net.World → List ℕ) : Type 0 where
  pub count : ℕ → net.World → ℕ
  pub gives :
      (cap : ℕ) (w : net.World)
      → 0 < cap
      → 0 < length (pending w)
      → (net.recv fd cap w).0 ≡ some (take (count cap w) (pending w))
  pub leaves :
      (cap : ℕ) (w : net.World)
      → 0 < cap
      → 0 < length (pending w)
      → pending (net.recv fd cap w).1 ≡ drop (count cap w) (pending w)
  pub some_byte : (cap : ℕ) (w : net.World) → 0 < cap → 0 < length (pending w) → 0 < count cap w
  pub no_more : (cap : ℕ) (w : net.World) → count cap w ≤ cap
  pub whole : (cap : ℕ) (w : net.World) → cap ≤ 4 → cap ≤ length (pending w) → count cap w ≡ cap
  pub has_room : net.World → Bool
  pub seen :
      (w : net.World)
      → look net fd w ≡ some (ready false (has_room w) (not (length (pending w) == 0)))
  pub quiet : (w : net.World) → pending (net.select fd w).1 ≡ pending w

-- The messages have been received, and these are their bodies.
pub data Delivered : List (List ℕ) → List MessagePtr → Type 0 where
  nothing : Delivered [] []
  another :
      {body : List ℕ} {rest : List (List ℕ)} {q : MessagePtr} {others : List MessagePtr}
      → Received body q.message
      → Delivered rest others
      → Delivered (body ∷ rest) (q ∷ others)

-- The last message of the list, if there is one, has come to its end.
abbrev pub IsClosed : List MessagePtr → Type 0
IsClosed qs =
    (split_back qs ≡ none)
    ⊎ ((front : List MessagePtr) × (back : MessagePtr) × (split_back qs ≡ some (front, back))
        × (is_end back.message ≡ true))

abbrev pub AllShort : List (List ℕ) → Type 0
AllShort [] = Unit {0}
AllShort (body ∷ rest) = (4 + length body ≤ 2 ^ 30) × AllShort rest

pub split_back-last :
    (front : List MessagePtr) (q : MessagePtr) → split_back (front ++ (q ∷ [])) ≡ some (front, q)
unfolding split_back
split_back-last [] q = refl
split_back-last (f ∷ front) q = rw (split_back-last front q) refl

module _ (net : Network) (a : Allocator) where
  -- The message that the loop goes on with is the last one, while that is not at its end.
  pub open_message-open :
      (p : Process net) (front : List MessagePtr) (q : MessagePtr)
      → is_end q.message ≡ false
      → open_message net a p (front ++ (q ∷ [])) ≡ (front, q, p)
  unfolding open_message
  open_message-open p front q e = rw (split_back-last front q, e, open_message) refl

  abbrev pub fresh : Process net → MessagePtr
  fresh p = record { address = p.next_address; message = (create_message a 512 p.pool).0 }

  abbrev pub after_fresh : Process net → Process net
  after_fresh p = record p {
    pool = (create_message a 512 p.pool).1;
    next_address = p.next_address + 1;
  }

  pub open_message-closed :
      (p : Process net) (qs : List MessagePtr)
      → IsClosed qs
      → open_message net a p qs ≡ (qs, fresh p, after_fresh p)
  unfolding open_message
  open_message-closed p qs (inl e) = rw (e, open_message) refl
  open_message-closed p qs (inr (front, back, e, ended)) = rw (e, ended, open_message) refl

  -- A round in which recv() delivers a chunk that the message takes, and select() finds no error.
  take_in-chunk :
      (front : List MessagePtr) (q : MessagePtr) (chunk : List ℕ) (p : Process net)
      (c : ConnectionManager) (s : SocketCommon) (m : NetMessage) (write read : Bool)
      → 0 < length chunk
      → c.m_p_socket ≡ some s
      → receive_chunk a chunk q.message ≡ ok m
      → look net s.m_socket p.world ≡ some (ready false write read)
      → take_in net a front q (some chunk) p c
        ≡ ok (
          true,
          record p { world = (net.select s.m_socket p.world).1 },
          record c {
            m_recv_list = front ++ (record q { message = m } ∷ []);
            m_p_socket = some (set_flags write read s);
          },
        )
  unfolding take_in decode_buf
  take_in-chunk front q [] p c s m write read some_byte up takes seen = absurd (omega arith)
  take_in-chunk front q (b ∷ bs) p c s m write read some_byte up takes seen =
      let c1 : ConnectionManager = record c {
        m_recv_list = front ++ (record q { message = m } ∷ []);
      } in
      let same : (if is_negative q.message.m_size then q.message else q.message) ≡ q.message =
        elim (Bool-cases (is_negative q.message.m_size)) [
          | inl e ↦ rw e refl
          | inr e ↦ rw e refl
        ] in
      rw (same, takes, check_state-ready net p c1 s write read up seen) refl

  -- A round of the loop, by what it opens and what recv() delivers.
  pub recv_loop-round :
      (fuel cap : ℕ) (p p1 : Process net) (c : ConnectionManager) (s : SocketCommon)
      (front : List MessagePtr) (q : MessagePtr) (chunk : List ℕ) (m : NetMessage)
      (write read : Bool)
      → c.m_p_socket ≡ some s
      → s.m_read_flag ≡ true
      → open_message net a p c.m_recv_list ≡ (front, q, p1)
      → get_read_cap q.message ≡ pos cap
      → (net.recv s.m_socket cap p1.world).0 ≡ some chunk
      → 0 < length chunk
      → receive_chunk a chunk q.message ≡ ok m
      → look net s.m_socket (net.recv s.m_socket cap p1.world).1 ≡ some (ready false write read)
      → recv_loop net a (suc fuel) p c
        ≡ recv_loop net a fuel
            (record p1 { world = (net.select s.m_socket (net.recv s.m_socket cap p1.world).1).1 })
            (record c {
              m_recv_list = front ++ (record q { message = m } ∷ []);
              m_p_socket = some (set_flags write read s);
            })
  unfolding recv_loop recv_round recv
  recv_loop-round fuel cap p p1 c s front q chunk m write read up flag opened asked given some_byte
        takes seen =
      let p2 : Process net = record p1 { world = (net.recv s.m_socket cap p1.world).1 } in
      let goes = take_in-chunk front q chunk p2 c s m write read some_byte up takes seen in
      simp (up, flag, opened, asked, given, goes, recv_loop, recv_round, recv)
