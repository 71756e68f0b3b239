-- ===== src/Tests/Streams.antt =====
-- Two connections over operating systems that go on working: one takes four bytes at a call of
-- send(), the other delivers five at a call of recv().
use Prim.Native.Nat.{min}
use socketforioswinandroid.Common.{
  ℕ, refl, true, false, not, inl, none, some, List, [], ◌∷◌, ◌++◌, length, take, drop, leb, ◌==◌,
  if◌then◌else◌, arith, pos, Returns,
}
use socketforioswinandroid.MessagePool.{empty_pool}
use socketforioswinandroid.Network.{look, Network, ready, in_progress}
use socketforioswinandroid.Connection.{ConnectionManager, Process}
use socketforioswinandroid.Connection.Update.{split_back, send_loop, recv_loop}
use socketforioswinandroid.Connection.Update.Delivery.{IsSending}
use socketforioswinandroid.Connection.Update.Outbox.{
  IsWritable, Queued, nothing, another, Sent, stream, send_loop-Queued,
}
use socketforioswinandroid.Connection.Update.Inbox.{IsReadable, IsClosed}
use socketforioswinandroid.Connection.Update.Inbox.Drain.{Taken, recv_loop-Delivered}
use socketforioswinandroid.Tests.Heap.{heap, heap-IsAllocator, heap-HasMemory}
use socketforioswinandroid.Tests.Connections.{socket, opened, queued, frame-Framed}

-- What has been taken is all of the state.
abbrev pub out : Network
out = record {
  World = List ℕ;
  Address = ℕ;
  getaddrinfo = λ url port w. (some (1 ∷ []), w);
  socket = λ addr w. (pos 3, w);
  setsockopt = λ fd option value w. (pos 0, w);
  set_nonblocking = λ fd w. w;
  connect = λ fd addr w. (in_progress, w);
  select = λ fd w. (ready false true false, w);
  send = λ fd bytes w. (pos (min (length bytes) 4), w ++ take (min (length bytes) 4) bytes);
  recv = λ fd cap w. (some [], w);
  close = λ fd w. w;
  bind = λ fd addr w. (pos 0, w);
  listen = λ fd count w. (pos 0, w);
  accept = λ fd w. (pos 4, none, w);
  errno = λ w. pos 0;
}

-- A short request is filled while there are bytes, and a longer one gets five at most.
abbrev delivered_count : ℕ → List ℕ → ℕ
delivered_count cap w = min (if leb cap 4 then cap else 5) (length w)

-- What is still to be delivered is all of the state.
abbrev incoming : Network
incoming = record out {
  World = List ℕ;
  select = λ fd w. (ready false true (not (length w == 0)), w);
  recv = λ fd cap w. (some (take (delivered_count cap w) w), drop (delivered_count cap w) w);
}

out-IsSending : IsSending out (pos 3) (λ w. w)
out-IsSending = record {
  count = λ bytes w. min (length bytes) 4;
  takes = λ bytes w h. refl;
  some_byte = λ bytes w h. omega arith;
  no_more = λ bytes w. omega arith;
  logs = λ bytes w h. refl;
}

out-IsWritable : IsWritable out (pos 3) (λ w. w)
unfolding look
out-IsWritable = record { has_bytes = λ w. false; seen = λ w. refl; quiet = λ w. refl }

incoming-IsReadable : IsReadable incoming (pos 3) (λ w. w)
unfolding look
incoming-IsReadable = record {
  count = delivered_count;
  gives = λ cap w h more. refl;
  leaves = λ cap w h more. refl;
  some_byte = λ cap w h more. ground arith;
  no_more = λ cap w. ground arith;
  whole = λ cap w small there. ground arith;
  has_room = λ w. true;
  seen = λ w. refl;
  quiet = λ w. refl;
}

abbrev bodies : List (List ℕ)
bodies = (7 ∷ 8 ∷ 9 ∷ []) ∷ (7 ∷ 8 ∷ 9 ∷ []) ∷ []

abbrev sending : ConnectionManager
sending = record opened { m_send_list = queued ∷ queued ∷ [] }

sending-Queued : Queued bodies (queued ∷ queued ∷ [])
sending-Queued = another frame-Framed (omega arith) (another frame-Framed (omega arith) nothing)

abbrev out_start : Process out
out_start = record { world = []; pool = empty_pool; next_address = 1 }

send_loop-Queued_example :
    Returns
      (Sent out (pos 3) (λ w. w) out_start sending (stream bodies))
      (send_loop out 11 3 out_start sending)
send_loop-Queued_example =
    send_loop-Queued out (pos 3) (λ w. w) out-IsSending out-IsWritable 11 3 bodies out_start sending
      socket sending-Queued refl refl refl (omega arith) (omega arith)

abbrev in_start : List ℕ → Process incoming
in_start bytes = record { world = bytes; pool = empty_pool; next_address = 1 }

abbrev receiving : ConnectionManager
receiving = record opened {
  m_p_socket = some (record socket { m_read_flag = true });
  m_recv_list = [];
}

receiving-IsClosed : IsClosed []
unfolding split_back
receiving-IsClosed = inl refl

recv_loop-Delivered_example :
    Returns
      (Taken incoming (λ w. w) [] bodies receiving)
      (recv_loop incoming heap 11 (in_start (stream bodies)) receiving)
recv_loop-Delivered_example =
    recv_loop-Delivered incoming heap heap-IsAllocator heap-HasMemory (pos 3) (λ w. w)
      incoming-IsReadable 11 bodies (in_start (stream bodies)) receiving
      (record socket { m_read_flag = true }) receiving-IsClosed refl refl refl
      (omega arith, (omega arith, tt)) refl tt (omega arith)
