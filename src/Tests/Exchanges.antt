-- ===== src/Tests/Exchanges.antt =====
-- A turn of Update over an operating system that takes four bytes at a call of send() and delivers
-- five at a call of recv().
use Prim.Native.Nat.{min}
use socketforioswinandroid.Common.{
  ℕ, refl, true, false, not, inl, none, some, List, [], ◌∷◌, ◌++◌, length, take, drop, leb, ◌==◌,
  if◌then◌else◌, arith, pos, Returns,
}
use socketforioswinandroid.MessagePool.{empty_pool}
use socketforioswinandroid.Network.{look, Network, ready, in_progress}
use socketforioswinandroid.Connection.{ConnectionManager, Process}
use socketforioswinandroid.Connection.Update.{split_back, update}
use socketforioswinandroid.Connection.Update.Outbox.{nothing, another}
use socketforioswinandroid.Connection.Update.Exchange.{IsDuplex, Exchanged, update-Exchanged}
use socketforioswinandroid.Tests.Heap.{heap, heap-IsAllocator, heap-HasMemory}
use socketforioswinandroid.Tests.Connections.{socket, opened, queued, frame-Framed}

abbrev delivered_count : ℕ → List ℕ → ℕ
delivered_count cap w = min (if leb cap 4 then cap else 5) (length w)

-- What has been taken, and what is still to be delivered.
abbrev pub both_ways : Network
both_ways = record {
  World = List ℕ × List ℕ;
  Address = ℕ;
  getaddrinfo = λ url port w. (some (1 ∷ []), w);
  socket = λ addr w. (pos 3, w);
  setsockopt = λ fd option value w. (pos 0, w);
  set_nonblocking = λ fd w. w;
  connect = λ fd addr w. (in_progress, w);
  select = λ fd w. (ready false true (not (length w.1 == 0)), w);
  send =
      λ fd bytes w. (pos (min (length bytes) 4), (w.0 ++ take (min (length bytes) 4) bytes, w.1));
  recv = λ fd cap w.
      (some (take (delivered_count cap w.1) w.1), (w.0, drop (delivered_count cap w.1) w.1));
  close = λ fd w. w;
  bind = λ fd addr w. (pos 0, w);
  listen = λ fd count w. (pos 0, w);
  accept = λ fd w. (pos 4, none, w);
  errno = λ w. pos 0;
}

both_ways-IsDuplex : IsDuplex both_ways (pos 3) (λ w. w.0) (λ w. w.1)
unfolding look
both_ways-IsDuplex = record {
  sending = record {
    count = λ bytes w. min (length bytes) 4;
    takes = λ bytes w h. refl;
    some_byte = λ bytes w h. omega arith;
    no_more = λ bytes w. omega arith;
    logs = λ bytes w h. refl;
  };
  readable = record {
    count = λ cap w. delivered_count cap w.1;
    gives = λ cap w h more. refl;
    leaves = λ cap w h more. refl;
    some_byte = λ cap w h more. ground arith;
    no_more = λ cap w. ground arith;
    whole = λ cap w small there. ground arith;
    has_room = λ w. true;
    seen = λ w. refl;
    quiet = λ w. refl;
  };
  room = λ w. refl;
  send_keeps = λ bytes w. refl;
  recv_keeps = λ cap w. refl;
  select_keeps = λ w. refl;
}

abbrev outgoing : List (List ℕ)
outgoing = (7 ∷ 8 ∷ 9 ∷ []) ∷ []

abbrev bodies : List (List ℕ)
bodies = (4 ∷ 5 ∷ []) ∷ [] ∷ []

abbrev begins : Process both_ways
begins = record { world = ([], 0 ∷ 2 ∷ 4 ∷ 5 ∷ 0 ∷ 0 ∷ []); pool = empty_pool; next_address = 1 }

abbrev pub works : ConnectionManager
works = record opened { m_send_list = queued ∷ []; m_recv_list = [] }

update-Exchanged_example :
    Returns
      (Exchanged both_ways (λ w. w.0) (λ w. w.1) begins works outgoing bodies)
      (update both_ways heap 6 7 (pos 10) begins works)
unfolding split_back
update-Exchanged_example =
    update-Exchanged both_ways heap heap-IsAllocator heap-HasMemory (pos 3) (λ w. w.0) (λ w. w.1)
      both_ways-IsDuplex 6 7 (pos 10) outgoing bodies begins works socket refl refl refl
      (another frame-Framed (omega arith) nothing) (inl refl) refl (omega arith, (omega arith, tt))
      tt (omega arith) (omega arith) (omega arith)
