-- ===== src/Tests/Connections.antt =====
-- A connection over an operating system that takes four bytes at a call of send(), and whose
-- select() fails once something has been sent.
use Prim.Native.Nat.{min}
use socketforioswinandroid.Common.{
  ℕ, ◌≡◌, refl, sym, ap, inr, Option, ℤ, true, false, none, some, List, [], ◌∷◌, ◌++◌, length, take,
  replicate, arith, pos, negsuc, ok, fault, Returns,
}
use socketforioswinandroid.NetMessage.{NetMessage, is_end, get_send_cap, on_send}
use socketforioswinandroid.NetMessage.Frame.Send.{Framed}
use socketforioswinandroid.MessagePool.{empty_pool}
use socketforioswinandroid.Network.{
  Network, SocketCommon, failed, ready, in_progress, look, fits_fd_set, set_flags, send,
}
use socketforioswinandroid.Connection.{
  connecting, connected, ConnectionManager, MessagePtr, Process, new_connection_manager,
  check_state, on_success, connect,
}
use socketforioswinandroid.Connection.Update.{
  is_live, minus, fits_int, send_message, wait_for_connection, after_check, update,
}
use socketforioswinandroid.Connection.Update.States.{IsConsistent, Moves}
use socketforioswinandroid.Connection.Update.Turn.{update-connecting, update-Moves}
use socketforioswinandroid.Connection.Update.Crash.{update_crash}
use socketforioswinandroid.Connection.Update.Delivery.{IsSending, send_message-Framed}
use socketforioswinandroid.Connection.Tries.{IsPosix}
use socketforioswinandroid.Connection.Opens.{connect-Answered}
use socketforioswinandroid.Tests.Heap.{heap}

-- The bytes sent so far are all of its state.
abbrev pub line : Network
line = record {
  World = List ℕ;
  Address = ℕ;
  getaddrinfo = λ url port w. (some (1 ∷ []), w);
  socket = λ addr w. (pos 3, w);
  setsockopt = λ fd option value w. (pos 0, w);
  set_nonblocking = λ fd w. w;
  connect = λ fd addr w. (in_progress, w);
  select = λ fd w. (elim w [ [] ↦ ready false true false | _ ∷ _ ↦ failed ], w);
  send = λ fd bytes w. (pos (min (length bytes) 4), w ++ take (min (length bytes) 4) bytes);
  recv = λ fd cap w. (none, w);
  close = λ fd w. w;
  bind = λ fd addr w. (pos 0, w);
  listen = λ fd count w. (pos 0, w);
  accept = λ fd w. (pos 4, none, w);
  errno = λ w. pos 0;
}

abbrev any_list : Option (List ℕ) → List ℕ
any_list none = []
any_list (some xs) = xs

abbrev start : Process line
start = record { world = []; pool = empty_pool; next_address = 1 }

abbrev pub socket : SocketCommon
socket = record { m_read_flag = false; m_write_flag = true; m_socket = pos 3 }

abbrev pub opening : ConnectionManager
opening = record new_connection_manager {
  m_port = pos 80;
  m_p_socket = some socket;
  m_net_state = connecting;
  m_t_out_timer = pos 4000;
}

line-IsPosix : IsPosix line
unfolding fits_fd_set
line-IsPosix = record {
  makes = λ addr w. inr refl;
  finds = λ url port w addresses e. (1, [], sym (ap (λ o. any_list o) e));
}

connect-Answered_example :
    Returns
      (λ r. IsConsistent r.2 × (r.0 ≡ is_live r.2.m_net_state))
      (connect line (49 ∷ []) (pos 80) start new_connection_manager)
connect-Answered_example =
    connect-Answered line (49 ∷ []) (pos 80) start new_connection_manager line-IsPosix (omega arith)

abbrev descriptor : Option SocketCommon → ℤ
descriptor none = negsuc 0
descriptor (some s) = s.m_socket

opening_fits : (s : SocketCommon) → opening.m_p_socket ≡ some s → fits_fd_set s.m_socket ≡ true
unfolding fits_fd_set
opening_fits s e = sym (ap (λ o. fits_fd_set (descriptor o)) e)

timer_fits : fits_int (minus (pos 4000) (pos 10)) ≡ true
unfolding fits_int
timer_fits = refl

update-connecting_example :
    Returns
      (λ r. IsConsistent r.1 × Moves connecting r.1.m_net_state)
      (update line heap 1 1 (pos 10) start opening)
update-connecting_example =
    update-connecting line heap 1 1 (pos 10) start opening refl refl opening_fits timer_fits

abbrev pub opened : ConnectionManager
opened = record opening { m_net_state = connected; m_t_out_timer = negsuc 0 }

opening-update : update line heap 1 1 (pos 10) start opening ≡ ok (start, opened)
unfolding update check_state look after_check wait_for_connection on_success set_flags
opening-update = refl

update-Moves_example : IsConsistent opened × Moves connecting connected
update-Moves_example =
    update-Moves line heap 1 1 (pos 10) start start opening opened refl opening-update

-- The frame of three bytes, as endForWrite leaves it.
abbrev pub frame_at : ℕ → NetMessage
frame_at at = record {
  m_size = pos 3;
  m_head_size = 2;
  m_buf_start_pos = 4;
  m_cur_pos = at;
  m_buffer = record { m_size = 16; m_buf = replicate 5 0 ++ (3 ∷ 7 ∷ 8 ∷ 9 ∷ replicate 7 0) };
}

pub line-IsSending : IsSending line (pos 3) (λ w. w)
line-IsSending = record {
  count = λ bytes w. min (length bytes) 4;
  takes = λ bytes w h. refl;
  some_byte = λ bytes w h. omega arith;
  no_more = λ bytes w. omega arith;
  logs = λ bytes w h. refl;
}

pub frame-Framed : Framed (7 ∷ 8 ∷ 9 ∷ []) (frame_at 4)
frame-Framed = record {
  size = refl;
  head = refl;
  start = refl;
  at_start = refl;
  block = refl;
  fits = omega arith;
  frame = refl;
}

send_message-Framed_example :
    Returns
      (λ r. (r.0 ≡ true) × (is_end r.1 ≡ true) × (r.2 ≡ 0 ∷ 3 ∷ 7 ∷ 8 ∷ 9 ∷ []))
      (send_message line 6 socket (frame_at 4) [])
send_message-Framed_example =
    send_message-Framed line socket (λ w. w) line-IsSending 6 (7 ∷ 8 ∷ 9 ∷ []) (frame_at 4) []
      frame-Framed (omega arith) (omega arith)

abbrev pub queued : MessagePtr
queued = record { address = 0; message = frame_at 4 }

abbrev loaded : ConnectionManager
loaded = record opened { m_send_list = queued ∷ [] }

frame_sent :
    send_message line 6 (set_flags true false socket) (frame_at 4) []
    ≡ ok (true, frame_at 9, 0 ∷ 3 ∷ 7 ∷ 8 ∷ 9 ∷ [])
unfolding send_message set_flags is_end get_send_cap on_send send
frame_sent = refl

socket_fits : fits_fd_set socket.m_socket ≡ true
unfolding fits_fd_set
socket_fits = refl

update_crash_example : update line heap 6 2 (pos 10) start loaded ≡ fault
update_crash_example =
    update_crash line heap 6 0 (pos 10) start loaded socket queued [] (frame_at 9) false []
      (0 ∷ 3 ∷ 7 ∷ 8 ∷ 9 ∷ []) refl refl refl refl frame_sent socket_fits refl
