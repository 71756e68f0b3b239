-- ===== src/Tests/Histories.antt =====
-- Histories of a connection and of an object: opened, in use, and opened again.
use socketforioswinandroid.Common.{
  ℕ, ◌<◌, length, ◌≡◌, refl, Bool, true, none, List, [], ◌∷◌, replicate, arith, pos, Result, ok,
  fault, stuck,
}
use socketforioswinandroid.MemBuffer.{copy_in, grow, load}
use socketforioswinandroid.MessagePool.{
  MessageBufPool, create_message, require, filled, require_from, find_fit,
}
use socketforioswinandroid.Connection.{
  MessagePtr, ConnectionManager, Process, new_connection_manager, connect, remove_msg, do_connect,
  close, clear_cached, try_addresses, check_state, on_error, on_success, decode_buf,
}
use socketforioswinandroid.Network.{
  look, create_socket, connect_to, new_socket_common, set_flags, recv,
}
use socketforioswinandroid.NetMessage.{
  new_net_message, check_buf_size, grow_to, is_end, get_read_cap, copy_to_current, skip,
  reset_for_read,
}
use socketforioswinandroid.NetMessage.Frame.{on_receive, on_head, on_short_head}
use socketforioswinandroid.NetMessage.Frame.Receive.{receive_chunk}
use socketforioswinandroid.Connection.Update.{
  update, after_check, wait_for_connection, send_loop, recv_loop, open_message, split_back,
  recv_round, take_in,
}
use socketforioswinandroid.Connection.Steps.{
  Reached, made, goes, connects, turns, Reached-Good, remove_msg-Reached,
}
use socketforioswinandroid.Connection.Update.States.{IsConsistent}
use socketforioswinandroid.Connection.Numbers.{IsNumbered}
use socketforioswinandroid.Tests.Connections.{queued}
use socketforioswinandroid.Connection.{send_msg}
use socketforioswinandroid.SocketObject.{
  SocketObject, connect_to_server, get_connection, named_connection, hold, close_connection,
}
use socketforioswinandroid.SocketObject.Uses.{
  Used, fresh, used, connects_to, sends_msg, closes_connection, Used-Reached,
}
use socketforioswinandroid.Tests.Heap.{heap}
use socketforioswinandroid.Tests.Exchanges.{both_ways}

-- Two buffers of the size that a received message asks for.
abbrev pub pool : MessageBufPool
pool = record {
  m_pool =
      record { m_size = 512; m_buf = replicate 512 0 }
      ∷ record { m_size = 512; m_buf = replicate 512 0 }
      ∷ [];
  m_has_init = true;
}

-- The peer has sent a message of one byte, and one of two.
abbrev pub begins : Process both_ways
begins = record { world = ([], 0 ∷ 1 ∷ 4 ∷ 0 ∷ 2 ∷ 5 ∷ 6 ∷ []); pool = pool; next_address = 1 }

abbrev Place : Type 0
Place = Process both_ways × ConnectionManager

abbrev addresses : List MessagePtr → List ℕ
addresses [] = []
addresses (q ∷ qs) = q.address ∷ addresses qs

abbrev at_front : List MessagePtr → MessagePtr
at_front [] = queued
at_front (q ∷ qs) = q

abbrev behind_front : List MessagePtr → List MessagePtr
behind_front [] = []
behind_front (q ∷ qs) = qs

abbrev nowhere : Place
nowhere = (begins, new_connection_manager)

abbrev value : Result Place → Place
value (ok r) = r
value fault = nowhere
value stuck = nowhere

abbrev connect_value : Result (Bool × Process both_ways × ConnectionManager) → Place
connect_value (ok (opened, p, c)) = (p, c)
connect_value fault = nowhere
connect_value stuck = nowhere

-- After Connect, and after turns of Update: one that starts the timer, one that finds the socket
-- writable, and one that receives.
abbrev connecting_place : Place
connecting_place =
    connect_value (connect both_ways (49 ∷ []) (pos 80) begins new_connection_manager)

abbrev turned : Place → Place
turned (p, c) = value (update both_ways heap 6 7 (pos 10) p c)

abbrev waiting_place : Place
waiting_place = turned connecting_place

abbrev open_place : Place
open_place = turned waiting_place

abbrev received_place : Place
received_place = turned open_place

-- Every call came to a value.
history : Reached both_ways received_place.0 received_place.1
unfolding connect do_connect close clear_cached try_addresses create_socket connect_to check_state
    look on_error new_socket_common new_connection_manager set_flags update after_check
    wait_for_connection on_success send_loop recv_loop open_message split_back create_message
    require filled require_from find_fit new_net_message is_end get_read_cap recv_round take_in recv
    receive_chunk copy_to_current on_receive on_head on_short_head skip reset_for_read decode_buf
    copy_in check_buf_size grow_to grow load
history =
    goes
      (goes
        (goes (goes (made begins []) (connects (49 ∷ []) (pos 80) true (omega arith) refl))
          (turns heap 6 7 (pos 10) refl))
        (turns heap 6 7 (pos 10) refl))
      (turns heap 6 7 (pos 10) refl)

abbrev first_message : MessagePtr
first_message = at_front received_place.1.m_recv_list

abbrev later_messages : List MessagePtr
later_messages = behind_front received_place.1.m_recv_list

received_two :
    (received_place.1.m_recv_list ≡ first_message ∷ later_messages)
    × (addresses (first_message ∷ later_messages) ≡ 1 ∷ 2 ∷ [])
unfolding connect do_connect close clear_cached try_addresses create_socket connect_to check_state
    look on_error new_socket_common new_connection_manager set_flags update after_check
    wait_for_connection on_success send_loop recv_loop open_message split_back create_message
    require filled require_from find_fit new_net_message is_end get_read_cap recv_round take_in recv
    receive_chunk copy_to_current on_receive on_head on_short_head skip reset_for_read decode_buf
    copy_in check_buf_size grow_to grow load
received_two = (refl, refl)

Reached-Good_example :
    IsConsistent received_place.1
    × ((length received_place.1.m_server < 128)
        × IsNumbered 0 received_place.0.next_address received_place.1.m_recv_list)
Reached-Good_example = Reached-Good both_ways received_place.0 received_place.1 history

remove_msg-Reached_example :
    (remove_msg first_message.address received_place.1).m_recv_list ≡ later_messages
remove_msg-Reached_example =
    remove_msg-Reached both_ways received_place.0 received_place.1 [] later_messages first_message
      history received_two.0

abbrev idle_object : SocketObject
idle_object = record { address = 7; m_p_connection_mgr = none; m_socket_object_name = 65 ∷ [] }

-- An object that connects, is given a message to send, and closes its connection.
abbrev object_value :
    Result (Bool × Process both_ways × SocketObject) → Process both_ways × SocketObject
object_value (ok (success, p, o)) = (p, o)
object_value fault = (begins, idle_object)
object_value stuck = (begins, idle_object)

abbrev connected_object : Process both_ways × SocketObject
connected_object = object_value (connect_to_server both_ways (49 ∷ []) (pos 80) begins idle_object)

abbrev sending_object : SocketObject
sending_object = hold (send_msg queued (get_connection connected_object.1)) connected_object.1

abbrev closed_object : Process both_ways × SocketObject
closed_object = close_connection both_ways connected_object.0 sending_object

object_history : Used both_ways closed_object.0 closed_object.1
unfolding connect_to_server get_connection named_connection hold connect do_connect close
    clear_cached try_addresses create_socket connect_to check_state look on_error new_socket_common
    new_connection_manager set_flags update after_check wait_for_connection on_success send_loop
    recv_loop open_message split_back create_message require filled require_from find_fit
    new_net_message is_end get_read_cap recv_round take_in recv receive_chunk copy_to_current
    on_receive on_head on_short_head skip reset_for_read decode_buf copy_in check_buf_size grow_to
    grow load
object_history =
    used
      (used
        (used (fresh begins 7 (65 ∷ [])) (connects_to (49 ∷ []) (pos 80) true (omega arith) refl))
        (sends_msg queued refl refl))
      (closes_connection refl)

Used-Reached_example :
    Reached both_ways closed_object.0 (get_connection closed_object.1)
    × IsConsistent (get_connection closed_object.1)
Used-Reached_example = Used-Reached both_ways closed_object.0 closed_object.1 object_history
