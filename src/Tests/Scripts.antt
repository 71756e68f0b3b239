-- ===== src/Tests/Scripts.antt =====
-- What a script does with its sockets and messages.
use socketforioswinandroid.Common.{
  List, ◌>>=◌, ◌^◌, ◌<◌, ◌≡◌, refl, none, some, [], ◌∷◌, arith, pos, Returns, be_bytes,
}
use socketforioswinandroid.NetMessage.{NetMessage, is_end, get_read_cap, reset_for_read}
use socketforioswinandroid.NetMessage.Frame.Receive.Whole.{Received}
use socketforioswinandroid.Connection.{
  ConnectionManager, MessagePtr, Process, new_connection_manager,
}
use socketforioswinandroid.Connection.Update.Outbox.{Queued, nothing}
use socketforioswinandroid.MessagePool.{empty_pool}
use socketforioswinandroid.Tests.Heap.{heap, heap-IsAllocator, heap-HasMemory}
use socketforioswinandroid.Tests.Connections.{line}
use socketforioswinandroid.LuaMsg.Script.{composed, send_lua_msg-Queued}
use socketforioswinandroid.SocketObject.{
  SocketObject, get_socket_by_name, get_default_socket, insert_object, hold, default_socket_name,
  same_name, generate_secret,
}
use socketforioswinandroid.SocketObject.Names.{
  get_socket_by_name-insert_object, generate_secret-be_bytes,
}
use socketforioswinandroid.LuaMsg.{named_socket, load_msg, read_raw_msg, send_lua_msg}
use socketforioswinandroid.LuaMsg.Inbox.{load_msg-Received}

generate_secret-be_bytes_example :
    (be_bytes 4 (generate_secret 305419896 2596069104) ≡ 222 ∷ 179 ∷ 53 ∷ 104 ∷ [])
    × (generate_secret 305419896 2596069104 < 2 ^ 32)
generate_secret-be_bytes_example = generate_secret-be_bytes 305419896 2596069104

abbrev message : NetMessage
message = record {
  m_size = pos 3;
  m_head_size = 2;
  m_buf_start_pos = 0;
  m_cur_pos = 5;
  m_buffer = record { m_size = 8; m_buf = 0 ∷ 3 ∷ 7 ∷ 8 ∷ 9 ∷ 0 ∷ 0 ∷ 0 ∷ [] };
}

message-Received : Received (7 ∷ 8 ∷ 9 ∷ []) message
unfolding is_end get_read_cap reset_for_read
message-Received = record {
  size = refl;
  ended = refl;
  nothing_left = refl;
  block = refl;
  inside = omega arith;
  rest = 0 ∷ 0 ∷ 0 ∷ [];
  readable = refl;
}

abbrev received : MessagePtr
received = record { address = 5; message = message }

abbrev manager : ConnectionManager
manager = record new_connection_manager { m_recv_list = received ∷ [] }

abbrev first : SocketObject
first = record {
  address = 3;
  m_p_connection_mgr = some manager;
  m_socket_object_name = default_socket_name;
}

first-found : named_socket none (first ∷ []) ≡ some first
unfolding named_socket get_default_socket get_socket_by_name same_name
first-found = refl

load_msg-Received_example :
    Returns
      (λ r.
        Returns (λ s. s.0 ≡ 7 ∷ 8 ∷ 9 ∷ []) (read_raw_msg (pos 3) r.0)
        × (r.1 ≡ insert_object (hold (record manager { m_recv_list = [] }) first) (first ∷ [])))
      (load_msg none (first ∷ []))
load_msg-Received_example =
    load_msg-Received none (first ∷ []) first manager received [] (7 ∷ 8 ∷ 9 ∷ []) first-found refl
      refl message-Received (omega arith)

abbrev second : SocketObject
second = record { address = 2; m_p_connection_mgr = none; m_socket_object_name = 97 ∷ [] }

second-unused : get_socket_by_name (97 ∷ []) (first ∷ []) ≡ none
unfolding get_socket_by_name same_name
second-unused = refl

get_socket_by_name-insert_object_example :
    get_socket_by_name (97 ∷ []) (insert_object second (first ∷ [])) ≡ some second
unfolding same_name
get_socket_by_name-insert_object_example =
    get_socket_by_name-insert_object (97 ∷ []) second (first ∷ []) ((λ e. omega (arith, e)), tt)
      second-unused

abbrev idle : ConnectionManager
idle = record manager { m_send_list = [] }

abbrev sender : SocketObject
sender = record first { m_p_connection_mgr = some idle }

sender-found : named_socket none (sender ∷ []) ≡ some sender
unfolding named_socket get_default_socket get_socket_by_name same_name
sender-found = refl

abbrev begins : Process line
begins = record { world = []; pool = empty_pool; next_address = 1 }

send_lua_msg-Queued_example :
    Returns
      (λ (l, objects').
        (qs : List MessagePtr) × (l.m_p_msg ≡ none)
        × (objects' ≡ insert_object (hold (record idle { m_send_list = qs }) sender) (sender ∷ []))
        × Queued ((4 ∷ 5 ∷ []) ∷ []) qs)
      (composed heap line (4 ∷ 5 ∷ []) begins >>= λ l. send_lua_msg none l (sender ∷ []))
send_lua_msg-Queued_example =
    send_lua_msg-Queued heap heap-IsAllocator heap-HasMemory line none (sender ∷ []) sender idle []
      (4 ∷ 5 ∷ []) begins sender-found refl nothing tt (omega arith)
