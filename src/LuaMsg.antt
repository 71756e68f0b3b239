-- ===== src/LuaMsg.antt =====
-- class CLuaMsg of LuaMsg.h and LuaMsg.cpp: the message that a script holds. What a method takes
-- from the Lua stack is an argument here, and what it pushes is its value.
pub mod Inbox
pub mod Script
use socketforioswinandroid.Common.{
  ℕ, ◌+◌, Bool, Option, none, some, List, [], ◌∷◌, length, ℤ, pos, Result, ok, fault, ◌>>=◌,
}
use socketforioswinandroid.MemBuffer.{Allocator}
use socketforioswinandroid.NetMessage.{NetMessage, reset_for_read, dump}
use socketforioswinandroid.NetMessage.Write.{w_raw}
use socketforioswinandroid.NetMessage.Read.Text.{read_raw}
use socketforioswinandroid.NetMessage.Frame.{begin_for_write, end_for_write}
use socketforioswinandroid.MessagePool.{create_message, delete_message}
use socketforioswinandroid.Network.{Network}
use socketforioswinandroid.Connection.{MessagePtr, Process, get_msg, remove_msg, send_msg}
use socketforioswinandroid.SocketObject.{
  SocketObject, get_socket_by_name, get_default_socket, get_connection, hold, insert_object,
}

pub record LuaMsg : Type 0 where
  pub m_p_msg : Option MessagePtr

-- CLuaMsg::CLuaMsg
unfoldable pub new_lua_msg : LuaMsg
new_lua_msg = record { m_p_msg = none }

-- The socket that a script names as the first argument, or the default one without an argument.
unfoldable pub named_socket : Option (List ℕ) → List SocketObject → Option SocketObject
named_socket none objects = get_default_socket objects
named_socket (some name) objects = get_socket_by_name name objects

-- The lines of LoadMsg behind the choice of the socket. With no message queued the first call goes
-- through a null pointer.
unfoldable pub load_from : SocketObject → List SocketObject → Result (LuaMsg × List SocketObject)
unfolding dump reset_for_read get_connection hold remove_msg get_msg
load_from o objects =
    let c = get_connection o in
    elim (get_msg c) [
      | none ↦ fault
      | some q ↦
          let m = reset_for_read q.message in
          dump m >>= λ _. ok (
            record { m_p_msg = some (record q { message = m }) },
            insert_object (hold (remove_msg q.address c) o) objects,
          )
    ]

-- CLuaMsg::LoadMsg
unfoldable pub load_msg : Option (List ℕ) → List SocketObject → Result (LuaMsg × List SocketObject)
unfolding named_socket load_from
load_msg name objects = elim (named_socket name objects) [
  | none ↦ fault
  | some o ↦ load_from o objects
]

-- CLuaMsg::SendMsg. A null message is used by the SendMsg of the connection.
unfoldable pub send_lua_msg :
    Option (List ℕ) → LuaMsg → List SocketObject → Result (LuaMsg × List SocketObject)
unfolding named_socket
send_lua_msg name l objects = elim (named_socket name objects) [
  | none ↦ fault
  | some o ↦ elim l.m_p_msg [
    | none ↦ fault
    | some q ↦
        ok (
          record { m_p_msg = none },
          insert_object (hold (send_msg q (get_connection o)) o) objects,
        )
  ]
]

-- A method that goes through m_pMsg.
abbrev pub with_msg {ℓ} :
    {A : Type ℓ} → (NetMessage → Result (A × NetMessage)) → LuaMsg → Result (A × LuaMsg)
with_msg f l = elim l.m_p_msg [
  | none ↦ fault
  | some q ↦ f q.message >>= λ (v, m). ok (v, record { m_p_msg = some (record q { message = m }) })
]

-- CLuaMsg::GetSize, ReadRaw, BeginForWrite.
unfoldable pub get_size : LuaMsg → Result (ℤ × LuaMsg)
get_size l = with_msg (λ m. ok (m.m_size, m)) l

unfoldable pub read_raw_msg : ℤ → LuaMsg → Result (List ℕ × LuaMsg)
unfolding read_raw
read_raw_msg size l = with_msg (read_raw size) l

unfoldable pub begin_msg : LuaMsg → Result (Unit {0} × LuaMsg)
begin_msg l = with_msg (λ m. ok (tt, begin_for_write m)) l

module _ (a : Allocator) where
  -- CLuaMsg::WriteRaw and EndForWrite.
  unfoldable pub write_raw_msg : List ℕ → LuaMsg → Result (Unit {0} × LuaMsg)
  write_raw_msg buf l = with_msg (λ m. w_raw a buf (pos (length buf)) m >>= λ m. ok (tt, m)) l

  unfoldable pub end_msg : LuaMsg → Result (Unit {0} × LuaMsg)
  end_msg l = with_msg (λ m. end_for_write a m >>= λ m. ok (tt, m)) l

  module _ (net : Network) where
    -- CLuaMsg::CreateNewMessage. A message held before is not deleted.
    unfoldable pub create_new_message : Process net → LuaMsg × Process net
    create_new_message p =
        let (m, pool) = create_message a 512 p.pool in
        (
          record { m_p_msg = some (record { address = p.next_address; message = m }) },
          record p { pool = pool; next_address = p.next_address + 1 },
        )

-- CLuaMsg::~CLuaMsg
unfoldable pub delete_lua_msg : (net : Network) → LuaMsg → Process net → Process net
delete_lua_msg net l p = elim l.m_p_msg [
  | none ↦ p
  | some q ↦ record p { pool = delete_message q.message p.pool }
]
