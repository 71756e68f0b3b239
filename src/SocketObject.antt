-- ===== src/SocketObject.antt =====
-- class SocketObject of eng_socket.h and eng_socket.cpp: the named sockets of the scripts, each
-- with its connection. What a method takes from the Lua stack is an argument here, and what it
-- pushes is its value.
pub mod Names
pub mod Uses
use Prim.Native.Nat.{bit_or}
use socketforioswinandroid.Common.{
  ℕ, zero, suc, ◌+◌, ◌*◌, ◌/◌, ◌%◌, ◌^◌, Bool, true, false, Option, none, some, List, [], ◌∷◌, ltb,
  ◌==◌, if◌then◌else◌, ℤ, pos, negsuc, Result, ok, fault, ◌>>=◌,
}
use socketforioswinandroid.MemBuffer.{Allocator}
use socketforioswinandroid.NetMessage.{is_end}
use socketforioswinandroid.Network.{Network}
use socketforioswinandroid.Connection.{
  ConnectionManager, Process, new_connection_manager, close, clear_cached, delete_connection,
  connect, reconnect, keep_alived_connection, init_encrypt, get_msg,
}
use socketforioswinandroid.Connection.Update.{update}

-- The object and the address at which it lies.
pub record SocketObject : Type 0 where
  pub address : ℕ
  pub m_p_connection_mgr : Option ConnectionManager
  pub m_socket_object_name : List ℕ

-- std::string::compare
unfoldable pub same_name : List ℕ → List ℕ → Bool
same_name [] [] = true
same_name [] (d ∷ ds) = false
same_name (c ∷ cs) [] = false
same_name (c ∷ cs) (d ∷ ds) = elim (c == d) [ true ↦ same_name cs ds | false ↦ false ]

-- s_objList is a set of pointers: the objects in the order of their addresses, each once. An object
-- that changes is put in again at its address, in place of what lay there.
unfoldable pub insert_object : SocketObject → List SocketObject → List SocketObject
insert_object o [] = o ∷ []
insert_object o (x ∷ xs) =
    let rest = insert_object o xs in
    if ltb o.address x.address
    then o ∷ (x ∷ xs)
    else (if o.address == x.address then o ∷ xs else x ∷ rest)

unfoldable pub erase_object : ℕ → List SocketObject → List SocketObject
erase_object address [] = []
erase_object address (x ∷ xs) =
    let rest = erase_object address xs in if address == x.address then xs else x ∷ rest

-- GetSocketByName and GetDefaultSocket.
unfoldable pub get_socket_by_name : List ℕ → List SocketObject → Option SocketObject
unfolding same_name
get_socket_by_name name [] = none
get_socket_by_name name (x ∷ xs) = elim (same_name x.m_socket_object_name name) [
  | true ↦ some x
  | false ↦ get_socket_by_name name xs
]

abbrev pub default_socket_name : List ℕ
default_socket_name = 100 ∷ 101 ∷ 102 ∷ 97 ∷ 117 ∷ 108 ∷ 116 ∷ 83 ∷ 111 ∷ 99 ∷ 107 ∷ 101 ∷ 116 ∷ []

unfoldable pub get_default_socket : List SocketObject → Option SocketObject
unfolding get_socket_by_name
get_default_socket objects = get_socket_by_name default_socket_name objects

-- SocketObject::SocketObject, and the set with it.
unfoldable pub new_socket_object : ℕ → List ℕ → List SocketObject → SocketObject × List SocketObject
unfolding insert_object
new_socket_object address name objects =
    let o : SocketObject = record {
      address = address;
      m_p_connection_mgr = none;
      m_socket_object_name = name;
    } in
    (o, insert_object o objects)

-- A fresh connection under the object's name, as GetConnection and Restart make it.
unfoldable pub named_connection : SocketObject → ConnectionManager
named_connection o = record new_connection_manager { m_name = o.m_socket_object_name }

-- SocketObject::GetConnection. The object then holds what is returned.
unfoldable pub get_connection : SocketObject → ConnectionManager
unfolding named_connection
get_connection o = elim o.m_p_connection_mgr [ none ↦ named_connection o | some c ↦ c ]

unfoldable pub hold : ConnectionManager → SocketObject → SocketObject
hold c o = record o { m_p_connection_mgr = some c }

-- SocketObject::HasPendingMsg
unfoldable pub has_pending_msg : SocketObject → Bool × SocketObject
unfolding get_connection hold
has_pending_msg o =
    let c = get_connection o in
    (elim (get_msg c) [ none ↦ false | some q ↦ is_end q.message ], hold c o)

-- SocketObject::InitPike. The seeds are not used.
unfoldable pub init_pike : SocketObject → SocketObject
unfolding get_connection hold
init_pike o = hold (init_encrypt (get_connection o)) o

-- SocketObject::GetName
unfoldable pub get_name : SocketObject → List ℕ
get_name o = o.m_socket_object_name

-- The functions hasPendingMsg to keepAlived, which call a method of the default object.
unfoldable pub with_default_socket {ℓ} :
    {A : Type ℓ}
    → (SocketObject → Result (A × SocketObject))
    → List SocketObject
    → Result (A × List SocketObject)
unfolding get_default_socket insert_object
with_default_socket method objects = elim (get_default_socket objects) [
  | none ↦ fault
  | some o ↦ method o >>= λ (v, o). ok (v, insert_object o objects)
]

-- generateSecret. A shift is a quotient or a product, and `& 0xFF` a remainder.
unfoldable pub generate_secret : ℕ → ℕ → ℕ
generate_secret key1 key2 =
    let u1 = key2 / 2 ^ 3 % 256 in
    let u2 = key2 / 2 ^ 23 % 256 in
    let u3 = key1 / 2 ^ 5 % 256 in
    let u4 = key1 / 2 ^ 15 % 256 in
    bit_or (bit_or (bit_or (u1 * 2 ^ 24) (u3 * 2 ^ 16)) (u2 * 2 ^ 8)) u4

module _ (net : Network) where
  -- SocketObject::CloseConnection, and the destructor, which does not make a connection first. The
  -- destructor does not delete the CConnectionManager.
  unfoldable pub close_connection : Process net → SocketObject → Process net × SocketObject
  unfolding get_connection hold
  close_connection p o =
      let (p, c) = close net p (get_connection o) in
      let (p, c) = clear_cached net p c in (p, hold c o)

  unfoldable pub delete_socket_object :
      Process net → SocketObject → List SocketObject → Process net × List SocketObject
  unfolding erase_object
  delete_socket_object p o objects = elim o.m_p_connection_mgr [
    | none ↦ (p, erase_object o.address objects)
    | some c ↦
        let (p, c) = close net p c in
        let (p, c) = clear_cached net p c in (p, erase_object o.address objects)
  ]

  -- SocketObject::Restart. Deleting a connection closes and clears it.
  unfoldable pub restart : Process net → SocketObject → Process net × SocketObject
  unfolding named_connection hold
  restart p o = elim o.m_p_connection_mgr [
    | none ↦ (p, hold (named_connection o) o)
    | some c ↦ (delete_connection net p c, hold (named_connection o) o)
  ]

  -- SocketObject::ConnectToServer, KeepAlived and ReConnectToServer.
  unfoldable pub connect_to_server :
      List ℕ → ℤ → Process net → SocketObject → Result (Bool × Process net × SocketObject)
  unfolding get_connection hold
  connect_to_server address port p o =
      connect net address port p (get_connection o) >>= λ (success, p, c). ok (success, p, hold c o)

  unfoldable pub keep_alived_object :
      (keepalive keepidle keepinterval keepcount : ℤ)
      → Process net
      → SocketObject
      → ℤ × Process net × SocketObject
  unfolding get_connection hold
  keep_alived_object keepalive keepidle keepinterval keepcount p o =
      let c = get_connection o in
      let (rst, p) = keep_alived_connection net keepalive keepidle keepinterval keepcount p c in
      (rst, p, hold c o)

  unfoldable pub reconnect_to_server :
      Process net → SocketObject → Result (Process net × SocketObject)
  unfolding get_connection hold
  reconnect_to_server p o = reconnect net p (get_connection o) >>= λ (p, c). ok (p, hold c o)

  -- SocketObject::UpdateNetMsg
  unfoldable pub update_net_msg :
      Allocator → ℕ → ℕ → ℤ → Process net → SocketObject → Result (Process net × SocketObject)
  unfolding get_connection hold
  update_net_msg a inner fuel dt p o =
      update net a inner fuel dt p (get_connection o) >>= λ (p, c). ok (p, hold c o)
