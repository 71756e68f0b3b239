-- ===== src/Connection.antt =====
-- class CConnectionManager of ConnectionManager.h and ConnectionManager.cpp: its state, and the
-- operations that open and close the connection. The traffic is in Connection/Update.
pub mod Update
pub mod Tries
pub mod Opens
pub mod Numbers
pub mod Renews
pub mod Steps
pub mod Returned
pub mod Counting
pub mod Leak
use socketforioswinandroid.Common.{
  ℕ, zero, suc, ◌+◌, ◌^◌, ◌≤◌, ◌≡◌, Bool, true, false, Option, none, some, List, [], ◌∷◌, ◌++◌,
  length, ltb, ◌==◌, ℤ, pos, negsuc, int_eq, if◌then◌else◌, Result, ok, fault, ◌>>=◌,
}
use socketforioswinandroid.MemBuffer.{Allocator}
use socketforioswinandroid.NetMessage.{NetMessage, reset_for_send}
use socketforioswinandroid.MessagePool.{MessageBufPool, delete_messages}
use socketforioswinandroid.Network.{
  Network, SocketCommon, Selected, failed, ready, ConnectResult, established, in_progress, refused,
  look, new_socket_common, set_flags, create_socket, close_socket, connect_to, keep_alived,
}

-- The NetConState_ constants, in the order of their numbers.
pub data NetConState : Type 0 where
  connecting connect_time_out connect_error connected disconnected : NetConState

-- A NetMessage* that is not null: its address, and the object there.
pub record MessagePtr : Type 0 where
  pub address : ℕ
  pub message : NetMessage

-- m_server holds the text of the address without its terminator. m_port is -1 before the first
-- call.
pub record ConnectionManager : Type 0 where
  pub m_server : List ℕ
  pub m_port : ℤ
  pub m_send_list : List MessagePtr
  pub m_recv_list : List MessagePtr
  pub m_p_socket : Option SocketCommon
  pub m_net_state : NetConState
  pub m_encrypt_inited : Bool
  pub m_name : List ℕ
  pub m_t_out_timer : ℤ

-- CConnectionManager::CConnectionManager
unfoldable pub new_connection_manager : ConnectionManager
new_connection_manager = record {
  m_server = [];
  m_port = negsuc 0;
  m_send_list = [];
  m_recv_list = [];
  m_p_socket = none;
  m_net_state = disconnected;
  m_encrypt_inited = false;
  m_name = [];
  m_t_out_timer = negsuc 0;
}

abbrev pub connect_timeout : ℤ
connect_timeout = pos 5000

abbrev pub messages : List MessagePtr → List NetMessage
messages [] = []
messages (p ∷ ps) = p.message ∷ messages ps

-- What all the objects of the process share: the operating system, the buffer pool, and the address
-- that the next `new NetMessage` returns. Addresses are not used twice.
pub record Process (net : Network) : Type 0 where
  pub world : net.World
  pub pool : MessageBufPool
  pub next_address : ℕ

-- CConnectionManager::OnSuccess
unfoldable pub on_success : ConnectionManager → ConnectionManager
on_success c = record c { m_net_state = connected; m_t_out_timer = negsuc 0 }

-- What CheckState asks of the answer of select().
abbrev pub is_error : Selected → Bool
is_error failed = true
is_error (ready error write read) = error

abbrev pub writable : Selected → Bool
writable failed = false
writable (ready error write read) = write

abbrev pub readable : Selected → Bool
readable failed = false
readable (ready error write read) = read

module _ (net : Network) where
  -- CConnectionManager::Close
  unfoldable pub close : Process net → ConnectionManager → Process net × ConnectionManager
  close p c = elim c.m_p_socket [
    | none ↦ (p, record c { m_encrypt_inited = false })
    | some s ↦ (
      record p { world = (close_socket net s p.world).1 },
      record c { m_encrypt_inited = false; m_p_socket = none; m_net_state = disconnected },
    )
  ]

  -- CConnectionManager::OnError. The error code is only printed.
  unfoldable pub on_error : Process net → ConnectionManager → Process net × ConnectionManager
  unfolding close
  on_error p c = let (p, c) = close p c in (p, record c { m_net_state = connect_error })

  -- CConnectionManager::OnTimeOut
  unfoldable pub on_time_out : Process net → ConnectionManager → Process net × ConnectionManager
  unfolding close
  on_time_out p c =
      let (p, c) = close p c in
      (p, record c { m_t_out_timer = negsuc 0; m_net_state = connect_time_out })

  -- CConnectionManager::CheckState. Without a socket it reads through a null pointer, and FD_SET of
  -- a descriptor that is negative, or FD_SETSIZE or more, writes beside the set.
  unfoldable pub check_state :
      Process net → ConnectionManager → Result (Bool × Process net × ConnectionManager)
  unfolding on_error set_flags look
  check_state p c = elim c.m_p_socket [
    | none ↦ fault
    | some s ↦ elim (look net s.m_socket p.world) [
      | none ↦ fault
      | some seen ↦
          let p = record p { world = (net.select s.m_socket p.world).1 } in
          if is_error seen
          then (let (p, c) =
                on_error p (record c { m_p_socket = some (set_flags false false s) }) in
              ok (false, p, c))
          else ok (
            true,
            p,
            record c { m_p_socket = some (set_flags (writable seen) (readable seen) s) },
          )
    ]
  ]

  -- CConnectionManager::ClearCached. Every message goes back to the pool with its buffer.
  unfoldable pub clear_cached : Process net → ConnectionManager → Process net × ConnectionManager
  clear_cached p c =
      let pool = delete_messages (messages c.m_send_list) p.pool in
      (
        record p { pool = delete_messages (messages c.m_recv_list) pool },
        record c { m_send_list = []; m_recv_list = [] },
      )

  -- CConnectionManager::~CConnectionManager
  unfoldable pub delete_connection : Process net → ConnectionManager → Process net
  unfolding close clear_cached
  delete_connection p c = let (p, c) = close p c in (clear_cached p c).0

  -- CConnectionManager::GetInstance and Restart, on m_instance.
  unfoldable pub get_instance : Option ConnectionManager → ConnectionManager
  unfolding new_connection_manager
  get_instance none = new_connection_manager
  get_instance (some c) = c

  unfoldable pub restart : Process net → Option ConnectionManager → Process net × ConnectionManager
  unfolding delete_connection new_connection_manager
  restart p none = (p, new_connection_manager)
  restart p (some c) = (delete_connection p c, new_connection_manager)

  -- CConnectionManager::GetUrlAddrinfo. The hints ask for a stream of any family.
  abbrev pub get_url_addrinfo : List ℕ → ℤ → net.World → Option (List net.Address) × net.World
  get_url_addrinfo url port w = net.getaddrinfo url port w

  -- How the loop of DoConnect over the addresses ends: with a return after an error, or behind it.
  pub data Attempt : Type 0 where
    gave_up : SocketCommon → net.World → Attempt
    goes_on : SocketCommon → net.World → Attempt

  -- The loop. The descriptor of an address that refuses is not closed before the next is tried. A
  -- descriptor is -1 or not negative, so the second test of `ret` in the source is never met.
  unfoldable pub try_addresses : List net.Address → SocketCommon → net.World → Attempt
  unfolding create_socket connect_to
  try_addresses [] s w = goes_on s w
  try_addresses (addr ∷ rest) s w =
      let (fd, s, w) = create_socket net addr s w in
      let next = try_addresses rest s w in
      if int_eq fd (negsuc 0)
      then elim rest [ [] ↦ gave_up s w | _ ∷ _ ↦ next ]
      else (let w = net.set_nonblocking fd w in
          let (answer, w) = connect_to net addr s w in
          let next = try_addresses rest s w in
          elim answer [ refused ↦ elim rest [ [] ↦ gave_up s w | _ ∷ _ ↦ next ] | _ ↦ goes_on s w ])

  -- CConnectionManager::DoConnect. `own` says that the address it is given is m_server itself,
  -- which memcpy may not copy onto itself. An address of 128 bytes or more runs over the end of
  -- m_server.
  unfoldable pub do_connect :
      (own : Bool)
      → List ℕ
      → ℤ
      → Process net
      → ConnectionManager
      → Result (Bool × Process net × ConnectionManager)
  unfolding try_addresses check_state on_error new_socket_common
  do_connect true address port p c = fault
  do_connect false address port p c =
      if ltb (length address) 128
      then (let c = record c { m_server = address; m_port = port } in
          let (found, w) = get_url_addrinfo address port p.world in
          let p = record p { world = w } in
          elim found [
            | none ↦ let (p, c) = on_error p c in ok (false, p, c)
            | some addresses ↦ elim (try_addresses addresses new_socket_common w) [
              | gave_up s w ↦
                  let (p, c) =
                    on_error (record p { world = w }) (record c { m_p_socket = some s }) in
                  ok (false, p, c)
              | goes_on s w ↦
                  check_state (record p { world = w })
                    (record c {
                      m_p_socket = some s;
                      m_net_state = connecting;
                      m_t_out_timer = connect_timeout;
                    })
            ]
          ])
      else fault

  -- CConnectionManager::Connect, with an address that stands outside of the connection.
  unfoldable pub connect :
      List ℕ → ℤ → Process net → ConnectionManager → Result (Bool × Process net × ConnectionManager)
  unfolding do_connect close clear_cached
  connect address port p c =
      if int_eq c.m_port (negsuc 0)
      then do_connect false address port p c
      else (let (p, c) = close p c in
          let (p, c) = clear_cached p c in do_connect false address port p c)

  -- CConnectionManager::ReConnect. It gives its own m_server to Connect, which finds that m_port is
  -- not -1: it closes and clears again, and hands m_server on to DoConnect.
  unfoldable pub reconnect :
      Process net → ConnectionManager → Result (Process net × ConnectionManager)
  unfolding do_connect close clear_cached
  reconnect p c =
      if int_eq c.m_port (negsuc 0)
      then ok (p, c)
      else (let (p, c) = close p c in
          let (p, c) = clear_cached p c in
          let (p, c) = close p c in
          let (p, c) = clear_cached p c in
          do_connect true c.m_server c.m_port p c >>= λ (_, p, c). ok (p, c))

  -- CConnectionManager::KeepAlived
  unfoldable pub keep_alived_connection :
      (keepalive keepidle keepinterval keepcount : ℤ)
      → Process net
      → ConnectionManager
      → ℤ × Process net
  unfolding keep_alived
  keep_alived_connection keepalive keepidle keepinterval keepcount p c = elim c.m_p_socket [
    | none ↦ (negsuc 0, p)
    | some s ↦
        let (rst, w) = keep_alived net keepalive keepidle keepinterval keepcount s p.world in
        (rst, record p { world = w })
  ]

-- CConnectionManager::EncodeMsg and DecodeBuf change nothing, with encryption or without.
unfoldable pub encode_msg : NetMessage → NetMessage
encode_msg m = m

unfoldable pub decode_buf : NetMessage → NetMessage
decode_buf m = m

-- CConnectionManager::SendMsg
unfoldable pub send_msg : MessagePtr → ConnectionManager → ConnectionManager
unfolding encode_msg reset_for_send
send_msg q c = record c {
  m_send_list =
      c.m_send_list ++ (record q { message = encode_msg (reset_for_send q.message) } ∷ []);
}

-- CConnectionManager::InitEncrypt
unfoldable pub encode_each : List MessagePtr → List MessagePtr
unfolding encode_msg
encode_each [] = []
encode_each (q ∷ qs) = record q { message = encode_msg q.message } ∷ encode_each qs

unfoldable pub init_encrypt : ConnectionManager → ConnectionManager
unfolding encode_each
init_encrypt c = record c { m_encrypt_inited = true; m_send_list = encode_each c.m_send_list }

-- CConnectionManager::getMsg and RemoveMsg.
unfoldable pub get_msg : ConnectionManager → Option MessagePtr
get_msg c = elim c.m_recv_list [ [] ↦ none | q ∷ qs ↦ some q ]

unfoldable pub remove_address : ℕ → List MessagePtr → List MessagePtr
remove_address address [] = []
remove_address address (q ∷ qs) = if q.address == address then qs else q ∷ remove_address address qs

unfoldable pub remove_msg : ℕ → ConnectionManager → ConnectionManager
unfolding remove_address
remove_msg address c = record c { m_recv_list = remove_address address c.m_recv_list }
