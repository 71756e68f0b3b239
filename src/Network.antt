-- ===== src/Network.antt =====
-- class CSocketCommon of SocketCommon.h and SocketCommon.cpp, in the build for other systems than
-- Windows, over the operating system's sockets, which are a parameter.
use socketforioswinandroid.Common.{
  ℕ, ◌≤◌, ◌≡◌, Bool, false, Option, none, some, List, length, ltb, ℤ, pos, negsuc, int_eq,
  if◌then◌else◌,
}

-- What select() says of the one socket that it is asked about.
pub data Selected : Type 0 where
  failed : Selected
  ready : (error write read : Bool) → Selected

pub data ConnectResult : Type 0 where
  established in_progress refused : ConnectResult

pub data SocketOption : Type 0 where
  tcp_nodelay so_keepalive tcp_keepidle tcp_keepintvl tcp_keepcnt : SocketOption

-- The operating system. A call may change its state, `World`. An address is one entry of the list
-- that getaddrinfo() makes. `send` returns -1 or a count, and `recv` no bytes at the end of the
-- stream, and nothing for -1.
pub record Network : Type 1 where
  pub World : Type 0
  pub Address : Type 0
  pub getaddrinfo : List ℕ → ℤ → World → Option (List Address) × World
  pub socket : Address → World → ℤ × World
  pub setsockopt : ℤ → SocketOption → ℤ → World → ℤ × World
  pub set_nonblocking : ℤ → World → World
  pub connect : ℤ → Address → World → ConnectResult × World
  pub select : ℤ → World → Selected × World
  pub send : ℤ → List ℕ → World → ℤ × World
  pub recv : ℤ → ℕ → World → Option (List ℕ) × World
  pub close : ℤ → World → World
  pub bind : ℤ → Address → World → ℤ × World
  pub listen : ℤ → ℤ → World → ℤ × World
  pub accept : ℤ → World → ℤ × Option Address × World
  pub errno : World → ℤ

-- What POSIX says of the counts: no more is sent than was given, and no more is received than was
-- asked for.
pub record IsNetwork (net : Network) : Type 0 where
  pub send_count :
      (fd : ℤ) (bytes : List ℕ) (w w' : net.World) (n : ℕ)
      → net.send fd bytes w ≡ (pos n, w')
      → n ≤ length bytes
  pub recv_count :
      (fd : ℤ) (cap : ℕ) (w w' : net.World) (bytes : List ℕ)
      → net.recv fd cap w ≡ (some bytes, w')
      → length bytes ≤ cap

-- FD_SETSIZE, and the descriptors that FD_SET may be given: with any other it writes beside the
-- set.
abbrev pub fd_setsize : ℕ
fd_setsize = 1024

unfoldable pub fits_fd_set : ℤ → Bool
fits_fd_set (pos fd) = ltb fd fd_setsize
fits_fd_set (negsuc n) = false

-- What select() answers on a set of the one descriptor; nothing if FD_SET may not be given it.
unfoldable pub look : (net : Network) → ℤ → net.World → Option Selected
unfolding fits_fd_set
look net fd w = if fits_fd_set fd then some (net.select fd w).0 else none

-- The fields of CSocketCommon.
pub record SocketCommon : Type 0 where
  pub m_read_flag : Bool
  pub m_write_flag : Bool
  pub m_socket : ℤ

-- CSocketCommon::CSocketCommon()
unfoldable pub new_socket_common : SocketCommon
new_socket_common = record { m_read_flag = false; m_write_flag = false; m_socket = negsuc 0 }

-- CSocketCommon::CSocketCommon(int), for a descriptor that is there already.
unfoldable pub socket_common_of : ℤ → SocketCommon
socket_common_of socket = record { m_read_flag = false; m_write_flag = false; m_socket = socket }

-- CSocketCommon::GetSocket, getWriteFlag and getReadFlag.
unfoldable pub get_socket : SocketCommon → ℤ
get_socket s = s.m_socket

unfoldable pub get_flags : SocketCommon → Bool × Bool
get_flags s = (s.m_write_flag, s.m_read_flag)

unfoldable pub set_flags : Bool → Bool → SocketCommon → SocketCommon
set_flags write read s = record s { m_write_flag = write; m_read_flag = read }

module _ (net : Network) where
  -- CSocketCommon::CreateSocket. It returns the descriptor, -1 if there is none.
  unfoldable pub create_socket :
      net.Address → SocketCommon → net.World → ℤ × SocketCommon × net.World
  create_socket addr s w =
      let (fd, w) = net.socket addr w in
      let w = (if int_eq fd (negsuc 0) then w else (net.setsockopt fd tcp_nodelay (pos 1) w).1) in
      (fd, record s { m_socket = fd }, w)

  -- CSocketCommon::CloseSocket
  unfoldable pub close_socket : SocketCommon → net.World → SocketCommon × net.World
  close_socket s w = (record s { m_socket = negsuc 0 }, net.close s.m_socket w)

  -- CSocketCommon::Bind, Listen and Accept. Bind and Accept give the size of a struct sockaddr as
  -- the address's.
  unfoldable pub bind_to : net.Address → SocketCommon → net.World → ℤ × net.World
  bind_to addr s w = net.bind s.m_socket addr w

  unfoldable pub listen_for : ℤ → SocketCommon → net.World → ℤ × net.World
  listen_for count s w = net.listen s.m_socket count w

  unfoldable pub accept_one : SocketCommon → net.World → ℤ × Option net.Address × net.World
  accept_one s w = net.accept s.m_socket w

  -- CSocketCommon::GetError
  unfoldable pub get_error : net.World → ℤ
  get_error w = net.errno w

  -- CSocketCommon::ConnectTo
  unfoldable pub connect_to : net.Address → SocketCommon → net.World → ConnectResult × net.World
  connect_to addr s w = net.connect s.m_socket addr w

  -- CSocketCommon::Send and Recv.
  unfoldable pub send : List ℕ → SocketCommon → net.World → ℤ × net.World
  send bytes s w = net.send s.m_socket bytes w

  unfoldable pub recv : ℕ → SocketCommon → net.World → Option (List ℕ) × net.World
  recv size s w = net.recv s.m_socket size w

  -- CSocketCommon::KeepAlived. Its result is that of the first call.
  unfoldable pub keep_alived :
      (keepalive keepidle keepinterval keepcount : ℤ) → SocketCommon → net.World → ℤ × net.World
  keep_alived keepalive keepidle keepinterval keepcount s w =
      let (rst, w) = net.setsockopt s.m_socket so_keepalive keepalive w in
      if int_eq keepalive (pos 0)
      then (rst, w)
      else (let (_, w) = net.setsockopt s.m_socket tcp_keepidle keepidle w in
          let (_, w) = net.setsockopt s.m_socket tcp_keepintvl keepinterval w in
          let (_, w) = net.setsockopt s.m_socket tcp_keepcnt keepcount w in (rst, w))
