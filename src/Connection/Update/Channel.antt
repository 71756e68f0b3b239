-- ===== src/Connection/Update/Channel.antt =====
-- Two connections as a channel: what one has in its queue comes out of the other.
use socketforioswinandroid.Common.{ℕ, ◌≡◌, not, true, some, List, length, ◌==◌}
use socketforioswinandroid.MessagePool.Fresh.{AllBlocks}
use socketforioswinandroid.Network.{Network, SocketCommon}
use socketforioswinandroid.Connection.{ConnectionManager, Process}
use socketforioswinandroid.Connection.Update.Delivery.{IsSending}
use socketforioswinandroid.Connection.Update.Outbox.{IsWritable, Queued}
use socketforioswinandroid.Connection.Update.Inbox.{IsReadable, IsClosed}

-- A connection that can send what is in its queue: its socket has room.
pub record IsSender (net : Network) (log : net.World → List ℕ) (bodies : List (List ℕ))
    (c : ConnectionManager) : Type 0 where
  pub socket : SocketCommon
  pub up : c.m_p_socket ≡ some socket
  pub free : socket.m_write_flag ≡ true
  pub sending : IsSending net socket.m_socket log
  pub has_room : IsWritable net socket.m_socket log
  pub queued : Queued bodies c.m_send_list

-- A connection that can receive the bytes that `deliver` puts behind its socket, `flag` telling it
-- whether there are any.
pub record IsReceiver (net : Network) (pending : net.World → List ℕ)
    (deliver : List ℕ → Process net) (bytes : List ℕ) (c : ConnectionManager) : Type 0 where
  pub socket : SocketCommon
  pub up : c.m_p_socket ≡ some socket
  pub readable : IsReadable net socket.m_socket pending
  pub closed : IsClosed c.m_recv_list
  pub flag : socket.m_read_flag ≡ not (length bytes == 0)
  pub arrives : (bytes : List ℕ) → pending (deliver bytes).world ≡ bytes
  pub blocks : (bytes : List ℕ) → AllBlocks (deliver bytes).pool.m_pool
