-- ===== src/Connection/Update.antt =====
-- CConnectionManager::Update: one turn of the connection, and its loops. The loops take fuel; a
-- turn that uses it up is `stuck`.
pub mod States
pub mod Traffic
pub mod Turn
pub mod Sound
pub mod Crash
pub mod Delivery
pub mod Outbox
pub mod Inbox
pub mod Channel
pub mod Keeps
pub mod Exchange
pub mod TimeOut
use socketforioswinandroid.Common.{
  ℕ, zero, suc, ◌+◌, ◌-◌, ◌^◌, Bool, true, false, ◌&&◌, ◌||◌, not, Option, none, some, List, [],
  ◌∷◌, ◌++◌, length, ltb, leb, ◌==◌, ℤ, pos, negsuc, pos_part, neg_part, sub_ℕ, int_eq, is_positive,
  is_negative, if◌then◌else◌, Result, ok, fault, stuck, ◌>>=◌,
}
use socketforioswinandroid.MemBuffer.{Allocator, copy_out}
use socketforioswinandroid.NetMessage.{NetMessage, is_end, get_read_cap, get_send_cap, on_send}
use socketforioswinandroid.NetMessage.Frame.Receive.{receive_chunk}
use socketforioswinandroid.MessagePool.{MessageBufPool, create_message, delete_message}
use socketforioswinandroid.Network.{Network, SocketCommon, send, recv}
use socketforioswinandroid.Connection.{
  NetConState, connecting, connect_time_out, connect_error, connected, disconnected, MessagePtr,
  ConnectionManager, Process, connect_timeout, on_error, on_time_out, on_success, check_state,
  decode_buf,
}

-- The states in which Update does something, if there is a socket.
abbrev pub is_live : NetConState → Bool
is_live connecting = true
is_live connected = true
is_live connect_time_out = false
is_live connect_error = false
is_live disconnected = false

abbrev pub is_connect_error : NetConState → Bool
is_connect_error connect_error = true
is_connect_error connecting = false
is_connect_error connected = false
is_connect_error connect_time_out = false
is_connect_error disconnected = false

abbrev pub is_connecting : NetConState → Bool
is_connecting connecting = true
is_connecting connected = false
is_connecting connect_error = false
is_connecting connect_time_out = false
is_connecting disconnected = false

-- m_tOutTimer -= dt
abbrev pub minus : ℤ → ℤ → ℤ
minus a b = sub_ℕ (pos_part a + neg_part b) (neg_part a + pos_part b)

-- Whether an integer is one of 32 bits; a subtraction whose result is none overflows.
unfoldable pub fits_int : ℤ → Bool
fits_int (pos n) = ltb n (2 ^ 31)
fits_int (negsuc n) = ltb n (2 ^ 31)

unfoldable pub less_time : ℤ → ℤ → Result ℤ
unfolding fits_int
less_time timer dt = if fits_int (minus timer dt) then ok (minus timer dt) else fault

-- The last element of a list, and those before it.
unfoldable pub split_back : List MessagePtr → Option (List MessagePtr × MessagePtr)
split_back [] = none
split_back (q ∷ qs) = elim (split_back qs) [
  | none ↦ some ([], q)
  | some (front, back) ↦ some (q ∷ front, back)
]

module _ (net : Network) where
  -- The part of Update for the state Connecting.
  unfoldable pub wait_for_connection :
      ℤ → SocketCommon → Process net → ConnectionManager → Result (Process net × ConnectionManager)
  unfolding on_success on_time_out less_time
  wait_for_connection dt s p c =
      if s.m_write_flag
      then (if int_eq connect_timeout c.m_t_out_timer
          then (less_time c.m_t_out_timer dt >>= λ timer.
              ok (p, record c { m_t_out_timer = timer }))
          else ok (p, on_success c))
      else (less_time c.m_t_out_timer dt >>= λ timer.
          if is_positive timer
          then ok (p, record c { m_t_out_timer = timer })
          else ok (on_time_out net p (record c { m_t_out_timer = negsuc 0 })))

  -- The inner loop over a message that is sent: `true` if it has come to its end, `false` after an
  -- error of send(). In both cases with the message as it is by then.
  unfoldable pub send_message :
      ℕ → SocketCommon → NetMessage → net.World → Result (Bool × NetMessage × net.World)
  unfolding send on_send copy_out
  send_message zero s m w = stuck
  send_message (suc fuel) s m w = elim (is_end m) [
    | true ↦ ok (true, m, w)
    | false ↦
        (if is_negative (get_send_cap m)
          then fault
          else copy_out m.m_buffer m.m_cur_pos (pos_part (get_send_cap m)))
        >>= λ bytes.
            let (sent, w) = send net bytes s w in
            if is_negative sent
            then ok (false, m, w)
            else (on_send (pos_part sent) m >>= λ m. send_message fuel s m w)
  ]

  -- The loop over m_sendList. `false` means that Update returns.
  unfoldable pub send_loop :
      ℕ → ℕ → Process net → ConnectionManager → Result (Bool × Process net × ConnectionManager)
  unfolding send_message on_error check_state delete_message
  send_loop inner zero p c = stuck
  send_loop inner (suc fuel) p c = elim c.m_p_socket [
    | none ↦ fault
    | some s ↦ elim (s.m_write_flag) [
      | false ↦ ok (true, p, c)
      | true ↦ elim c.m_send_list [
        | [] ↦ ok (true, p, c)
        | q ∷ qs ↦ send_message inner s q.message p.world >>= λ (done, m, w). elim done [
          | false ↦
              let (p, c) =
                on_error net (record p { world = w })
                  (record c { m_send_list = record q { message = m } ∷ qs }) in
              ok (false, p, c)
          | true ↦
              check_state net (record p { world = w; pool = delete_message m p.pool })
                (record c { m_send_list = qs })
              >>= λ (_, p, c). send_loop inner fuel p c
        ]
      ]
    ]
  ]

  -- The message that the receive loop goes on with: the last of m_recvList if it is not at its end,
  -- and otherwise a new one, pushed at the back. With it come the messages before it.
  unfoldable pub open_message :
      Allocator → Process net → List MessagePtr → List MessagePtr × MessagePtr × Process net
  unfolding split_back create_message
  open_message a p qs =
      let (m, pool) = create_message a 512 p.pool in
      let fresh : MessagePtr = record { address = p.next_address; message = m } in
      let p' : Process net = record p { pool = pool; next_address = p.next_address + 1 } in
      elim (split_back qs) [
        | none ↦ (qs, fresh, p')
        | some (front, back) ↦ if is_end back.message then (qs, fresh, p') else (front, back, p)
      ]

  -- What one round does once `recv` has answered.
  unfoldable pub take_in :
      Allocator
      → List MessagePtr
      → MessagePtr
      → Option (List ℕ)
      → Process net
      → ConnectionManager
      → Result (Bool × Process net × ConnectionManager)
  unfolding on_error receive_chunk check_state decode_buf
  take_in a front q none p c =
      let (p, c) = on_error net p (record c { m_recv_list = front ++ (q ∷ []) }) in ok (false, p, c)
  take_in a front q (some []) p c =
      let (p, c) = on_error net p (record c { m_recv_list = front ++ (q ∷ []) }) in ok (false, p, c)
  take_in a front q (some (b ∷ bs)) p c =
      let m = (if is_negative q.message.m_size then q.message else decode_buf q.message) in
      receive_chunk a (b ∷ bs) m >>= λ m.
      (check_state net p (record c { m_recv_list = front ++ (record q { message = m } ∷ []) })
        >>= λ (_, p, c). ok (true, p, c))

  -- One round of the receive loop, with the message that it goes on with.
  unfoldable pub recv_round :
      Allocator
      → SocketCommon
      → List MessagePtr × MessagePtr × Process net
      → ConnectionManager
      → Result (Bool × Process net × ConnectionManager)
  unfolding recv take_in
  recv_round a s (front, q, p) c =
      let (answer, w) = recv net (pos_part (get_read_cap q.message)) s p.world in
      if is_negative (get_read_cap q.message)
      then fault
      else take_in a front q answer (record p { world = w }) c

  -- The receive loop. `false` means that Update returns.
  unfoldable pub recv_loop :
      Allocator
      → ℕ
      → Process net
      → ConnectionManager
      → Result (Bool × Process net × ConnectionManager)
  unfolding open_message recv_round
  recv_loop a zero p c = stuck
  recv_loop a (suc fuel) p c = elim c.m_p_socket [
    | none ↦ fault
    | some s ↦ elim (s.m_read_flag) [
      | false ↦ ok (true, p, c)
      | true ↦ recv_round a s (open_message a p c.m_recv_list) c >>= λ (more, p, c). elim more [
        | false ↦ ok (false, p, c)
        | true ↦ recv_loop a fuel p c
      ]
    ]
  ]

  -- Update behind the first CheckState, by the state in which that left the connection.
  unfoldable pub after_check :
      Allocator
      → ℕ
      → ℕ
      → ℤ
      → Process net
      → ConnectionManager
      → Result (Process net × ConnectionManager)
  unfolding wait_for_connection send_loop recv_loop
  after_check a inner fuel dt p c =
      if is_connect_error c.m_net_state
      then ok (p, c)
      else (if is_connecting c.m_net_state
          then elim c.m_p_socket [ none ↦ fault | some s ↦ wait_for_connection dt s p c ]
          else send_loop inner fuel p c >>= λ (more, p, c). elim more [
            | false ↦ ok (p, c)
            | true ↦ recv_loop a fuel p c >>= λ (_, p, c). ok (p, c)
          ])

  -- CConnectionManager::Update. `inner` rounds for a message, and `fuel` for each list.
  unfoldable pub update :
      Allocator
      → ℕ
      → ℕ
      → ℤ
      → Process net
      → ConnectionManager
      → Result (Process net × ConnectionManager)
  unfolding check_state after_check
  update a inner fuel dt p c = elim c.m_p_socket [
    | none ↦ ok (p, c)
    | some s ↦
        if is_live c.m_net_state
        then (check_state net p c >>= λ (_, p, c). after_check a inner fuel dt p c)
        else ok (p, c)
  ]
