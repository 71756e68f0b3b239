-- ===== src/LuaMsg/Inbox.antt =====
-- What a script reads of a message that has been received.
use socketforioswinandroid.Common.{
  ℕ, zero, suc, ◌+◌, ◌^◌, ◌≤◌, ◌<◌, ◌≡◌, refl, ap, ◌∙◌, Option, some, none, inl, inr, Option-cases,
  List, [], ◌∷◌, length, get_elem?, arith, pos, pos_part, ◌+ℤ◌, Returns, returns, Returns-bind,
}
use socketforioswinandroid.MemBuffer.{MemBuffer, load}
use socketforioswinandroid.NetMessage.{NetMessage, dump, dump_from, reset_for_read}
use socketforioswinandroid.NetMessage.Read.Text.{read_raw-Reads}
use socketforioswinandroid.NetMessage.Frame.Receive.Whole.{Received}
use socketforioswinandroid.Connection.{
  ConnectionManager, MessagePtr, get_msg, remove_msg, remove_address,
}
use socketforioswinandroid.SocketObject.{SocketObject, get_connection, hold, insert_object}
use socketforioswinandroid.LuaMsg.{named_socket, load_from, load_msg, read_raw_msg}

load-Returns : (b : MemBuffer) (i : ℕ) → i < length b.m_buf → Returns (λ _. Unit {0}) (load b i)
unfolding load
load-Returns b i h = elim (Option-cases (get_elem? b.m_buf i)) [
  | inl e ↦ absurd (beyond b.m_buf i h e)
  | inr (v, e) ↦ rw (e, load) (returns tt)
]
  where
    beyond : (xs : List ℕ) (i : ℕ) → i < length xs → get_elem? xs i ≡ none → ⊥
    beyond [] i h e = absurd (omega arith)
    beyond (x ∷ xs) zero h e = cc
    beyond (x ∷ xs) (suc i) h e = beyond xs i (omega arith) e

dump_from-Returns :
    (n i : ℕ) (b : MemBuffer) → i + n ≤ length b.m_buf → Returns (λ _. Unit {0}) (dump_from n i b)
unfolding dump_from
dump_from-Returns zero i b h = returns tt
dump_from-Returns (suc n) i b h =
    Returns-bind (load-Returns b i (omega arith))
      λ v _. Returns-bind (dump_from-Returns n (i + 1) b (omega arith)) λ vs _. returns tt

dump-Received :
    (body : List ℕ) (m : NetMessage)
    → Received body m
    → Returns (λ _. Unit {0}) (dump (reset_for_read m))
unfolding dump reset_for_read
dump-Received body m r =
    let size : pos_part (m.m_size +ℤ pos m.m_head_size) ≡ length body + m.m_head_size =
      ap (λ z. pos_part (z +ℤ pos m.m_head_size)) r.size ∙ ground arith in
    rw size (
      dump_from-Returns (length body + m.m_head_size) 0 m.m_buffer
        (omega (arith, r.inside, r.block)))

read_raw_msg-Received :
    (body : List ℕ) (q : MessagePtr)
    → Received body q.message
    → length q.message.m_buffer.m_buf < 2 ^ 31
    → Returns
        (λ r. r.0 ≡ body)
        (read_raw_msg
          (pos (length body))
          (record { m_p_msg = some (record q { message = reset_for_read q.message }) }))
unfolding read_raw_msg reset_for_read
read_raw_msg-Received body q r small =
    Returns-bind (read_raw-Reads body r.rest (reset_for_read q.message) small r.readable)
      λ (v, m) (e, n). returns e

remove_msg-front :
    (c : ConnectionManager) (q : MessagePtr) (qs : List MessagePtr)
    → c.m_recv_list ≡ q ∷ qs
    → remove_msg q.address c ≡ record c { m_recv_list = qs }
unfolding remove_msg remove_address
remove_msg-front c q qs queued =
    let front : remove_address q.address (q ∷ qs) ≡ qs = ground arith in
    ap (λ l. record c { m_recv_list = remove_address q.address l }) queued
    ∙ ap (λ l. record c { m_recv_list = l }) front

get_connection-held :
    (o : SocketObject) (c : ConnectionManager)
    → o.m_p_connection_mgr ≡ some c
    → get_connection o ≡ c
unfolding get_connection
get_connection-held o c held = rw held refl

-- A script that asks for the message of a socket that there is, whose connection has received one
-- in a block that an int can measure, gets it without a fault. ReadRaw with the size of the body
-- then returns the body, and the connection keeps the messages behind it.
pub load_msg-Received :
    (name : Option (List ℕ)) (objects : List SocketObject) (o : SocketObject)
    (c : ConnectionManager) (q : MessagePtr) (qs : List MessagePtr) (body : List ℕ)
    → named_socket name objects ≡ some o
    → o.m_p_connection_mgr ≡ some c
    → c.m_recv_list ≡ q ∷ qs
    → Received body q.message
    → q.message.m_buffer.m_size < 2 ^ 31
    → Returns
        (λ r.
          Returns (λ s. s.0 ≡ body) (read_raw_msg (pos (length body)) r.0)
          × (r.1 ≡ insert_object (hold (record c { m_recv_list = qs }) o) objects))
        (load_msg name objects)
unfolding load_msg load_from get_connection get_msg remove_msg remove_address
load_msg-Received name objects o c q qs body found held queued r small =
    rw (found, held, load_msg, load_from, get_connection, get_msg, queued)
      (Returns-bind (dump-Received body q.message r) λ _ _. returns (
        read_raw_msg-Received body q r (omega (arith, r.block)),
        ap (λ d. insert_object (hold (remove_msg q.address d) o) objects)
              (get_connection-held o c held)
            ∙ ap (λ d. insert_object (hold d o) objects) (remove_msg-front c q qs queued),
      ))
