-- ===== src/LuaMsg/Script.antt =====
-- What a script writes and sends.
use socketforioswinandroid.Common.{
  ℕ, ◌+◌, ◌^◌, ◌≤◌, ◌<◌, ◌≡◌, refl, ap, Option, some, none, List, [], ◌∷◌, ◌++◌, length, arith, pos,
  Result, ok, ◌>>=◌, Returns, returns, Returns-bind,
}
use socketforioswinandroid.MemBuffer.{Allocator, IsAllocator, HasMemory}
use socketforioswinandroid.NetMessage.{NetMessage, reset_for_send}
use socketforioswinandroid.NetMessage.Write.{w_raw}
use socketforioswinandroid.NetMessage.Write.Laws.{CanWrite, Wrote}
use socketforioswinandroid.NetMessage.Write.Appends.{w_raw-Wrote}
use socketforioswinandroid.NetMessage.Frame.{begin_for_write, end_for_write}
use socketforioswinandroid.NetMessage.Frame.Send.{Framed, end_for_write-Framed}
use socketforioswinandroid.MessagePool.{create_message}
use socketforioswinandroid.MessagePool.Fresh.{AllBlocks, create_message-IsFresh}
use socketforioswinandroid.Network.{Network}
use socketforioswinandroid.Connection.{ConnectionManager, MessagePtr, Process, send_msg, encode_msg}
use socketforioswinandroid.Connection.Update.Outbox.{Queued, nothing, another}
use socketforioswinandroid.SocketObject.{SocketObject, get_connection, hold, insert_object}
use socketforioswinandroid.LuaMsg.{
  LuaMsg, named_socket, create_new_message, begin_msg, write_raw_msg, end_msg, send_lua_msg,
}

Queued-append :
    (bodies : List (List ℕ)) (qs : List MessagePtr) (body : List ℕ) (q : MessagePtr)
    → Queued bodies qs
    → Framed body q.message
    → 6 + length body < 2 ^ 31
    → Queued (bodies ++ (body ∷ [])) (qs ++ (q ∷ []))
Queued-append bodies qs body q nothing framed small = another framed small nothing
Queued-append bodies qs body q (another f h queued) framed small =
    another f h (Queued-append _ _ body q queued framed small)

-- ResetForSend puts the position where the frame begins, which is where endForWrite has left it.
reset_for_send-Framed :
    (body : List ℕ) (m : NetMessage) → Framed body m → Framed body (reset_for_send m)
unfolding reset_for_send
reset_for_send-Framed body m f = record {
  size = f.size;
  head = f.head;
  start = f.start;
  at_start = refl;
  block = f.block;
  fits = f.fits;
  frame = f.frame;
}

-- The calls of a script that sends a body: CreateNewMessage, BeginForWrite, WriteRaw, EndForWrite.
abbrev pub composed : (a : Allocator) (net : Network) → List ℕ → Process net → Result LuaMsg
composed a net body p = begin_msg (create_new_message a net p).0 >>= λ (_, l).
    (write_raw_msg a body l >>= λ (_, l). (end_msg a l >>= λ (_, l). ok l))

module _ (a : Allocator) (law : IsAllocator a) (memory : HasMemory a) where
  -- The message that a script holds, with a new content.
  abbrev Holds : MessagePtr → (NetMessage → Type 0) → Unit {0} × LuaMsg → Type 0
  Holds q P (_, l) =
      (m : NetMessage) × (l ≡ record { m_p_msg = some (record q { message = m }) }) × P m

  write_raw_msg-Wrote :
      (body : List ℕ) (q : MessagePtr)
      → CanWrite q.message
      → q.message.m_cur_pos + length body ≤ 2 ^ 30
      → Returns
          (Holds q (Wrote q.message body 0))
          (write_raw_msg a body (record { m_p_msg = some q }))
  unfolding write_raw_msg
  write_raw_msg-Wrote body q can small =
      let wrote : Returns (λ (r : Unit {0} × NetMessage). Wrote q.message body 0 r.1)
          (w_raw a body (pos (length body)) q.message >>= λ m. ok (tt, m)) =
        Returns-bind (w_raw-Wrote a law memory body q.message can small) λ m w. returns w in
      Returns-bind wrote λ r w. returns (r.1, refl, w)

  end_msg-Framed :
      (m0 : NetMessage) (body : List ℕ) (q : MessagePtr)
      → CanWrite (begin_for_write m0)
      → length body < 2 ^ 31
      → Wrote (begin_for_write m0) body 0 q.message
      → Returns (Holds q (Framed body)) (end_msg a (record { m_p_msg = some q }))
  unfolding end_msg
  end_msg-Framed m0 body q can small w =
      let framed : Returns (λ (r : Unit {0} × NetMessage). Framed body r.1)
          (end_for_write a q.message >>= λ m. ok (tt, m)) =
        Returns-bind (end_for_write-Framed a law memory m0 body 0 q.message can small w)
          λ m f. returns f in
      Returns-bind framed λ r f. returns (r.1, refl, f)

  composed-Framed :
      (net : Network) (body : List ℕ) (p : Process net)
      → AllBlocks p.pool.m_pool
      → 6 + length body ≤ 2 ^ 30
      → Returns
          (λ l. (q : MessagePtr) × (l ≡ record { m_p_msg = some q }) × Framed body q.message)
          (composed a net body p)
  unfolding create_new_message begin_msg begin_for_write
  composed-Framed net body p blocks small =
      let m0 = (create_message a 512 p.pool).0 in
      let (f, room, rest) =
        create_message-IsFresh a law memory 512 p.pool (omega arith) (omega arith) blocks in
      let can : CanWrite (begin_for_write m0) = record {
        block = f.block;
        inside = omega (arith, room);
        some_room = omega (arith, room);
      } in
      let q : MessagePtr = record { address = p.next_address; message = begin_for_write m0 } in
      Returns-bind (write_raw_msg-Wrote body q can small) λ (_, l) (m, e, w). rw e (
        Returns-bind (end_msg-Framed m0 body (record q { message = m }) can (omega arith) w)
          λ (_, l') (m', e', f'). returns (record q { message = m' }, e', f'))

  -- While memory does not run out, with whole blocks in the pool: a script that makes a message,
  -- writes a body of at most 2 ^ 30 - 6 bytes into it and sends it through a socket that there is,
  -- comes to an end without a fault. The message then stands at the end of the queue of the
  -- socket's connection, ready to be sent with that body, and the script holds it no longer.
  pub send_lua_msg-Queued :
      (net : Network) (name : Option (List ℕ)) (objects : List SocketObject) (o : SocketObject)
      (c : ConnectionManager) (bodies : List (List ℕ)) (body : List ℕ) (p : Process net)
      → named_socket name objects ≡ some o
      → o.m_p_connection_mgr ≡ some c
      → Queued bodies c.m_send_list
      → AllBlocks p.pool.m_pool
      → 6 + length body ≤ 2 ^ 30
      → Returns
          (λ (l, objects').
            (qs : List MessagePtr) × (l.m_p_msg ≡ none)
            × (objects' ≡ insert_object (hold (record c { m_send_list = qs }) o) objects)
            × Queued (bodies ++ (body ∷ [])) qs)
          (composed a net body p >>= λ l. send_lua_msg name l objects)
  unfolding send_lua_msg get_connection send_msg encode_msg
  send_lua_msg-Queued net name objects o c bodies body p found held queued blocks small =
      Returns-bind (composed-Framed net body p blocks small) λ l (q, e, f).
        let msg : l.m_p_msg ≡ some q = ap (λ (l : LuaMsg). l.m_p_msg) e in
        rw (found, msg, send_lua_msg, get_connection, held)
          (returns (
            c.m_send_list ++ (record q { message = reset_for_send q.message } ∷ []),
            refl,
            refl,
            Queued-append bodies c.m_send_list body
                (record q { message = reset_for_send q.message }) queued
                (reset_for_send-Framed body q.message f) (omega arith),
          ))
