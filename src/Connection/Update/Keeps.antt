-- ===== src/Connection/Update/Keeps.antt =====
-- What the loops leave as it was. That over m_sendList: the bytes that wait to be read, the flag
-- that tells of them, and the blocks of the pool. That over recv(): the bytes that have been sent.
use socketforioswinandroid.Common.{
  ℕ, zero, suc, ◌≡◌, refl, sym, ap, ◌∙◌, inl, inr, Bool, true, false, Bool-cases, Option, none,
  ◌++◌, Option-cases, List-cases, some, List, [], ◌∷◌, ℤ, ok, is_negative, pos_part, arith,
  if◌then◌else◌, Result, ◌>>=◌, Yields, Yields-bind, Yields-any,
}
use socketforioswinandroid.MemBuffer.{Allocator, MemBuffer, IsBlock}
use socketforioswinandroid.NetMessage.{NetMessage, is_end, get_read_cap, on_send, skip}
use socketforioswinandroid.NetMessage.Frame.Receive.{receive_chunk}
use socketforioswinandroid.MessagePool.{delete_message}
use socketforioswinandroid.MessagePool.Fresh.{AllBlocks, delete_message-AllBlocks}
use socketforioswinandroid.Network.{Network, SocketCommon, ready, look, set_flags, send, recv}
use socketforioswinandroid.Connection.{MessagePtr, ConnectionManager, Process}
use socketforioswinandroid.Connection.Update.{
  split_back, send_loop, send_message, open_message, take_in, recv_round, recv_loop,
}
use socketforioswinandroid.Connection.Update.Outbox.{check_state-ready}

abbrev pub HoldBlocks : List MessagePtr → Type 0
HoldBlocks [] = Unit {0}
HoldBlocks (q ∷ qs) = IsBlock q.message.m_buffer × HoldBlocks qs

-- onSend moves the position on and leaves the block.
on_send-m_buffer : (n : ℕ) (m : NetMessage) → Yields (λ m'. m'.m_buffer ≡ m.m_buffer) (on_send n m)
unfolding on_send skip
on_send-m_buffer n m = ground arith

HoldBlocks-same : (xs ys : List MessagePtr) → xs ≡ ys → HoldBlocks xs → HoldBlocks ys
HoldBlocks-same xs ys e h = rw (← e) h

module _ (net : Network) (fd : ℤ) (I : net.World → Type 0) (flag : Bool)
    (send_keeps : (bytes : List ℕ) (w : net.World) → I w → I (net.send fd bytes w).1)
    (select_keeps : (w : net.World) → I w → I (net.select fd w).1)
    (seen : (w : net.World) → I w → look net fd w ≡ some (ready false true flag)) where
  abbrev KeptIn : MemBuffer → Bool × NetMessage × net.World → Type 0
  KeptIn b (done, m, w) = I w × (m.m_buffer ≡ b)

  send_message-keeps :
      (fuel : ℕ) (s : SocketCommon) (m : NetMessage) (w : net.World) (b : MemBuffer)
      → s.m_socket ≡ fd
      → I w
      → m.m_buffer ≡ b
      → Yields (KeptIn b) (send_message net fuel s m w)
  unfolding send_message send
  send_message-keeps zero s m w b same i e = tt
  send_message-keeps (suc fuel) s m w b same i e = elim (Bool-cases (is_end m)) [
    | inl ended ↦ rw (ended, send_message) (i, e)
    | inr more ↦
        let next : List ℕ → Result (Bool × NetMessage × net.World) = λ bytes.
          let (sent, w) = send net bytes s w in
          if is_negative sent
          then ok (false, m, w)
          else (on_send (pos_part sent) m >>= λ m. send_message net fuel s m w) in
        let keeps : (bytes : List ℕ) → Yields (KeptIn b) (next bytes) = λ bytes.
          let kept : I (send net bytes s w).1 = rw same (send_keeps bytes w i) in
          elim (Bool-cases (is_negative (send net bytes s w).0)) [
            | inl bad ↦ rw bad (kept, e)
            | inr good ↦ rw good (
                Yields-bind (λ m'. m'.m_buffer ≡ m.m_buffer) (KeptIn b)
                  (on_send (pos_part (send net bytes s w).0) m)
                  (λ m. send_message net fuel s m (send net bytes s w).1)
                  (on_send-m_buffer (pos_part (send net bytes s w).0) m)
                  λ m' e'. send_message-keeps fuel s m' (send net bytes s w).1 b same kept (e' ∙ e))
          ] in
        rw (more, send_message)
          (Yields-bind (λ _. Unit {0}) (KeptIn b) _ next (Yields-any _) λ bytes _. keeps bytes)
  ]

  -- What a round of the loop keeps.
  pub record Steady (p : Process net) (c : ConnectionManager) : Type 0 where
    pub world : I p.world
    pub blocks : AllBlocks p.pool.m_pool
    pub queue : HoldBlocks c.m_send_list
    pub told :
        (s : SocketCommon) → c.m_p_socket ≡ some s → (s.m_read_flag ≡ flag) × (s.m_socket ≡ fd)

  abbrev Keeps : Bool × Process net × ConnectionManager → Type 0
  Keeps (more, p, c) = more ≡ true → Steady p c

  pub send_loop-Steady :
      (inner fuel : ℕ) (p : Process net) (c : ConnectionManager)
      → Steady p c
      → Yields Keeps (send_loop net inner fuel p c)
  unfolding send_loop set_flags
  send_loop-Steady inner zero p c k = tt
  send_loop-Steady inner (suc fuel) p c k = elim (Option-cases c.m_p_socket) [
    | inl gone ↦ rw (gone, send_loop) tt
    | inr (s, up) ↦ elim (Bool-cases s.m_write_flag) [
      | inr full ↦ simp (up, full, send_loop) (λ _. k)
      | inl free ↦ elim (List-cases c.m_send_list) [
        | inl e ↦ simp (up, free, e, send_loop) (λ _. k)
        | inr (q, qs, e) ↦
            let held : HoldBlocks (q ∷ qs) = HoldBlocks-same c.m_send_list (q ∷ qs) e k.queue in
            let told = k.told s up in
            simp (up, free, e, send_loop)
              (Yields-bind (KeptIn q.message.m_buffer) Keeps
                (send_message net inner s q.message p.world) _
                (send_message-keeps inner s q.message p.world q.message.m_buffer told.1 k.world
                  refl)
                λ sent kept. elim (Bool-cases sent.0) [
                  | inr failed ↦ rw failed (λ e. absurd (cc e))
                  | inl done ↦
                      let p1 : Process net = record p {
                        world = sent.2;
                        pool = delete_message sent.1 p.pool;
                      } in
                      let c1 : ConnectionManager = record c { m_send_list = qs } in
                      let sees = ap (λ d. look net d sent.2) told.1 ∙ seen sent.2 kept.0 in
                      let checked = check_state-ready net p1 c1 s true flag up sees in
                      rw (done, checked)
                        (send_loop-Steady inner fuel _ _ (record {
                          world = rw told.1 (select_keeps sent.2 kept.0);
                          blocks =
                              delete_message-AllBlocks sent.1 p.pool (rw kept.1 held.0) k.blocks;
                          queue = held.1;
                          told = λ s' up'.
                              let new : set_flags true flag s ≡ s' = cc up' in
                              (
                                sym (ap (λ (s : SocketCommon). s.m_read_flag) new),
                                sym (ap (λ (s : SocketCommon). s.m_socket) new) ∙ told.1,
                              );
                        }))
                ])
      ]
    ]
  ]

-- The receive loop over a socket on which select() finds no error keeps what recv() and select()
-- keep.
module _ (net : Network) (a : Allocator) (fd : ℤ) (I : net.World → Type 0)
    (write read : net.World → Bool)
    (recv_keeps : (cap : ℕ) (w : net.World) → I w → I (net.recv fd cap w).1)
    (select_keeps : (w : net.World) → I w → I (net.select fd w).1)
    (seen : (w : net.World) → look net fd w ≡ some (ready false (write w) (read w))) where
  -- The socket, if there is one, is still this one.
  abbrev GoesOn : Bool × Process net × ConnectionManager → Type 0
  GoesOn (more, p, c) =
      more ≡ true → I p.world × ((s : SocketCommon) → c.m_p_socket ≡ some s → s.m_socket ≡ fd)

  take_in-GoesOn :
      (front : List MessagePtr) (q : MessagePtr) (answer : Option (List ℕ)) (p : Process net)
      (c : ConnectionManager) (s : SocketCommon)
      → c.m_p_socket ≡ some s
      → s.m_socket ≡ fd
      → I p.world
      → Yields GoesOn (take_in net a front q answer p c)
  unfolding take_in set_flags
  take_in-GoesOn front q none p c s up same i = λ e. absurd (cc e)
  take_in-GoesOn front q (some []) p c s up same i = λ e. absurd (cc e)
  take_in-GoesOn front q (some (b ∷ bs)) p c s up same i =
      Yields-bind (λ _. Unit {0}) GoesOn (receive_chunk a (b ∷ bs) _) _ (Yields-any _)
        λ m _.
          let c1 : ConnectionManager = record c {
            m_recv_list = front ++ (record q { message = m } ∷ []);
          } in
          let sees = ap (λ d. look net d p.world) same ∙ seen p.world in
          let checked = check_state-ready net p c1 s (write p.world) (read p.world) up sees in
          rw checked λ _. (
            rw same (select_keeps p.world i),
            λ s' up'.
                let new : set_flags (write p.world) (read p.world) s ≡ s' = cc up' in
                sym (ap (λ (s : SocketCommon). s.m_socket) new) ∙ same,
          )

  recv_round-GoesOn :
      (s : SocketCommon) (opened : List MessagePtr × MessagePtr × Process net)
      (c : ConnectionManager)
      → c.m_p_socket ≡ some s
      → s.m_socket ≡ fd
      → I opened.2.world
      → Yields GoesOn (recv_round net a s opened c)
  unfolding recv_round recv
  recv_round-GoesOn s (front, q, p) c up same i =
      elim (Bool-cases (is_negative (get_read_cap q.message))) [
        | inl huge ↦ rw huge tt
        | inr small ↦
            let w1 = (net.recv s.m_socket (pos_part (get_read_cap q.message)) p.world).1 in
            let kept : I w1 = rw same (recv_keeps (pos_part (get_read_cap q.message)) p.world i) in
            rw small (
              take_in-GoesOn front q
                (net.recv s.m_socket (pos_part (get_read_cap q.message)) p.world).0
                (record p { world = w1 }) c s up same kept)
      ]

  open_message-world :
      (p : Process net) (qs : List MessagePtr) → (open_message net a p qs).2.world ≡ p.world
  unfolding open_message
  open_message-world p qs = elim (Option-cases (split_back qs)) [
    | inl e ↦ rw (e, open_message) refl
    | inr ((front, back), e) ↦ elim (Bool-cases (is_end back.message)) [
      | inl ended ↦ rw (e, ended, open_message) refl
      | inr open_yet ↦ rw (e, open_yet, open_message) refl
    ]
  ]

  pub recv_loop-GoesOn :
      (fuel : ℕ) (p : Process net) (c : ConnectionManager)
      → I p.world
      → ((s : SocketCommon) → c.m_p_socket ≡ some s → s.m_socket ≡ fd)
      → Yields GoesOn (recv_loop net a fuel p c)
  unfolding recv_loop
  recv_loop-GoesOn zero p c i same = tt
  recv_loop-GoesOn (suc fuel) p c i same = elim (Option-cases c.m_p_socket) [
    | inl gone ↦ rw (gone, recv_loop) tt
    | inr (s, up) ↦ elim (Bool-cases s.m_read_flag) [
      | inr empty ↦ simp (up, empty, recv_loop) (λ _. (i, λ s' e. same s' (up ∙ e)))
      | inl waiting ↦
          simp (up, waiting, recv_loop)
            (Yields-bind GoesOn GoesOn (recv_round net a s (open_message net a p c.m_recv_list) c) _
              (recv_round-GoesOn s (open_message net a p c.m_recv_list) c up (same s up)
                (rw (open_message-world p c.m_recv_list) i))
              λ r goes. elim (Bool-cases r.0) [
                | inr over ↦ rw over (λ e. absurd (cc e))
                | inl more ↦ rw more (recv_loop-GoesOn fuel r.1 r.2 (goes more).0 (goes more).1)
              ])
    ]
  ]
