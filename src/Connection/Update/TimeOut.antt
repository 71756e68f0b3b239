-- ===== src/Connection/Update/TimeOut.antt =====
-- A connection that is being opened to a peer that does not answer.
use socketforioswinandroid.Common.{
  ℕ, ◌+◌, ◌-◌, ◌^◌, ◌≤◌, ◌<◌, ◌≡◌, refl, sym, ap, ◌∙◌, ◌⊎◌, inl, inr, Bool, true, false, Bool-cases,
  none, some, List, [], ◌∷◌, ltb, arith, ℤ, pos, negsuc, is_positive, Result, ok, ◌>>=◌, Returns,
  returns, Returns-mono, Returns-bind,
}
use socketforioswinandroid.MemBuffer.{Allocator}
use socketforioswinandroid.Network.{Network, SocketCommon, ready, look, set_flags, close_socket}
use socketforioswinandroid.Connection.{
  connecting, connect_time_out, ConnectionManager, Process, close, on_time_out,
}
use socketforioswinandroid.Connection.Update.{
  is_live, is_connecting, is_connect_error, minus, fits_int, less_time, wait_for_connection,
  after_check, update,
}
use socketforioswinandroid.Connection.Update.Outbox.{check_state-ready}

-- select() finds no error on the socket, and never room for a byte. `is_open` says whether the
-- descriptor is open: select() leaves that as it is, and close() ends it.
pub record IsSilent (net : Network) (fd : ℤ) (is_open : net.World → Bool) : Type 0 where
  pub has_bytes : net.World → Bool
  pub seen : (w : net.World) → look net fd w ≡ some (ready false false (has_bytes w))
  pub stays_open : (w : net.World) → is_open (net.select fd w).1 ≡ is_open w
  pub closes : (w : net.World) → is_open w ≡ true → is_open (net.close fd w) ≡ false

abbrev pub sum : List ℕ → ℕ
sum [] = 0
sum (d ∷ ds) = d + sum ds

-- The milliseconds are integers of 32 bits.
abbrev pub AllInts : List ℕ → Type 0
AllInts [] = Unit {0}
AllInts (d ∷ ds) = (d < 2 ^ 31) × AllInts ds

module _ (net : Network) (a : Allocator) (inner fuel : ℕ) where
  -- One call of Update for each frame of the program, with the milliseconds since the last.
  unfoldable pub updates :
      List ℕ → Process net → ConnectionManager → Result (Process net × ConnectionManager)
  updates [] p c = ok (p, c)
  updates (d ∷ ds) p c = update net a inner fuel (pos d) p c >>= λ (p, c). updates ds p c

-- What a connection with `timer` milliseconds left is once `passed` have gone by.
module _ (net : Network) (fd : ℤ) (is_open : net.World → Bool) (timer passed : ℕ) where
  abbrev pub Waits : Process net × ConnectionManager → Type 0
  Waits (p, c) =
      (passed < timer)
      × (c.m_net_state ≡ connecting)
      × (c.m_t_out_timer ≡ pos (timer - passed))
      × (is_open p.world ≡ true)
      × ((s : SocketCommon) × (c.m_p_socket ≡ some s) × (s.m_socket ≡ fd))

  abbrev pub GivenUp : Process net × ConnectionManager → Type 0
  GivenUp (p, c) =
      (timer ≤ passed)
      × (c.m_net_state ≡ connect_time_out)
      × (c.m_t_out_timer ≡ negsuc 0)
      × (is_open p.world ≡ false)
      × (c.m_p_socket ≡ none)

module _ (net : Network) (a : Allocator) (inner fuel : ℕ) (fd : ℤ)
    (is_open : net.World → Bool) where
  sub_zero : (t : ℕ) → t - 0 ≡ t
  sub_zero t = omega arith

  less_twice : (t d e : ℕ) → t - d - e ≡ t - (d + e)
  less_twice t d e = omega arith

  minus-pos : (t d : ℕ) → d ≤ t → minus (pos t) (pos d) ≡ pos (t - d)
  minus-pos t d h = ground arith

  minus-fits_int : (t d : ℕ) → t < 2 ^ 31 → d < 2 ^ 31 → fits_int (minus (pos t) (pos d)) ≡ true
  unfolding fits_int
  minus-fits_int t d h k = ground arith

  after_check-Waits :
      (timer d : ℕ) (p : Process net) (c : ConnectionManager) (s : SocketCommon)
      → IsSilent net fd is_open
      → c.m_p_socket ≡ some s
      → s.m_socket ≡ fd
      → s.m_write_flag ≡ false
      → c.m_net_state ≡ connecting
      → c.m_t_out_timer ≡ pos timer
      → timer < 2 ^ 31
      → d < 2 ^ 31
      → is_open p.world ≡ true
      → Returns
          (λ r. Waits net fd is_open timer d r ⊎ GivenUp net fd is_open timer d r)
          (after_check net a inner fuel (pos d) p c)
  unfolding after_check wait_for_connection less_time on_time_out close close_socket
  after_check-Waits timer d p c s silent up same full now left small little opened =
      let well : is_connect_error c.m_net_state ≡ false = ap is_connect_error now in
      let waits : is_connecting c.m_net_state ≡ true = ap is_connecting now in
      let counted : minus c.m_t_out_timer (pos d) ≡ minus (pos timer) (pos d) =
        ap (λ t. minus t (pos d)) left in
      let fits = minus-fits_int timer d small little in
      let closed : is_open (net.close s.m_socket p.world) ≡ false =
        rw same (silent.closes p.world opened) in
      simp (well, waits, up, full, counted, fits)
        (elim (Bool-cases (ltb d timer)) [
          | inl early ↦
              let above : is_positive (minus (pos timer) (pos d)) ≡ true = ground arith in
              simp above (
                returns (
                  inl
                    (ground arith, now, minus-pos timer d (ground arith), opened, (s, refl, same))))
          | inr over ↦
              let spent : is_positive (minus (pos timer) (pos d)) ≡ false = ground arith in
              simp spent (returns (inr (ground arith, refl, refl, closed, refl)))
        ])

  turn-Waits :
      (timer d : ℕ) (p : Process net) (c : ConnectionManager) (s : SocketCommon)
      → IsSilent net fd is_open
      → c.m_p_socket ≡ some s
      → s.m_socket ≡ fd
      → c.m_net_state ≡ connecting
      → c.m_t_out_timer ≡ pos timer
      → timer < 2 ^ 31
      → d < 2 ^ 31
      → is_open p.world ≡ true
      → Returns
          (λ r. Waits net fd is_open timer d r ⊎ GivenUp net fd is_open timer d r)
          (update net a inner fuel (pos d) p c)
  unfolding update set_flags
  turn-Waits timer d p c s silent up same now left small little opened =
      let live : is_live c.m_net_state ≡ true = ap is_live now in
      let sees = ap (λ d. look net d p.world) same ∙ silent.seen p.world in
      let checked = check_state-ready net p c s false (silent.has_bytes p.world) up sees in
      let still : is_open (net.select s.m_socket p.world).1 ≡ is_open p.world =
        rw same (silent.stays_open p.world) in
      let s' = set_flags false (silent.has_bytes p.world) s in
      simp (up, live, checked, update)
        (after_check-Waits timer d (record p { world = (net.select s.m_socket p.world).1 })
          (record c { m_p_socket = some s' }) s' silent refl same refl now left small little
          (still ∙ opened))

  updates_idle :
      (ds : List ℕ) (p : Process net) (c : ConnectionManager)
      → c.m_p_socket ≡ none
      → updates net a inner fuel ds p c ≡ ok (p, c)
  unfolding updates update
  updates_idle [] p c gone = refl
  updates_idle (d ∷ ds) p c gone = simp (gone, update) (updates_idle ds p c gone)

  -- In the state Connecting, with a positive time on the timer, over a socket for which select()
  -- neither finds an error nor room for a byte, and whose descriptor is open and below FD_SETSIZE:
  -- the calls of Update, with milliseconds that are not negative, come to an end without a fault.
  -- While these sum up to less than the timer the connection goes on waiting, with its socket open
  -- and with the rest of the time; and from then on it is in the state ConnectTimeOut, it has no
  -- socket, and the descriptor is closed.
  pub updates-TimedOut :
      (ds : List ℕ) (timer : ℕ) (p : Process net) (c : ConnectionManager) (s : SocketCommon)
      → IsSilent net fd is_open
      → c.m_p_socket ≡ some s
      → s.m_socket ≡ fd
      → c.m_net_state ≡ connecting
      → c.m_t_out_timer ≡ pos timer
      → 0 < timer
      → timer < 2 ^ 31
      → AllInts ds
      → is_open p.world ≡ true
      → Returns
          (λ r. Waits net fd is_open timer (sum ds) r ⊎ GivenUp net fd is_open timer (sum ds) r)
          (updates net a inner fuel ds p c)
  unfolding updates
  updates-TimedOut [] timer p c s silent up same now left above small ints opened =
      returns (inl (above, now, left ∙ sym (ap pos (sub_zero timer)), opened, (s, up, same)))
  updates-TimedOut (d ∷ ds) timer p c s silent up same now left above small ints opened =
      Returns-bind (turn-Waits timer d p c s silent up same now left small ints.0 opened)
        λ r turned. elim turned [
          | inl (early, now', left', opened', (s', up', same')) ↦
              Returns-mono
                (updates-TimedOut ds (timer - d) r.0 r.1 s' silent up' same' now' left'
                  (omega arith) (omega arith) ints.1 opened')
                λ r' later. elim later [
                  | inl (early', still, rest, open_yet, there) ↦ inl (
                    omega arith,
                    still,
                    rest ∙ ap pos (less_twice timer d (sum ds)),
                    open_yet,
                    there,
                  )
                  | inr (late, stopped, rest, closed, gone) ↦
                      inr (omega arith, stopped, rest, closed, gone)
                ]
          | inr (late, now', left', closed, gone) ↦
              rw (updates_idle ds r.0 r.1 gone)
                (returns (inr (omega arith, now', left', closed, gone)))
        ]
