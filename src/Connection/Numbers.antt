-- ===== src/Connection/Numbers.antt =====
-- The addresses of the messages of m_recvList, and what every operation on a connection keeps.
use socketforioswinandroid.Common.{
  ℕ, ◌+◌, ◌≤◌, ◌<◌, ◌≡◌, refl, ap, inl, inr, Bool, true, false, Bool-cases, some, Option-cases,
  List, [], ◌∷◌, ◌++◌, length, ◌==◌, arith, Yields,
}
use socketforioswinandroid.NetMessage.{NetMessage}
use socketforioswinandroid.Network.{Network, SocketCommon, look, set_flags}
use socketforioswinandroid.Connection.{
  MessagePtr, ConnectionManager, Process, is_error, close, on_error, on_time_out, check_state,
  clear_cached, remove_address,
}

-- The addresses grow from the front of the list to its back, from `low` on and below `high`.
abbrev pub IsNumbered : ℕ → ℕ → List MessagePtr → Type 0
IsNumbered low high [] = low ≤ high
IsNumbered low high (q ∷ qs) = (low ≤ q.address) × IsNumbered (q.address + 1) high qs

pub IsNumbered-wider :
    (low low' high high' : ℕ) (qs : List MessagePtr)
    → low' ≤ low
    → high ≤ high'
    → IsNumbered low high qs
    → IsNumbered low' high' qs
IsNumbered-wider low low' high high' [] l h k = omega arith
IsNumbered-wider low low' high high' (q ∷ qs) l h k = (
  omega arith,
  IsNumbered-wider (q.address + 1) (q.address + 1) high high' qs (omega arith) h k.1,
)

pub IsNumbered-last :
    (low high : ℕ) (qs : List MessagePtr) (q : MessagePtr)
    → high ≤ q.address
    → IsNumbered low high qs
    → IsNumbered low (q.address + 1) (qs ++ (q ∷ []))
IsNumbered-last low high [] q h k = (omega arith, omega arith)
IsNumbered-last low high (f ∷ qs) q h k = (k.0, IsNumbered-last (f.address + 1) high qs q h k.1)

-- A message may change while it stays at its address.
pub IsNumbered-changed :
    (low high : ℕ) (front : List MessagePtr) (q : MessagePtr) (m : NetMessage)
    → IsNumbered low high (front ++ (q ∷ []))
    → IsNumbered low high (front ++ (record q { message = m } ∷ []))
IsNumbered-changed low high [] q m k = k
IsNumbered-changed low high (f ∷ front) q m k =
    (k.0, IsNumbered-changed (f.address + 1) high front q m k.1)

pub IsNumbered-remove :
    (low high address : ℕ) (qs : List MessagePtr)
    → IsNumbered low high qs
    → IsNumbered low high (remove_address address qs)
unfolding remove_address
IsNumbered-remove low high address [] k = k
IsNumbered-remove low high address (q ∷ qs) k = elim (Bool-cases (q.address == address)) [
  | inl here ↦
      rw here (IsNumbered-wider (q.address + 1) low high high qs (omega arith) (omega arith) k.1)
  | inr there ↦ rw there (k.0, IsNumbered-remove (q.address + 1) high address qs k.1)
]

-- Of two messages of the list no two have one address, so RemoveMsg takes out the one that is
-- named.
pub remove_address-Numbered :
    (low high : ℕ) (front back : List MessagePtr) (q : MessagePtr)
    → IsNumbered low high (front ++ (q ∷ back))
    → (low ≤ q.address) × (remove_address q.address (front ++ (q ∷ back)) ≡ front ++ back)
unfolding remove_address
remove_address-Numbered low high [] back q k =
    let here : (q.address == q.address) ≡ true = ground arith in (k.0, rw here refl)
remove_address-Numbered low high (f ∷ front) back q k =
    let (above, rest) = remove_address-Numbered (f.address + 1) high front back q k.1 in
    let there : (f.address == q.address) ≡ false = ground arith in
    (omega arith, rw (there, remove_address) (ap (λ qs. f ∷ qs) rest))

module _ (net : Network) where
  -- The address of the server fits m_server, and the received messages are numbered.
  abbrev pub Sound : Process net → ConnectionManager → Type 0
  Sound p c = (length c.m_server < 128) × IsNumbered 0 p.next_address c.m_recv_list

  abbrev pub Kept : Bool × Process net × ConnectionManager → Type 0
  Kept (more, p, c) = Sound p c

  pub close-Sound :
      (p : Process net) (c : ConnectionManager)
      → Sound p c
      → Sound (close net p c).0 (close net p c).1
  unfolding close
  close-Sound p c k = elim (Option-cases c.m_p_socket) [
    | inl gone ↦ rw gone k
    | inr (s, up) ↦ rw up k
  ]

  pub on_error-Sound :
      (p : Process net) (c : ConnectionManager)
      → Sound p c
      → Sound (on_error net p c).0 (on_error net p c).1
  unfolding on_error
  on_error-Sound p c k = close-Sound p c k

  pub on_time_out-Sound :
      (p : Process net) (c : ConnectionManager)
      → Sound p c
      → Sound (on_time_out net p c).0 (on_time_out net p c).1
  unfolding on_time_out
  on_time_out-Sound p c k = close-Sound p c k

  pub clear_cached-Sound :
      (p : Process net) (c : ConnectionManager)
      → Sound p c
      → Sound (clear_cached net p c).0 (clear_cached net p c).1
  unfolding clear_cached
  clear_cached-Sound p c k = (k.0, omega arith)

  pub check_state-Sound :
      (p : Process net) (c : ConnectionManager) (s : SocketCommon)
      → c.m_p_socket ≡ some s
      → Sound p c
      → Yields Kept (check_state net p c)
  unfolding check_state
  check_state-Sound p c s up k = rw up (elim (Option-cases (look net s.m_socket p.world)) [
    | inl beside ↦ rw (beside, check_state) tt
    | inr (seen, e) ↦ elim (Bool-cases (is_error seen)) [
      | inl bad ↦
          rw (e, bad, check_state)
            (on_error-Sound (record p { world = (net.select s.m_socket p.world).1 })
              (record c { m_p_socket = some (set_flags false false s) }) k)
      | inr good ↦ rw (e, good, check_state) k
    ]
  ])
