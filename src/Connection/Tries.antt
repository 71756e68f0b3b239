-- ===== src/Connection/Tries.antt =====
-- How the loop of DoConnect over the addresses ends.
use socketforioswinandroid.Common.{
  ℕ, ◌≡◌, refl, ◌⊎◌, inl, inr, true, false, some, List, [], ◌∷◌, ℤ, pos, negsuc, int_eq,
  if◌then◌else◌, arith,
}
use socketforioswinandroid.Network.{
  Network, SocketCommon, ConnectResult, established, in_progress, refused, fits_fd_set,
  create_socket, connect_to,
}
use socketforioswinandroid.Connection.{Attempt, gave_up, goes_on, try_addresses}

-- What POSIX says of a process that has at most FD_SETSIZE descriptors: socket() returns -1, or a
-- descriptor below FD_SETSIZE. And getaddrinfo() gives one address at least if it succeeds.
pub record IsPosix (net : Network) : Type 0 where
  pub makes :
      (addr : net.Address) (w : net.World)
      → ((net.socket addr w).0 ≡ negsuc 0) ⊎ (fits_fd_set (net.socket addr w).0 ≡ true)
  pub finds :
      (url : List ℕ) (port : ℤ) (w : net.World) (addresses : List net.Address)
      → (net.getaddrinfo url port w).0 ≡ some addresses
      → (first : net.Address) × (rest : List net.Address) × (addresses ≡ first ∷ rest)

fits-not_minus_one : (fd : ℤ) → fits_fd_set fd ≡ true → int_eq fd (negsuc 0) ≡ false
unfolding fits_fd_set
fits-not_minus_one (pos n) h = ground arith
fits-not_minus_one (negsuc n) h = absurd (cc h)

module _ (net : Network) where
  -- What the loop does with an address that has its socket.
  abbrev pub with_socket :
      net.Address → List net.Address → ℤ → SocketCommon → net.World → Attempt net
  with_socket x rest fd s w =
      let next = try_addresses net rest s w in
      if int_eq fd (negsuc 0)
      then elim rest [ [] ↦ gave_up s w | _ ∷ _ ↦ next ]
      else (let (answer, w) = connect_to net x s (net.set_nonblocking fd w) in
          let next = try_addresses net rest s w in
          elim answer [
            | refused ↦ elim rest [ [] ↦ gave_up s w | _ ∷ _ ↦ next ]
            | established ↦ goes_on s w
            | in_progress ↦ goes_on s w
          ])

  pub try_with_socket :
      (x : net.Address) (rest : List net.Address) (s : SocketCommon) (w : net.World)
      → try_addresses net (x ∷ rest) s w
        ≡ with_socket x rest
            (create_socket net x s w).0
            (create_socket net x s w).1
            (create_socket net x s w).2
  unfolding try_addresses
  try_with_socket x rest s w = refl

  -- The loop goes on with a descriptor that FD_SET takes.
  abbrev pub Fits : Attempt net → Type 0
  Fits (gave_up s w) = Unit {0}
  Fits (goes_on s w) = fits_fd_set s.m_socket ≡ true

  ConnectResult-cases :
      (r : ConnectResult) → (r ≡ refused) ⊎ ((r ≡ established) ⊎ (r ≡ in_progress))
  ConnectResult-cases refused = inl refl
  ConnectResult-cases established = inr (inl refl)
  ConnectResult-cases in_progress = inr (inr refl)

  no_more-Fits :
      (x : net.Address) (fd : ℤ) (s : SocketCommon) (w : net.World)
      → (fd ≡ negsuc 0) ⊎ (fits_fd_set fd ≡ true)
      → s.m_socket ≡ fd
      → Fits (with_socket x [] fd s w)
  no_more-Fits x fd s w (inl e) same = rw e tt
  no_more-Fits x fd s w (inr small) same =
      let there = fits-not_minus_one fd small in
      elim (ConnectResult-cases (connect_to net x s (net.set_nonblocking fd w)).0) [
        | inl e ↦ rw (there, e) tt
        | inr (inl e) ↦ rw (there, e) (rw same small)
        | inr (inr e) ↦ rw (there, e) (rw same small)
      ]

  more-Fits :
      (x y : net.Address) (more : List net.Address) (fd : ℤ) (s : SocketCommon) (w : net.World)
      → (fd ≡ negsuc 0) ⊎ (fits_fd_set fd ≡ true)
      → s.m_socket ≡ fd
      → ((w : net.World) → Fits (try_addresses net (y ∷ more) s w))
      → Fits (with_socket x (y ∷ more) fd s w)
  more-Fits x y more fd s w (inl e) same next = rw e (next w)
  more-Fits x y more fd s w (inr small) same next =
      let there = fits-not_minus_one fd small in
      elim (ConnectResult-cases (connect_to net x s (net.set_nonblocking fd w)).0) [
        | inl e ↦ rw (there, e) (next _)
        | inr (inl e) ↦ rw (there, e) (rw same small)
        | inr (inr e) ↦ rw (there, e) (rw same small)
      ]

  create_socket-makes :
      IsPosix net
      → (x : net.Address) (s : SocketCommon) (w : net.World)
      → ((create_socket net x s w).0 ≡ negsuc 0) ⊎ (fits_fd_set (create_socket net x s w).0 ≡ true)
  unfolding create_socket
  create_socket-makes law x s w = law.makes x w

  create_socket-m_socket :
      (x : net.Address) (s : SocketCommon) (w : net.World)
      → (create_socket net x s w).1.m_socket ≡ (create_socket net x s w).0
  unfolding create_socket
  create_socket-m_socket x s w = refl

  pub try_addresses-Fits :
      IsPosix net
      → (x : net.Address) (rest : List net.Address) (s : SocketCommon) (w : net.World)
      → Fits (try_addresses net (x ∷ rest) s w)
  try_addresses-Fits law x [] s w =
      rw (try_with_socket x [] s w)
        (no_more-Fits x _ _ _ (create_socket-makes law x s w) (create_socket-m_socket x s w))
  try_addresses-Fits law x (y ∷ more) s w = rw (try_with_socket x (y ∷ more) s w) (
      more-Fits x y more _ _ _ (create_socket-makes law x s w) (create_socket-m_socket x s w)
        λ w'. try_addresses-Fits law y more _ w')
