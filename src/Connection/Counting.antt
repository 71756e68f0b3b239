-- ===== src/Connection/Counting.antt =====
-- How many descriptors the loop over the addresses opens.
use socketforioswinandroid.Common.{
  ℕ, ◌<◌, sym, ap, append_assoc, length-append, ◌≡◌, refl, ◌∙◌, Bool, true, false, List, [], ◌∷◌,
  ◌++◌, length, arith, ℤ, pos, negsuc, int_eq, if◌then◌else◌,
}
use socketforioswinandroid.Network.{
  Network, fd_setsize, fits_fd_set, SocketCommon, SocketOption, tcp_nodelay, refused, in_progress,
  create_socket, connect_to,
}
use socketforioswinandroid.Connection.Tries.{with_socket, try_with_socket}
use socketforioswinandroid.Connection.{Attempt, goes_on, try_addresses}

-- Without the first of the descriptors that is this one.
abbrev pub remove_descriptor : ℤ → List ℤ → List ℤ
remove_descriptor fd [] = []
remove_descriptor fd (x ∷ xs) = if int_eq fd x then xs else x ∷ remove_descriptor fd xs

-- `opened` is the descriptors that are open: socket() opens one, which is below FD_SETSIZE, and
-- close() closes the one that it is given, and none if that is not open. connect() on a socket is
-- refused for some addresses, and is on its way for the others.
pub record IsCounting (net : Network) (opened : net.World → List ℤ) (refuses : net.Address → Bool)
    : Type 0 where
  pub makes :
      (addr : net.Address) (w : net.World)
      → (n : ℕ) × ((net.socket addr w).0 ≡ pos n) × (n < fd_setsize)
  pub one_more :
      (addr : net.Address) (w : net.World)
      → opened (net.socket addr w).1 ≡ (net.socket addr w).0 ∷ opened w
  pub one_less :
      (fd : ℤ) (w : net.World) → opened (net.close fd w) ≡ remove_descriptor fd (opened w)
  pub refused_there :
      (fd : ℤ) (addr : net.Address) (w : net.World)
      → refuses addr ≡ true
      → (net.connect fd addr w).0 ≡ refused
  pub taken_there :
      (fd : ℤ) (addr : net.Address) (w : net.World)
      → refuses addr ≡ false
      → (net.connect fd addr w).0 ≡ in_progress
  pub connect_keeps :
      (fd : ℤ) (addr : net.Address) (w : net.World) → opened (net.connect fd addr w).1 ≡ opened w
  pub option_keeps :
      (fd : ℤ) (option : SocketOption) (value : ℤ) (w : net.World)
      → opened (net.setsockopt fd option value w).1 ≡ opened w
  pub nonblocking_keeps : (fd : ℤ) (w : net.World) → opened (net.set_nonblocking fd w) ≡ opened w
  pub select_keeps : (fd : ℤ) (w : net.World) → opened (net.select fd w).1 ≡ opened w
  pub lookup_keeps :
      (url : List ℕ) (port : ℤ) (w : net.World) → opened (net.getaddrinfo url port w).1 ≡ opened w

-- Every one of the addresses refuses.
abbrev pub AllRefuse : (net : Network) → (net.Address → Bool) → List net.Address → Type 0
AllRefuse net refuses [] = Unit {0}
AllRefuse net refuses (x ∷ xs) = (refuses x ≡ true) × AllRefuse net refuses xs

not_minus_one : (n : ℕ) → int_eq (pos n) (negsuc 0) ≡ false
not_minus_one n = ground arith

module _ (net : Network) (opened : net.World → List ℤ) (refuses : net.Address → Bool)
    (law : IsCounting net opened refuses) where
  -- The state of the system once an address has its socket, and once it has been tried.
  abbrev ready_world : net.Address → SocketCommon → net.World → net.World
  ready_world x s w = let (fd, s, w) = create_socket net x s w in net.set_nonblocking fd w

  abbrev tried_world : net.Address → SocketCommon → net.World → net.World
  tried_world x s w = (connect_to net x (create_socket net x s w).1 (ready_world x s w)).1

  made :
      (x : net.Address) (s : SocketCommon) (w : net.World)
      → int_eq (create_socket net x s w).0 (negsuc 0) ≡ false
  unfolding create_socket
  made x s w = let (n, e, small) = law.makes x w in rw e (not_minus_one n)

  create_socket-opened :
      (x : net.Address) (s : SocketCommon) (w : net.World)
      → opened (create_socket net x s w).2 ≡ (create_socket net x s w).1.m_socket ∷ opened w
  unfolding create_socket
  create_socket-opened x s w = rw (made x s w) (
      law.option_keeps (net.socket x w).0 tcp_nodelay (pos 1) (net.socket x w).1 ∙ law.one_more x w)

  tried-opened :
      (x : net.Address) (s : SocketCommon) (w : net.World)
      → opened (tried_world x s w) ≡ (create_socket net x s w).1.m_socket ∷ opened w
  unfolding connect_to
  tried-opened x s w =
      law.connect_keeps (create_socket net x s w).1.m_socket x (ready_world x s w)
      ∙ (law.nonblocking_keeps (create_socket net x s w).0 (create_socket net x s w).2
          ∙ create_socket-opened x s w)

  socket_refused :
      (x y : net.Address) (more : List net.Address) (fd : ℤ) (s : SocketCommon) (w : net.World)
      → int_eq fd (negsuc 0) ≡ false
      → refuses x ≡ true
      → with_socket net x (y ∷ more) fd s w
        ≡ try_addresses net (y ∷ more) s (connect_to net x s (net.set_nonblocking fd w)).1
  unfolding connect_to
  socket_refused x y more fd s w there h =
      rw (there, law.refused_there s.m_socket x (net.set_nonblocking fd w) h) refl

  socket_taken :
      (x : net.Address) (rest : List net.Address) (fd : ℤ) (s : SocketCommon) (w : net.World)
      → int_eq fd (negsuc 0) ≡ false
      → refuses x ≡ false
      → with_socket net x rest fd s w ≡ goes_on s (connect_to net x s (net.set_nonblocking fd w)).1
  unfolding connect_to
  socket_taken x rest fd s w there h =
      rw (there, law.taken_there s.m_socket x (net.set_nonblocking fd w) h) refl

  try_refused :
      (x y : net.Address) (more : List net.Address) (s : SocketCommon) (w : net.World)
      → refuses x ≡ true
      → try_addresses net (x ∷ y ∷ more) s w
        ≡ try_addresses net (y ∷ more) (create_socket net x s w).1 (tried_world x s w)
  try_refused x y more s w h =
      try_with_socket net x (y ∷ more) s w
      ∙ socket_refused x y more (create_socket net x s w).0 (create_socket net x s w).1
          (create_socket net x s w).2 (made x s w) h

  try_taken :
      (x : net.Address) (more : List net.Address) (s : SocketCommon) (w : net.World)
      → refuses x ≡ false
      → try_addresses net (x ∷ more) s w ≡ goes_on (create_socket net x s w).1 (tried_world x s w)
  try_taken x more s w h =
      try_with_socket net x more s w
      ∙ socket_taken x more (create_socket net x s w).0 (create_socket net x s w).1
          (create_socket net x s w).2 (made x s w) h

  made_fits :
      (x : net.Address) (s : SocketCommon) (w : net.World)
      → fits_fd_set (create_socket net x s w).1.m_socket ≡ true
  unfolding create_socket fits_fd_set
  made_fits x s w = let (n, e, small) = law.makes x w in rw e (ground arith)

  -- The loop goes on with a socket of FD_SET's range, which is open; and so is a descriptor for
  -- each address that was tried before.
  abbrev pub Opened : List net.Address → net.World → Attempt net → Type 0
  Opened front w t =
      (s' : SocketCommon) × (w' : net.World) × (left : List ℤ) × (t ≡ goes_on s' w')
      × (fits_fd_set s'.m_socket ≡ true)
      × (opened w' ≡ s'.m_socket ∷ (left ++ opened w))
      × (length left ≡ length front)

  one_more_left :
      (x y : net.Address) (front more : List net.Address) (s : SocketCommon) (w : net.World)
      → refuses x ≡ true
      → Opened front
          (tried_world x s w)
          (try_addresses net (y ∷ more) (create_socket net x s w).1 (tried_world x s w))
      → Opened (x ∷ front) w (try_addresses net (x ∷ y ∷ more) s w)
  one_more_left x y front more s w h (s', w', left, e, small, open_now, n) =
      let fd = (create_socket net x s w).1.m_socket in
      (
        s',
        w',
        left ++ (fd ∷ []),
        try_refused x y more s w h ∙ e,
        small,
        open_now
            ∙ ap (λ l. s'.m_socket ∷ (left ++ l)) (tried-opened x s w)
            ∙ ap (λ l. s'.m_socket ∷ l) (sym (append_assoc left (fd ∷ []) (opened w))),
        omega (arith, n, length-append left (fd ∷ [])),
      )

  -- The loop goes on with the first address that does not refuse.
  pub try_addresses-Opened :
      (front rest : List net.Address) (good : net.Address) (s : SocketCommon) (w : net.World)
      → AllRefuse net refuses front
      → refuses good ≡ false
      → Opened front w (try_addresses net (front ++ (good ∷ rest)) s w)
  try_addresses-Opened [] rest good s w h taken = (
    (create_socket net good s w).1,
    tried_world good s w,
    [],
    try_taken good rest s w taken,
    made_fits good s w,
    tried-opened good s w,
    refl,
  )
  try_addresses-Opened (x ∷ []) rest good s w h taken =
      one_more_left x good [] rest s w h.0
        (try_addresses-Opened [] rest good (create_socket net x s w).1 (tried_world x s w) tt taken)
  try_addresses-Opened (x ∷ y ∷ front) rest good s w h taken =
      one_more_left x y (y ∷ front) (front ++ (good ∷ rest)) s w h.0 (
        try_addresses-Opened (y ∷ front) rest good (create_socket net x s w).1 (tried_world x s w)
          h.1 taken)
