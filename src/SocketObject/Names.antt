-- ===== src/SocketObject/Names.antt =====
-- The names of the sockets, and the secret.
use socketforioswinandroid.Common.{
  ℕ, ◌+◌, ◌*◌, ◌/◌, ◌%◌, ◌^◌, ◌<◌, ◌≡◌, ◌≢◌, refl, sym, ap, ◌∙◌, inl, inr, true, false, Bool-cases,
  none, some, List, [], ◌∷◌, ◌==◌, if◌then◌else◌, arith, be_bytes, join_four,
}
use socketforioswinandroid.SocketObject.{
  SocketObject, same_name, insert_object, get_socket_by_name, generate_secret,
}

same_name-eq : (cs ds : List ℕ) → same_name cs ds ≡ true → cs ≡ ds
unfolding same_name
same_name-eq [] [] h = refl
same_name-eq [] (d ∷ ds) h = cc
same_name-eq (c ∷ cs) [] h = cc
same_name-eq (c ∷ cs) (d ∷ ds) h = elim (Bool-cases (c == d)) [
  | inl same ↦
      let e : c ≡ d = ground arith in
      let rest : same_name cs ds ≡ true = rw (same, same_name) at h in
      cc (e, same_name-eq cs ds rest)
  | inr other ↦ absurd (cc (rw (other, same_name) at h))
]

-- No object of the list lies at the address.
abbrev pub NotAt : ℕ → List SocketObject → Type 0
NotAt address [] = Unit {0}
NotAt address (x ∷ xs) = (address ≢ x.address) × NotAt address xs

-- Where nothing is found by a name, no object has it.
unused_name :
    (name : List ℕ) (x : SocketObject) (xs : List SocketObject)
    → get_socket_by_name name (x ∷ xs) ≡ none
    → (same_name x.m_socket_object_name name ≡ false) × (get_socket_by_name name xs ≡ none)
unfolding get_socket_by_name
unused_name name x xs h = elim (Bool-cases (same_name x.m_socket_object_name name)) [
  | inl same ↦ absurd (cc (rw (same, get_socket_by_name) at h))
  | inr other ↦ (other, rw (other, get_socket_by_name) at h)
]

other_name :
    (name : List ℕ) (o x : SocketObject)
    → same_name x.m_socket_object_name o.m_socket_object_name ≡ false
    → same_name o.m_socket_object_name name ≡ true
    → same_name x.m_socket_object_name name ≡ false
other_name name o x other same =
    ap (same_name x.m_socket_object_name) (sym (same_name-eq o.m_socket_object_name name same))
    ∙ other

-- A socket that is made under a name that no other has, at an address where no other lies, is the
-- one found by that name, wherever its address puts it in the set. For every other name the answer
-- is what it was.
pub get_socket_by_name-insert_object :
    (name : List ℕ) (o : SocketObject) (objects : List SocketObject)
    → NotAt o.address objects
    → get_socket_by_name o.m_socket_object_name objects ≡ none
    → get_socket_by_name name (insert_object o objects)
      ≡ (if same_name o.m_socket_object_name name then some o else get_socket_by_name name objects)
unfolding get_socket_by_name insert_object
get_socket_by_name-insert_object name o [] apart unused = ground arith
get_socket_by_name-insert_object name o (x ∷ xs) apart unused =
    let (other, rest) = unused_name o.m_socket_object_name x xs unused in
    elim (Bool-cases (same_name o.m_socket_object_name name)) [
      | inl same ↦
          let not_x : same_name x.m_socket_object_name name ≡ false =
            other_name name o x other same in
          ground (arith, get_socket_by_name-insert_object name o xs apart.1 rest)
      | inr differs ↦
          ground (arith, get_socket_by_name-insert_object name o xs apart.1 rest, apart.0)
    ]

be_bytes_of :
    (b0 b1 b2 b3 : ℕ)
    → b0 < 256
    → b1 < 256
    → b2 < 256
    → b3 < 256
    → be_bytes 4 (b0 * 2 ^ 24 + b1 * 2 ^ 16 + b2 * 2 ^ 8 + b3) ≡ b0 ∷ b1 ∷ b2 ∷ b3 ∷ []
be_bytes_of b0 b1 b2 b3 h0 h1 h2 h3 =
    let v = b0 * 2 ^ 24 + b1 * 2 ^ 16 + b2 * 2 ^ 8 + b3 in
    let e0 : v / 2 ^ 24 % 256 ≡ b0 = omega arith in
    let e1 : v / 2 ^ 16 % 256 ≡ b1 = omega arith in
    let e2 : v / 2 ^ 8 % 256 ≡ b2 = omega arith in
    let e3 : v / 2 ^ 0 % 256 ≡ b3 = omega arith in cc (e0, e1, e2, e3)

-- The four bytes of the secret, the highest first: bits 3 to 10 of the second key, bits 5 to 12 of
-- the first, bits 23 to 30 of the second, and bits 15 to 22 of the first. It fits 32 bits.
pub generate_secret-be_bytes :
    (key1 key2 : ℕ)
    → (be_bytes 4 (generate_secret key1 key2)
        ≡ key2 / 2 ^ 3 % 256 ∷ key1 / 2 ^ 5 % 256 ∷ key2 / 2 ^ 23 % 256 ∷ key1 / 2 ^ 15 % 256 ∷ [])
      × (generate_secret key1 key2 < 2 ^ 32)
unfolding generate_secret
generate_secret-be_bytes key1 key2 =
    let b0 = key2 / 2 ^ 3 % 256 in
    let b1 = key1 / 2 ^ 5 % 256 in
    let b2 = key2 / 2 ^ 23 % 256 in
    let b3 = key1 / 2 ^ 15 % 256 in
    rw (join_four b0 b1 b2 b3 (omega arith) (omega arith) (omega arith))
      (be_bytes_of b0 b1 b2 b3 (omega arith) (omega arith) (omega arith) (omega arith), omega arith)
