-- ===== src/NetMessage/Read/Bounded.antt =====
-- The readers of integers on any block: the values that they can return, and where they fail.
use socketforioswinandroid.Common.{
  ℕ, zero, suc, ◌%◌, ◌^◌, ◌≤◌, ◌<◌, ◌≡◌, refl, subst, ap, ◌∙◌, ◌⊎◌, inl, inr, Bool, not, ◌==◌, none,
  List, [], ◌∷◌, List-cases, length, drop, get_elem?, arith, IsInt, of_word, join_two, join_four,
  Result, ok, fault, stuck, ◌>>=◌, Returns, returns, Returns-mono, Returns-bind,
}
use socketforioswinandroid.MemBuffer.{load}
use socketforioswinandroid.NetMessage.{NetMessage, get_buf_value}
use socketforioswinandroid.NetMessage.Read.{
  get_byte, get_two, get_four, r_int8, r_uint8, r_boolean, r_ushort, r_short, r_uint, r_int,
  r_int64,
}
use socketforioswinandroid.NetMessage.Read.Laws.{unread, advance, get_buf_value-cons, byte-lt}

-- Either the block has `k` bytes more, and a value with the property comes out of them; or it has
-- not, and the run fails.
abbrev pub Bounded {κ} :
    {A : Type 0} → (A → Type κ) → ℕ → NetMessage → Result (A × NetMessage) → Type κ
Bounded P k m r =
    ((k ≤ length (unread m)) × Returns (λ s. P s.0 × (s.1 ≡ advance k m)) r)
    ⊎ ((length (unread m) < k) × (r ≡ fault))

get_elem?-drop_nil : (xs : List ℕ) (p : ℕ) → drop p xs ≡ [] → get_elem? xs p ≡ none
get_elem?-drop_nil [] zero e = refl
get_elem?-drop_nil [] (suc p) e = refl
get_elem?-drop_nil (x ∷ xs) zero e = cc
get_elem?-drop_nil (x ∷ xs) (suc p) e = get_elem?-drop_nil xs p e

get_byte_end : (m : NetMessage) → unread m ≡ [] → get_byte m ≡ fault
unfolding get_byte get_buf_value load
get_byte_end m e = rw (get_elem?-drop_nil m.m_buffer.m_buf m.m_cur_pos e, load, ◌>>=◌) refl

get_byte-cons :
    (m : NetMessage) (b : ℕ) (rest : List ℕ)
    → unread m ≡ b ∷ rest
    → get_byte m ≡ ok (b % 256, advance 1 m)
unfolding get_byte
get_byte-cons m b rest e = rw ((get_buf_value-cons m b rest e).0, ◌>>=◌) refl

module _ {κ} {A : Type 0} (P : A → Type κ) where
  read_done : (m : NetMessage) (v : A) → P v → Bounded P 0 m (ok (v, m))
  read_done m v h =
      inl (omega arith, returns (h, ap (λ p. record m { m_cur_pos = p }) (omega arith)))

  read_byte :
      (k : ℕ) (m : NetMessage) (F : ℕ × NetMessage → Result (A × NetMessage))
      → ((b : ℕ) (m : NetMessage) → b < 256 → Bounded P k m (F (b, m)))
      → Bounded P (suc k) m (get_byte m >>= F)
  read_byte k m F next = elim (List-cases (unread m)) [
    | inl e ↦ inr (omega (arith, ap (λ (l : List ℕ). length l) e), rw (get_byte_end m e) refl)
    | inr (b, rest, e) ↦
        let here = get_byte-cons m b rest e in
        let after = (get_buf_value-cons m b rest e).1 in
        let long : length (unread m) ≡ suc (length rest) = ap (λ (l : List ℕ). length l) e in
        let left : length (unread (advance 1 m)) ≡ length rest =
          ap (λ (l : List ℕ). length l) after in
        let m' = advance 1 m in
        let moved : advance k m' ≡ advance (suc k) m =
          ap (λ p. record m { m_cur_pos = p }) (omega arith) in
        rw here (elim (next (b % 256) m' (byte-lt b)) [
          | inl (enough, done) ↦
              inl
                (omega (arith, long, left), Returns-mono done λ s (h, at_end). (h, at_end ∙ moved))
          | inr (short, failed) ↦ inr (omega (arith, long, left), failed)
        ])
  ]

module _ {κ μ} {A B : Type 0} (P : A → Type κ) (Q : B → Type μ) (f : A → B) where
  read_map :
      (k : ℕ) (m : NetMessage) (r : Result (A × NetMessage))
      → ((v : A) → P v → Q (f v))
      → Bounded P k m r
      → Bounded Q k m (r >>= λ (v, m). ok (f v, m))
  read_map k m r h (inl (enough, done)) =
      inl (enough, Returns-bind done λ s (p, at_end). returns (h s.0 p, at_end))
  read_map k m r h (inr (short, failed)) = inr (short, rw failed refl)

IsInt-of_word8 : (n : ℕ) → n < 2 ^ 8 → IsInt 8 (of_word 8 n)
IsInt-of_word8 n h = ground arith

IsInt-of_word16 : (n : ℕ) → n < 2 ^ 16 → IsInt 16 (of_word 16 n)
IsInt-of_word16 n h = ground arith

IsInt-of_word32 : (n : ℕ) → n < 2 ^ 32 → IsInt 32 (of_word 32 n)
IsInt-of_word32 n h = ground arith

IsInt-of_word64 : (n : ℕ) → n < 2 ^ 64 → IsInt 64 (of_word 64 n)
IsInt-of_word64 n h = ground arith

bind-ok : {A : Type 0} (r : Result A) → (r >>= λ a. ok a) ≡ r
bind-ok (ok a) = refl
bind-ok fault = refl
bind-ok stuck = refl

module _ (m : NetMessage) where
  get_byte-Bounded : Bounded (λ v. v < 2 ^ 8) 1 m (get_byte m)
  get_byte-Bounded =
      subst (Bounded (λ v. v < 2 ^ 8) 1 m) (bind-ok (get_byte m))
        (read_byte _ 0 m (λ r. ok r) λ b m h. read_done _ m b h)

  get_two-Bounded : Bounded (λ v. v < 2 ^ 16) 2 m (get_two m)
  unfolding get_two
  get_two-Bounded =
      read_byte _ 1 m _ λ b0 m h0.
        read_byte _ 0 m _ λ b1 m h1. read_done _ m _ (rw (join_two b0 b1 h1) (omega arith))

  get_four-Bounded : Bounded (λ v. v < 2 ^ 32) 4 m (get_four m)
  unfolding get_four
  get_four-Bounded = read_byte _ 3 m _ λ b0 m h0. read_byte _ 2 m _ λ b1 m h1.
      read_byte _ 1 m _ λ b2 m h2.
        read_byte _ 0 m _
          λ b3 m h3. read_done _ m _ (rw (join_four b0 b1 b2 b3 h1 h2 h3) (omega arith))

  r_int64-Bounded : Bounded (IsInt 64) 8 m (r_int64 m)
  unfolding r_int64
  r_int64-Bounded = read_byte _ 7 m _ λ b0 m h0. read_byte _ 6 m _ λ b1 m h1.
      read_byte _ 5 m _ λ b2 m h2. read_byte _ 4 m _ λ b3 m h3. read_byte _ 3 m _ λ b4 m h4.
        read_byte _ 2 m _ λ b5 m h5.
          read_byte _ 1 m _ λ b6 m h6.
            read_byte _ 0 m _ λ b7 m h7. read_done _ m _ (IsInt-of_word64 _ (omega arith))

  -- On any message, whatever is in its block: a reader of an integer or a truth value returns a
  -- value of its C++ type, and m_curPos is then behind the bytes of that type, with the rest of the
  -- message as it was; or, just when the block has fewer bytes left than the type, it reads past
  -- the end.
  pub readers-Bounded :
      Bounded (λ v. v < 2 ^ 8) 1 m (r_uint8 m)
      × Bounded (IsInt 8) 1 m (r_int8 m)
      × Bounded (λ (v : Bool). Unit {0}) 1 m (r_boolean m)
      × Bounded (λ v. v < 2 ^ 16) 2 m (r_ushort m)
      × Bounded (IsInt 16) 2 m (r_short m)
      × Bounded (λ v. v < 2 ^ 32) 4 m (r_uint m)
      × Bounded (IsInt 32) 4 m (r_int m)
      × Bounded (IsInt 64) 8 m (r_int64 m)
  unfolding r_uint8 r_int8 r_boolean r_ushort r_short r_uint r_int
  readers-Bounded = (
    get_byte-Bounded,
    read_map (λ v. v < 2 ^ 8) (IsInt 8) (of_word 8) 1 m (get_byte m) IsInt-of_word8
        get_byte-Bounded,
    read_map (λ v. v < 2 ^ 8) (λ (v : Bool). Unit {0}) (λ v. not (v == 0)) 1 m (get_byte m)
        (λ v h. tt) get_byte-Bounded,
    get_two-Bounded,
    read_map (λ v. v < 2 ^ 16) (IsInt 16) (of_word 16) 2 m (get_two m) IsInt-of_word16
        get_two-Bounded,
    get_four-Bounded,
    read_map (λ v. v < 2 ^ 32) (IsInt 32) (of_word 32) 4 m (get_four m) IsInt-of_word32
        get_four-Bounded,
    r_int64-Bounded,
  )
