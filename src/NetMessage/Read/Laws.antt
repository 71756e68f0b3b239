-- ===== src/NetMessage/Read/Laws.antt =====
-- What the readers return where the bytes of a value are next.
use socketforioswinandroid.Common.{
  ℕ, zero, suc, ◌+◌, ◌*◌, ◌/◌, ◌%◌, ◌^◌, ◌<◌, ◌≡◌, refl, ap, ◌∙◌, List, [], ◌∷◌, ◌++◌, Bool, true,
  false, not, ◌==◌, if◌then◌else◌, some, get_elem?, drop, arith, ℤ, pos, negsuc, IsInt, to_word,
  of_word, be_bytes, join_two, join_four, Result, ok, ◌>>=◌, Returns, returns, Returns-bind,
  Returns-mono,
}
use socketforioswinandroid.MemBuffer.{load}
use socketforioswinandroid.NetMessage.{NetMessage, get_buf_value}
use socketforioswinandroid.NetMessage.Read.{
  get_byte, get_two, get_four, r_int8, r_uint8, r_boolean, r_ushort, r_short, r_uint, r_int,
  r_float,
}

-- The bytes from the current position to the end of the block.
abbrev pub unread : NetMessage → List ℕ
unread m = drop m.m_cur_pos m.m_buffer.m_buf

-- The message after `k` more bytes.
abbrev pub advance : ℕ → NetMessage → NetMessage
advance k m = record m { m_cur_pos = m.m_cur_pos + k }

drop-cons :
    (xs : List ℕ) (p b : ℕ) (rest : List ℕ)
    → drop p xs ≡ b ∷ rest
    → (get_elem? xs p ≡ some b) × (drop (p + 1) xs ≡ rest)
drop-cons [] zero b rest e = cc
drop-cons [] (suc p) b rest e = cc
drop-cons (x ∷ xs) zero b rest e = (cc, cc)
drop-cons (x ∷ xs) (suc p) b rest e =
    let next : suc p + 1 ≡ suc (p + 1) = omega arith in rw next (drop-cons xs p b rest e)

pub get_buf_value-cons :
    (m : NetMessage) (b : ℕ) (rest : List ℕ)
    → unread m ≡ b ∷ rest
    → (get_buf_value m ≡ ok (b, advance 1 m)) × (unread (advance 1 m) ≡ rest)
unfolding get_buf_value load
get_buf_value-cons m b rest e =
    let (here, after) = drop-cons m.m_buffer.m_buf m.m_cur_pos b rest e in (rw (here, load), after)

-- `m` is `start` after `k` bytes, and `rest` is what comes next.
pub record Next (start : NetMessage) (k : ℕ) (rest : List ℕ) (m : NetMessage) : Type 0 where
  pub state : m ≡ advance k start
  pub next : unread m ≡ rest

-- A reader returns `v`, and goes on as `Next` says.
abbrev pub Reads {ℓ} : {A : Type ℓ} → NetMessage → A → ℕ → List ℕ → A × NetMessage → Type ℓ
Reads start v k rest r = (r.0 ≡ v) × Next start k rest r.1

advance_more : (k : ℕ) (m : NetMessage) → advance 1 (advance k m) ≡ advance (suc k) m
advance_more k m = ap (λ p. record m { m_cur_pos = p }) (omega arith)

pub Next-start : (m : NetMessage) (rest : List ℕ) → unread m ≡ rest → Next m 0 rest m
Next-start m rest e = record {
  state = ap (λ p. record m { m_cur_pos = p }) (omega arith);
  next = e;
}

pub get_buf_value-Reads :
    (start : NetMessage) (k b : ℕ) (rest : List ℕ) (m : NetMessage)
    → Next start k (b ∷ rest) m
    → Returns (Reads start b (suc k) rest) (get_buf_value m)
get_buf_value-Reads start k b rest m n =
    let (e, after) = get_buf_value-cons m b rest n.next in
    rw e (
      returns
        (refl, record { state = ap (advance 1) n.state ∙ advance_more k start; next = after }))

pub get_byte-Reads :
    (start : NetMessage) (k b : ℕ) (rest : List ℕ) (m : NetMessage)
    → b < 256
    → Next start k (b ∷ rest) m
    → Returns (Reads start b (suc k) rest) (get_byte m)
unfolding get_byte
get_byte-Reads start k b rest m h n =
    Returns-bind (get_buf_value-Reads start k b rest m n)
      λ (v, m') (e, n'). returns (rw e (omega arith), n')

pub byte-lt : (x : ℕ) → x % 256 < 256
byte-lt x = omega arith

two_bytes : (v : ℕ) → v / 2 ^ 8 % 256 * 2 ^ 8 + v / 2 ^ 0 % 256 ≡ v % 2 ^ 16
two_bytes v = omega arith

four_bytes :
    (v : ℕ)
    → v / 2 ^ 24 % 256 * 2 ^ 24
        + v / 2 ^ 16 % 256 * 2 ^ 16
        + v / 2 ^ 8 % 256 * 2 ^ 8
        + v / 2 ^ 0 % 256
      ≡ v % 2 ^ 32
four_bytes v = omega arith

get_two-Reads :
    (v : ℕ) (rest : List ℕ) (m : NetMessage)
    → unread m ≡ be_bytes 2 v ++ rest
    → Returns (Reads m (v % 2 ^ 16) 2 rest) (get_two m)
unfolding get_two
get_two-Reads v rest m e =
    Returns-bind (get_byte-Reads m 0 _ _ m (byte-lt _) (Next-start m _ e)) λ (b0, m0) (e0, n0).
      Returns-bind (get_byte-Reads m 1 _ _ m0 (byte-lt _) n0)
        λ (b1, m1) (e1, n1). returns (rw (e0, e1, join_two _ _ (byte-lt _)) (two_bytes v), n1)

get_four-Reads :
    (v : ℕ) (rest : List ℕ) (m : NetMessage)
    → unread m ≡ be_bytes 4 v ++ rest
    → Returns (Reads m (v % 2 ^ 32) 4 rest) (get_four m)
unfolding get_four
get_four-Reads v rest m e =
    Returns-bind (get_byte-Reads m 0 _ _ m (byte-lt _) (Next-start m _ e)) λ (b0, m0) (e0, n0).
      Returns-bind (get_byte-Reads m 1 _ _ m0 (byte-lt _) n0) λ (b1, m1) (e1, n1).
        Returns-bind (get_byte-Reads m 2 _ _ m1 (byte-lt _) n1) λ (b2, m2) (e2, n2).
          Returns-bind (get_byte-Reads m 3 _ _ m2 (byte-lt _) n2) λ (b3, m3) (e3, n3). returns (
            rw (e0, e1, e2, e3, join_four _ _ _ _ (byte-lt _) (byte-lt _) (byte-lt _))
                (four_bytes v),
            n3,
          )

-- A conversion of the value that a reader returned.
module _ {A B : Type 0} (f : A → B) where
  convert :
      (start : NetMessage) (v : A) (k : ℕ) (rest : List ℕ) {r : Result (A × NetMessage)}
      → Returns (Reads start v k rest) r
      → Returns (Reads start (f v) k rest) (r >>= λ (x, m). ok (f x, m))
  convert start v k rest g = Returns-bind g λ (x, m) (e, n). returns (ap f e, n)

word16_value : (v : ℤ) → IsInt 16 v → of_word 16 (to_word 32 v % 2 ^ 16) ≡ v
word16_value (pos n) h = ground arith
word16_value (negsuc n) h = ground arith

word32_value : (v : ℤ) → IsInt 32 v → of_word 32 (to_word 32 v % 2 ^ 32) ≡ v
word32_value (pos n) h = ground arith
word32_value (negsuc n) h = ground arith

word8_value : (v : ℤ) → IsInt 8 v → of_word 8 (to_word 32 v / 2 ^ 0 % 256) ≡ v
word8_value (pos n) h = ground arith
word8_value (negsuc n) h = ground arith

module _ (rest : List ℕ) (m : NetMessage) where
  pub r_uint8-Reads :
      (v : ℕ) → v < 2 ^ 8 → unread m ≡ be_bytes 1 v ++ rest → Returns (Reads m v 1 rest) (r_uint8 m)
  unfolding r_uint8
  r_uint8-Reads v h e =
      Returns-mono (get_byte-Reads m 0 _ _ m (byte-lt _) (Next-start m _ e))
        λ (x, m') (ev, n). (ev ∙ omega arith, n)

  pub r_int8-Reads :
      (v : ℤ)
      → IsInt 8 v
      → unread m ≡ be_bytes 1 (to_word 32 v) ++ rest
      → Returns (Reads m v 1 rest) (r_int8 m)
  unfolding r_int8
  r_int8-Reads v h e =
      Returns-mono
        (convert (of_word 8) m _ 1 rest (get_byte-Reads m 0 _ _ m (byte-lt _) (Next-start m _ e)))
        λ (x, m') (ev, n). (ev ∙ word8_value v h, n)

  pub r_boolean-Reads :
      (v : Bool) → unread m ≡ (if v then 1 else 0) ∷ rest → Returns (Reads m v 1 rest) (r_boolean m)
  unfolding r_boolean
  r_boolean-Reads v e =
      Returns-mono
        (convert (λ x. not (x == 0)) m _ 1 rest
          (get_byte-Reads m 0 _ _ m (ground arith) (Next-start m _ e)))
        λ (x, m') (ev, n). (ev ∙ back v, n)
    where
      back : (v : Bool) → not ((if v then 1 else 0) == 0) ≡ v
      back true = refl
      back false = refl

  pub r_ushort-Reads :
      (v : ℕ)
      → v < 2 ^ 16
      → unread m ≡ be_bytes 2 v ++ rest
      → Returns (Reads m v 2 rest) (r_ushort m)
  unfolding r_ushort
  r_ushort-Reads v h e =
      Returns-mono (get_two-Reads v rest m e) λ (x, m') (ev, n). (ev ∙ omega arith, n)

  pub r_short-Reads :
      (v : ℤ)
      → IsInt 16 v
      → unread m ≡ be_bytes 2 (to_word 32 v) ++ rest
      → Returns (Reads m v 2 rest) (r_short m)
  unfolding r_short
  r_short-Reads v h e =
      Returns-mono (convert (of_word 16) m _ 2 rest (get_two-Reads _ rest m e))
        λ (x, m') (ev, n). (ev ∙ word16_value v h, n)

  pub r_uint-Reads :
      (v : ℕ) → v < 2 ^ 32 → unread m ≡ be_bytes 4 v ++ rest → Returns (Reads m v 4 rest) (r_uint m)
  unfolding r_uint
  r_uint-Reads v h e =
      Returns-mono (get_four-Reads v rest m e) λ (x, m') (ev, n). (ev ∙ omega arith, n)

  pub r_float-Reads :
      (v : ℕ)
      → v < 2 ^ 32
      → unread m ≡ be_bytes 4 v ++ rest
      → Returns (Reads m v 4 rest) (r_float m)
  unfolding r_float
  r_float-Reads v h e =
      Returns-mono (get_four-Reads v rest m e) λ (x, m') (ev, n). (ev ∙ omega arith, n)

  pub r_int-Reads :
      (v : ℤ)
      → IsInt 32 v
      → unread m ≡ be_bytes 4 (to_word 32 v) ++ rest
      → Returns (Reads m v 4 rest) (r_int m)
  unfolding r_int
  r_int-Reads v h e =
      Returns-mono (convert (of_word 32) m _ 4 rest (get_four-Reads _ rest m e))
        λ (x, m') (ev, n). (ev ∙ word32_value v h, n)
