-- ===== src/NetMessage/Read/Patterns.antt =====
-- rInt64, which joins eight bytes by shifts, and rDouble, which puts them where a double has them.
use socketforioswinandroid.Common.{
  ℕ, ◌%◌, ◌<◌, ◌≡◌, refl, ap, Option-cases, some, inl, inr, get_elem?, arith, of_word, Result, ok,
  fault, stuck, ◌>>=◌, Yields,
}
use socketforioswinandroid.MemBuffer.{load}
use socketforioswinandroid.NetMessage.{NetMessage, get_buf_value}
use socketforioswinandroid.NetMessage.Read.{get_byte, r_int64, r_double}

-- What the block holds are bytes.
abbrev pub HasBytes : NetMessage → Type 0
HasBytes m = (i x : ℕ) → get_elem? m.m_buffer.m_buf i ≡ some x → x < 256

abbrev ReadByte : ℕ × NetMessage → Type 0
ReadByte r = (r.0 < 256) × HasBytes r.1

get_buf_value-ReadByte : (m : NetMessage) → HasBytes m → Yields ReadByte (get_buf_value m)
unfolding get_buf_value load
get_buf_value-ReadByte m h = elim (Option-cases (get_elem? m.m_buffer.m_buf m.m_cur_pos)) [
  | inl e ↦ rw (e, Yields) tt
  | inr (x, e) ↦ rw (e, Yields) (h m.m_cur_pos x e, h)
]

low_byte : (x : ℕ) → x < 256 → x % 256 ≡ x
low_byte x h = omega arith

module _ {A B : Type 0} (F : ℕ × NetMessage → Result B) (G : ℕ × NetMessage → Result A)
    (k : A → Result B) where
  one_byte_of :
      (r : Result (ℕ × NetMessage))
      → Yields ReadByte r
      → ((b : ℕ) (m : NetMessage) → b < 256 → HasBytes m → F (b, m) ≡ (G (b, m) >>= k))
      → ((r >>= λ (v, m). ok (v % 256, m)) >>= F) ≡ ((r >>= G) >>= k)
  one_byte_of (ok (b, m)) p same = rw (low_byte b p.0) (same b m p.0 p.1)
  one_byte_of fault p same = refl
  one_byte_of stuck p same = refl

  -- A byte that both readers take.
  one_byte :
      (m : NetMessage)
      → HasBytes m
      → ((b : ℕ) (m : NetMessage) → b < 256 → HasBytes m → F (b, m) ≡ (G (b, m) >>= k))
      → (get_byte m >>= F) ≡ ((get_buf_value m >>= G) >>= k)
  unfolding get_byte
  one_byte m h same = one_byte_of (get_buf_value m) (get_buf_value-ReadByte m h) same

-- On a block of bytes, rInt64 is rDouble with the eight bytes taken as a signed integer: both fail
-- at the end of the block, and otherwise they read the same 64-bit pattern and stop at the same
-- place.
pub r_int64-r_double :
    (m : NetMessage) → HasBytes m → r_int64 m ≡ (r_double m >>= λ (v, m). ok (of_word 64 v, m))
unfolding r_int64 r_double
r_int64-r_double m h = one_byte _ _ _ m h λ b7 m h7 k. one_byte _ _ _ m k λ b6 m h6 k.
    one_byte _ _ _ m k λ b5 m h5 k. one_byte _ _ _ m k λ b4 m h4 k. one_byte _ _ _ m k λ b3 m h3 k.
      one_byte _ _ _ m k λ b2 m h2 k.
        one_byte _ _ _ m k
          λ b1 m h1 k. one_byte _ _ _ m k λ b0 m h0 k. ap (λ n. ok (of_word 64 n, m)) (omega arith)
