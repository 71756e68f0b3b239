-- ===== src/MemBuffer/Copy.antt =====
-- Copies into a block and out of it.
use socketforioswinandroid.Common.{
  ℕ, suc, ◌+◌, ◌≤◌, ◌<◌, ◌≡◌, refl, ◌∙◌, List, [], ◌∷◌, ◌++◌, append-nil, append_assoc, length,
  length-set, get_elem?, get_elem?-set_ne, set, take, take-set_next, arith, ok, fault, Returns,
  returns, Returns-mono,
}
use socketforioswinandroid.MemBuffer.{MemBuffer, store, copy_in, IsBlock}

-- `c` is `b` with `vs` at `p`: seen as the bytes up to their end, and the bytes behind it.
pub record Copied (b : MemBuffer) (p : ℕ) (vs : List ℕ) (c : MemBuffer) : Type 0 where
  pub same_size : c.m_size ≡ b.m_size
  pub block : IsBlock c
  pub front : take (p + length vs) c.m_buf ≡ take p b.m_buf ++ vs
  pub back : (i : ℕ) → p + length vs ≤ i → get_elem? c.m_buf i ≡ get_elem? b.m_buf i

pub store-ok :
    (b : MemBuffer) (p v : ℕ)
    → IsBlock b
    → p < b.m_size
    → store b p v ≡ ok (record b { m_buf = set b.m_buf p v })
unfolding store
store-ok b p v h l = ground arith

Copied-cons :
    (b : MemBuffer) (p v : ℕ) (vs : List ℕ) (c : MemBuffer)
    → IsBlock b
    → p < b.m_size
    → Copied (record b { m_buf = set b.m_buf p v }) (suc p) vs c
    → Copied b p (v ∷ vs) c
Copied-cons b p v vs c h l r =
    let shift : p + suc (length vs) ≡ suc p + length vs = omega arith in
    record {
      same_size = r.same_size;
      block = r.block;
      front = rw (shift, r.front, take-set_next b.m_buf p v (omega arith), append_assoc);
      back = λ i e. r.back i (omega arith) ∙ get_elem?-set_ne b.m_buf v (omega arith);
    }

pub copy_in-Copied :
    (vs : List ℕ) (p : ℕ) (b : MemBuffer)
    → IsBlock b
    → p + length vs ≤ b.m_size
    → Returns (Copied b p vs) (copy_in b p vs)
unfolding copy_in
copy_in-Copied [] p b h fits =
    let e : p + 0 ≡ p = omega arith in
    returns (record { same_size = refl; block = h; front = rw (e, append-nil); back = λ i l. refl })
copy_in-Copied (v ∷ vs) p b h fits = rw (store-ok b p v h (omega arith)) (
    Returns-mono
      (copy_in-Copied vs (suc p) (record b { m_buf = set b.m_buf p v }) (length-set b.m_buf p v ∙ h)
        (omega arith))
      (λ c. Copied-cons b p v vs c h (omega arith)))

-- A copy that does not fit runs over the end of the block.
pub copy_in-fault :
    (vs : List ℕ) (p : ℕ) (b : MemBuffer)
    → length b.m_buf < p + length vs
    → 0 < length vs
    → copy_in b p vs ≡ fault
unfolding copy_in store
copy_in-fault [] p b h some_byte = absurd (omega arith)
copy_in-fault (v ∷ []) p b h some_byte = ground arith
copy_in-fault (v ∷ w ∷ vs) p b h some_byte = ground (
  arith,
  length-set b.m_buf p v,
  copy_in-fault (w ∷ vs) (suc p) (record b { m_buf = set b.m_buf p v }),
)
