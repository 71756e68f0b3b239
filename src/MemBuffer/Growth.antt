-- ===== src/MemBuffer/Growth.antt =====
-- The growth of a buffer, and its termination.
use Prim.Native.Nat.{max}
use socketforioswinandroid.MemBuffer.{
  Allocator, MemBuffer, resize, enlarge, grow, IsAllocator, HasMemory, IsBlock,
}
use socketforioswinandroid.Common.{
  ℕ, zero, suc, ◌*◌, ◌^◌, ◌≤◌, ◌<◌, ◌≡◌, refl, get_elem?, ltb, inl, inr, Bool-cases, arith, ok,
  Returns, returns, Returns-mono, le→ltb_false, ap,
}
use native.Mathlib.Nat.{pow-suc}

positive : (n k need : ℕ) → n < need → need ≤ n * k → 0 < n
positive zero k need h reach = absurd (omega arith)
positive (suc n) k need h reach = omega arith

-- `c` is `b` with a block that is as long or longer, and the same bytes in front.
pub record Extends (b c : MemBuffer) : Type 0 where
  pub block : IsBlock c
  pub larger : b.m_size ≤ c.m_size
  pub bounded : c.m_size ≤ max b.m_size 0x7fffffff
  pub keeps : (i : ℕ) → i < b.m_size → get_elem? c.m_buf i ≡ get_elem? b.m_buf i

pub Extends-refl : (b : MemBuffer) → IsBlock b → Extends b b
Extends-refl b h = record {
  block = h;
  larger = omega arith;
  bounded = omega arith;
  keeps = λ i l. refl;
}

Extends-trans : {b c d : MemBuffer} → Extends b c → Extends c d → Extends b d
Extends-trans e f = record {
  block = f.block;
  larger = omega arith;
  bounded = omega (arith, e.bounded, f.bounded);
  keeps = λ i l. ground (arith, f.keeps i (omega arith), e.keeps i l);
}

module _ (a : Allocator) (law : IsAllocator a) (memory : HasMemory a) where
  resize_doubles :
      (b : MemBuffer)
      → IsBlock b
      → b.m_size * 2 < 2 ^ 31
      → (resize a (b.m_size * 2) b).m_size ≡ b.m_size * 2
  unfolding resize
  resize_doubles b h fits =
      let (block, e) = memory.realloc_succeeds b.m_buf (b.m_size * 2) fits in rw (e, resize)

  resize-Extends :
      (b : MemBuffer) → IsBlock b → b.m_size * 2 < 2 ^ 31 → Extends b (resize a (b.m_size * 2) b)
  unfolding resize
  resize-Extends b h fits =
      let (block, e) = memory.realloc_succeeds b.m_buf (b.m_size * 2) fits in
      rw (e, resize)
        (record {
          block = law.realloc_length b.m_buf (b.m_size * 2) block e;
          larger = omega arith;
          bounded = omega (arith, fits);
          keeps =
              λ i l. law.realloc_keeps b.m_buf (b.m_size * 2) i block e (omega arith) (omega arith);
        })

  enlarge-resize :
      (b : MemBuffer)
      → 0 < b.m_size
      → b.m_size * 2 < 2 ^ 31
      → enlarge a 0 b ≡ ok (resize a (b.m_size * 2) b)
  unfolding enlarge
  enlarge-resize b some_byte fits = ground arith

  -- While memory does not run out, for a size up to 2 ^ 30, a loop of `suc fuel` rounds ends where
  -- `fuel` doublings reach the size, with the bytes kept.
  pub grow-Returns :
      (fuel need : ℕ) (b : MemBuffer)
      → IsBlock b
      → need ≤ 2 ^ 30
      → need ≤ b.m_size * 2 ^ fuel
      → Returns (λ c. Extends b c × (need ≤ c.m_size)) (grow a (suc fuel) need b)
  unfolding grow
  grow-Returns zero need b h bound reach =
      rw (le→ltb_false b.m_size need (omega arith), grow) (returns (Extends-refl b h, omega arith))
  grow-Returns (suc fuel) need b h bound reach = elim (Bool-cases (ltb b.m_size need)) [
    | inl more ↦
        let small : b.m_size < need = ground arith in
        let fits : b.m_size * 2 < 2 ^ 31 = omega arith in
        let some_byte : 0 < b.m_size = positive b.m_size (2 ^ suc fuel) need small reach in
        rw (more, grow, enlarge-resize b some_byte fits)
          (Returns-mono
            (grow-Returns fuel need (resize a (b.m_size * 2) b) (resize-Extends b h fits).block
              bound
              (omega (
                arith,
                resize_doubles b h fits,
                ap (λ (t : ℕ). t * 2 ^ fuel) (resize_doubles b h fits),
                ap (λ (t : ℕ). b.m_size * t) (pow-suc 2 fuel),
              )))
            λ c (e, r). (Extends-trans (resize-Extends b h fits) e, r))
    | inr done ↦ rw (done, grow) (returns (Extends-refl b h, ground arith))
  ]
