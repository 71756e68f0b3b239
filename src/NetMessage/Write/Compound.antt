-- ===== src/NetMessage/Write/Compound.antt =====
-- The writers whose bytes are not put one behind the other: wInt64 and wString.
use socketforioswinandroid.Common.{
  ℕ, suc, ◌+◌, ◌%◌, ◌^◌, ◌≤◌, ◌<◌, ◌≡◌, refl, ◌∙◌, List, [], ◌∷◌, ◌++◌, length, length-set,
  get_elem?, get_elem?-set_ne, get_elem?-set_self, get_elem?-drop, length-drop, drop, append-nil,
  take-add, take_ext, zero, set, take, arith, ℤ, pos, ◌+ℤ◌, to_word, of_word, be_bytes, Returns,
  returns, Returns-bind,
}
use socketforioswinandroid.MemBuffer.{Allocator, MemBuffer, store, IsAllocator, HasMemory, IsBlock}
use socketforioswinandroid.MemBuffer.Copy.{store-ok}
use socketforioswinandroid.NetMessage.{NetMessage}
use socketforioswinandroid.NetMessage.Write.{w_int64, w_string}
use socketforioswinandroid.NetMessage.Write.Laws.{
  CanWrite, Wrote, Wrote-CanWrite, Wrote-trans, check_buf_size-Wrote, copy_and_skip-Wrote, take-all,
}
use socketforioswinandroid.NetMessage.Write.Appends.{w_int-Wrote}

four_more : (n : ℕ) → 4 + n < 2 ^ 31 → of_word 32 (to_word 32 (pos 4 +ℤ pos n)) ≡ pos (4 + n)
four_more n h = ground arith

module _ (a : Allocator) (law : IsAllocator a) (memory : HasMemory a) where
  pub w_string-Wrote :
      (vs : List ℕ) (m : NetMessage)
      → CanWrite m
      → m.m_cur_pos + (4 + length vs) ≤ 2 ^ 30
      → Returns
          (Wrote m (be_bytes 4 (length vs % 2 ^ 32) ++ vs) 0)
          (w_string a vs (pos (length vs)) m)
  unfolding w_string
  w_string-Wrote vs m c h = rw (four_more (length vs) (omega arith)) (
      Returns-bind (check_buf_size-Wrote a law memory (4 + length vs) m c h) λ m0 w0.
        Returns-bind
          (w_int-Wrote a law memory (pos (length vs)) m0 (Wrote-CanWrite m [] _ m0 c w0)
            (omega (arith, w0.position)))
          λ m1 w1.
            copy_and_skip-Wrote vs m (be_bytes 4 (length vs % 2 ^ 32)) m1
              (Wrote-trans m [] _ m0 (be_bytes 4 (length vs % 2 ^ 32)) 0 (length vs) m1 w0 w1
                (omega (arith, w0.room, w1.position, w1.larger)))
              (omega (arith, w0.position, w1.position)))

-- Stores from the last place to the first: `vs` stands from `p` on, up to the fixed end.
record Filled (b : MemBuffer) (p : ℕ) (vs : List ℕ) (c : MemBuffer) : Type 0 where
  same_size : c.m_size ≡ b.m_size
  block : IsBlock c
  bytes : (i : ℕ) → i < length vs → get_elem? c.m_buf (p + i) ≡ get_elem? vs i
  below : (i : ℕ) → i < p → get_elem? c.m_buf i ≡ get_elem? b.m_buf i
  above : (i : ℕ) → p + length vs ≤ i → get_elem? c.m_buf i ≡ get_elem? b.m_buf i

Filled-start : (b : MemBuffer) (p : ℕ) → IsBlock b → Filled b p [] b
Filled-start b p h = record {
  same_size = refl;
  block = h;
  bytes = λ i l. absurd (omega arith);
  below = λ i l. refl;
  above = λ i l. refl;
}

get_elem?-set_cons :
    (xs vs : List ℕ) (p q v : ℕ)
    → p ≡ q + 1
    → q < length xs
    → ((i : ℕ) → i < length vs → get_elem? xs (p + i) ≡ get_elem? vs i)
    → (i : ℕ) → i < length (v ∷ vs)
    → get_elem? (set xs q v) (q + i) ≡ get_elem? (v ∷ vs) i
get_elem?-set_cons xs vs p q v e h f zero l =
    let same : q + 0 ≡ q = omega arith in rw same (get_elem?-set_self xs q v h)
get_elem?-set_cons xs vs p q v e h f (suc i) l =
    let same : q + suc i ≡ p + i = omega arith in
    rw same (get_elem?-set_ne xs v (omega arith) ∙ f i (omega arith))

store-Filled :
    (b : MemBuffer) (p q v : ℕ) (vs : List ℕ) (c : MemBuffer)
    → p ≡ q + 1
    → p ≤ b.m_size
    → Filled b p vs c
    → Returns (Filled b q (v ∷ vs)) (store c q v)
store-Filled b p q v vs c e h f = rw (store-ok c q v f.block (omega (arith, f.same_size))) (
    returns (record {
      same_size = f.same_size;
      block = length-set c.m_buf q v ∙ f.block;
      bytes = get_elem?-set_cons c.m_buf vs p q v e (omega (arith, f.same_size, f.block)) f.bytes;
      below = λ i l. get_elem?-set_ne c.m_buf v (omega arith) ∙ f.below i (omega arith);
      above = λ i l. get_elem?-set_ne c.m_buf v (omega arith) ∙ f.above i (omega arith);
    }))

Filled-front :
    (b : MemBuffer) (p : ℕ) (vs : List ℕ) (c : MemBuffer)
    → IsBlock b
    → p + length vs ≤ b.m_size
    → Filled b p vs c
    → take (p + length vs) c.m_buf ≡ take p b.m_buf ++ vs
Filled-front b p vs c h fits f = rw (
  take-add c.m_buf p (length vs),
  take_ext c.m_buf b.m_buf p (omega (arith, f.block, f.same_size)) (omega arith) f.below,
  middle,
  take-all vs,
)
  where
    middle : take (length vs) (drop p c.m_buf) ≡ take (length vs) vs
    middle =
        take_ext (drop p c.m_buf) vs (length vs)
          (omega (arith, length-drop p c.m_buf, f.block, f.same_size)) (omega arith)
          λ i l. get_elem?-drop c.m_buf p i ∙ f.bytes i l

Filled-Wrote :
    (m : NetMessage) (n : ℕ) (m0 : NetMessage) (vs : List ℕ) (c : MemBuffer)
    → Wrote m [] (length vs) m0
    → n ≡ length vs
    → Filled m0.m_buffer m0.m_cur_pos vs c
    → Wrote m vs 0 (record m0 { m_buffer = c; m_cur_pos = m0.m_cur_pos + n })
Filled-Wrote m n m0 vs c w e f = record {
  same_size = w.same_size;
  same_head = w.same_head;
  same_start = w.same_start;
  position = omega (arith, w.position);
  room = omega (arith, w.room, f.same_size);
  block = f.block;
  larger = omega (arith, w.larger, f.same_size);
  bounded = omega (arith, w.bounded, f.same_size);
  front = rw (e, Filled-front m0.m_buffer m0.m_cur_pos vs c w.block w.room f, w.front, append-nil);
  back = λ i l h. f.above i (omega arith) ∙ w.back i (omega arith) h;
}

module _ (a : Allocator) (law : IsAllocator a) (memory : HasMemory a) where
  pub w_int64-Wrote :
      (v : ℤ) (m : NetMessage)
      → CanWrite m
      → m.m_cur_pos + 8 ≤ 2 ^ 30
      → Returns (Wrote m (be_bytes 8 (to_word 64 v)) 0) (w_int64 a v m)
  unfolding w_int64
  w_int64-Wrote v m c h = Returns-bind (check_buf_size-Wrote a law memory 8 m c h) λ m0 w.
      let b = m0.m_buffer in
      let p = m0.m_cur_pos in
      let room : p + 8 ≤ b.m_size = w.room in
      Returns-bind
        (store-Filled b (p + 8) (p + 7) _ [] b (omega arith) (omega arith)
          (Filled-start b (p + 8) w.block))
        λ c1 f1.
          Returns-bind (store-Filled b (p + 7) (p + 6) _ _ c1 (omega arith) (omega arith) f1)
            λ c2 f2.
              Returns-bind (store-Filled b (p + 6) (p + 5) _ _ c2 (omega arith) (omega arith) f2)
                λ c3 f3.
                  Returns-bind
                    (store-Filled b (p + 5) (p + 4) _ _ c3 (omega arith) (omega arith) f3)
                    λ c4 f4.
                      Returns-bind
                        (store-Filled b (p + 4) (p + 3) _ _ c4 (omega arith) (omega arith) f4)
                        λ c5 f5.
                          Returns-bind
                            (store-Filled b (p + 3) (p + 2) _ _ c5 (omega arith) (omega arith) f5)
                            λ c6 f6.
                              Returns-bind
                                (store-Filled b (p + 2) (p + 1) _ _ c6 (omega arith) (omega arith)
                                  f6)
                                λ c7 f7.
                                  Returns-bind
                                    (store-Filled b (p + 1) p _ _ c7 (omega arith) (omega arith) f7)
                                    λ c8 f8. returns (Filled-Wrote m 8 m0 _ c8 w refl f8)
