-- ===== src/NetMessage/Read/Wide.antt =====
-- Eight byte values, and pointers into the message.
use socketforioswinandroid.Common.{
  ℕ, ◌+◌, ◌*◌, ◌/◌, ◌%◌, ◌^◌, ◌<◌, ◌≡◌, List, ◌++◌, arith, ℤ, pos, negsuc, IsInt, to_word, of_word,
  be_bytes, Returns, returns, Returns-bind,
}
use socketforioswinandroid.NetMessage.{NetMessage}
use socketforioswinandroid.NetMessage.Read.{r_int64, r_double}
use socketforioswinandroid.NetMessage.Read.Laws.{
  unread, Reads, Next-start, get_buf_value-Reads, get_byte-Reads, byte-lt,
}

word64_value : (v : ℤ) → IsInt 64 v → of_word 64 (to_word 64 v) ≡ v
word64_value (pos n) h = ground arith
word64_value (negsuc n) h = ground arith

word64-lt : (v : ℤ) → to_word 64 v < 2 ^ 64
word64-lt (pos n) = omega arith
word64-lt (negsuc n) = omega arith

-- Seven rounds of `(val << 8) + byte` put the eight bytes of a word together again.
joined :
    (v : ℕ)
    → v < 2 ^ 64
    → ((((((v / 2 ^ 56 % 256 * 2 ^ 8 + v / 2 ^ 48 % 256) * 2 ^ 8 + v / 2 ^ 40 % 256) * 2 ^ 8
                        + v / 2 ^ 32 % 256)
                      * 2 ^ 8
                    + v / 2 ^ 24 % 256)
                  * 2 ^ 8
                + v / 2 ^ 16 % 256)
              * 2 ^ 8
            + v / 2 ^ 8 % 256)
          * 2 ^ 8
        + v / 2 ^ 0 % 256
      ≡ v
joined v h = omega arith

summed :
    (v : ℕ)
    → v < 2 ^ 64
    → v / 2 ^ 56 % 256 * 2 ^ 56
        + v / 2 ^ 48 % 256 * 2 ^ 48
        + v / 2 ^ 40 % 256 * 2 ^ 40
        + v / 2 ^ 32 % 256 * 2 ^ 32
        + v / 2 ^ 24 % 256 * 2 ^ 24
        + v / 2 ^ 16 % 256 * 2 ^ 16
        + v / 2 ^ 8 % 256 * 2 ^ 8
        + v / 2 ^ 0 % 256
      ≡ v
summed v h = omega arith

module _ (rest : List ℕ) (m : NetMessage) where
  pub r_int64-Reads :
      (v : ℤ)
      → IsInt 64 v
      → unread m ≡ be_bytes 8 (to_word 64 v) ++ rest
      → Returns (Reads m v 8 rest) (r_int64 m)
  unfolding r_int64
  r_int64-Reads v h e =
      Returns-bind (get_byte-Reads m 0 _ _ m (byte-lt _) (Next-start m _ e)) λ (b0, m0) (e0, n0).
        Returns-bind (get_byte-Reads m 1 _ _ m0 (byte-lt _) n0) λ (b1, m1) (e1, n1).
          Returns-bind (get_byte-Reads m 2 _ _ m1 (byte-lt _) n1) λ (b2, m2) (e2, n2).
            Returns-bind (get_byte-Reads m 3 _ _ m2 (byte-lt _) n2) λ (b3, m3) (e3, n3).
              Returns-bind (get_byte-Reads m 4 _ _ m3 (byte-lt _) n3) λ (b4, m4) (e4, n4).
                Returns-bind (get_byte-Reads m 5 _ _ m4 (byte-lt _) n4) λ (b5, m5) (e5, n5).
                  Returns-bind (get_byte-Reads m 6 _ _ m5 (byte-lt _) n5) λ (b6, m6) (e6, n6).
                    Returns-bind (get_byte-Reads m 7 _ _ m6 (byte-lt _) n6) λ (b7, m7) (e7, n7).
                      returns (
                        rw (e0, e1, e2, e3, e4, e5, e6, e7, joined (to_word 64 v) (word64-lt v))
                            (word64_value v h),
                        n7,
                      )

  pub r_double-Reads :
      (v : ℕ)
      → v < 2 ^ 64
      → unread m ≡ be_bytes 8 v ++ rest
      → Returns (Reads m v 8 rest) (r_double m)
  unfolding r_double
  r_double-Reads v h e =
      Returns-bind (get_buf_value-Reads m 0 _ _ m (Next-start m _ e)) λ (b0, m0) (e0, n0).
        Returns-bind (get_buf_value-Reads m 1 _ _ m0 n0) λ (b1, m1) (e1, n1).
          Returns-bind (get_buf_value-Reads m 2 _ _ m1 n1) λ (b2, m2) (e2, n2).
            Returns-bind (get_buf_value-Reads m 3 _ _ m2 n2) λ (b3, m3) (e3, n3).
              Returns-bind (get_buf_value-Reads m 4 _ _ m3 n3) λ (b4, m4) (e4, n4).
                Returns-bind (get_buf_value-Reads m 5 _ _ m4 n4) λ (b5, m5) (e5, n5).
                  Returns-bind (get_buf_value-Reads m 6 _ _ m5 n5) λ (b6, m6) (e6, n6).
                    Returns-bind (get_buf_value-Reads m 7 _ _ m6 n6) λ (b7, m7) (e7, n7).
                      returns (rw (e0, e1, e2, e3, e4, e5, e6, e7) (summed v h), n7)
