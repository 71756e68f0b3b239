-- ===== src/NetMessage/Read/Text.antt =====
-- rRaw and rString, and the bytes behind the pointers that they return.
use socketforioswinandroid.Common.{
  ℕ, zero, suc, ◌+◌, ◌%◌, ◌^◌, ◌≤◌, ◌<◌, ◌≡◌, refl, sym, ap, ◌∙◌, List, [], ◌∷◌, ◌++◌, length,
  length-append, length-drop, drop, take, take-length, drop-length, arith, ℤ, pos, pos_part,
  is_positive, be_bytes, Result, ok, ◌>>=◌, Returns, returns, Returns-bind, Returns-mono,
  if◌then◌else◌,
}
use socketforioswinandroid.MemBuffer.{copy_out}
use socketforioswinandroid.NetMessage.{NetMessage, skip}
use socketforioswinandroid.NetMessage.Write.Laws.{skip-ok}
use socketforioswinandroid.NetMessage.Read.{
  empty_literal, in_block, r_int, r_raw, r_string, bytes_of,
}
use socketforioswinandroid.NetMessage.Read.Laws.{
  unread, advance, Next, Reads, Next-start, r_int-Reads,
}

copy_out-unread :
    (m : NetMessage) (vs rest : List ℕ)
    → 0 < length vs
    → unread m ≡ vs ++ rest
    → copy_out m.m_buffer m.m_cur_pos (length vs) ≡ ok vs
unfolding copy_out
copy_out-unread m vs rest h e =
    let size : length (unread m) ≡ length vs + length rest = ap length e ∙ length-append vs rest in
    let whole : take (length vs) (unread m) ≡ vs = rw e (take-length vs rest) in
    ground (arith, whole, size, length-drop m.m_cur_pos m.m_buffer.m_buf)

drop-add : (n k : ℕ) (xs : List ℕ) → drop (n + k) xs ≡ drop k (drop n xs)
drop-add zero k xs = let e : 0 + k ≡ k = omega arith in rw e
drop-add (suc n) k [] = let e : suc n + k ≡ suc (n + k) = omega arith in rw e (sym (drop-nil k))
  where
    drop-nil : (k : ℕ) → drop {A = ℕ} k [] ≡ []
    drop-nil zero = refl
    drop-nil (suc k) = refl
drop-add (suc n) k (x ∷ xs) =
    let e : suc n + k ≡ suc (n + k) = omega arith in rw e (drop-add n k xs)

-- What r_raw does, and then the copy.
unfoldable pub read_raw : ℤ → NetMessage → Result (List ℕ × NetMessage)
unfolding r_raw bytes_of
read_raw sz m = do (p, m) ← r_raw sz m; bytes ← bytes_of p sz m; ok (bytes, m)

unfoldable pub read_string : NetMessage → Result (List ℕ × NetMessage)
unfolding r_string bytes_of
read_string m = do (p, size, m) ← r_string m; bytes ← bytes_of p size m; ok (bytes, m)

text-Next :
    (vs rest : List ℕ) (m : NetMessage)
    → unread m ≡ vs ++ rest
    → Next m (length vs) rest (advance (length vs) m)
text-Next vs rest m e = record {
  state = refl;
  next = drop-add m.m_cur_pos (length vs) m.m_buffer.m_buf ∙ rw e (drop-length vs rest);
}

text_fits :
    (vs rest : List ℕ) (m : NetMessage)
    → 0 < length vs
    → unread m ≡ vs ++ rest
    → m.m_cur_pos + length vs ≤ length m.m_buffer.m_buf
text_fits vs rest m h e =
    omega (arith, ap length e, length-append vs rest, length-drop m.m_cur_pos m.m_buffer.m_buf)

pub read_raw-Reads :
    (vs rest : List ℕ) (m : NetMessage)
    → length m.m_buffer.m_buf < 2 ^ 31
    → unread m ≡ vs ++ rest
    → Returns (Reads m vs (length vs) rest) (read_raw (pos (length vs)) m)
unfolding read_raw
read_raw-Reads [] rest m h e = returns (refl, Next-start m rest e)
read_raw-Reads (v ∷ vs) rest m h e =
    let some_text : 0 < length (v ∷ vs) = omega arith in
    let fits : m.m_cur_pos + length (v ∷ vs) ≤ length m.m_buffer.m_buf =
      text_fits (v ∷ vs) rest m some_text e in
    let run : read_raw (pos (length (v ∷ vs))) m ≡ ok (v ∷ vs, advance (length (v ∷ vs)) m) =
      ground (
        arith,
        skip-ok (length (v ∷ vs)) m (omega arith),
        copy_out-unread m (v ∷ vs) rest some_text e,
      ) in
    rw run (returns (refl, text-Next (v ∷ vs) rest m e))

-- rString behind its rInt, and the copy.
string_tail : ℤ → NetMessage → Result (List ℕ × NetMessage)
unfolding bytes_of
string_tail size m = do
  (p, size, m) ←
      (if is_positive size
        then (skip (pos_part size) m >>= λ m'. ok (in_block m.m_cur_pos, size, m'))
        else ok (empty_literal, size, m))
  bytes ← bytes_of p size m
  ok (bytes, m)

string_tail-Reads :
    (vs rest : List ℕ) (m : NetMessage)
    → length m.m_buffer.m_buf < 2 ^ 31
    → unread m ≡ vs ++ rest
    → Returns (Reads m vs (length vs) rest) (string_tail (pos (length vs)) m)
unfolding string_tail
string_tail-Reads [] rest m h e = returns (refl, Next-start m rest e)
string_tail-Reads (v ∷ vs) rest m h e =
    let some_text : 0 < length (v ∷ vs) = omega arith in
    let fits : m.m_cur_pos + length (v ∷ vs) ≤ length m.m_buffer.m_buf =
      text_fits (v ∷ vs) rest m some_text e in
    let run : string_tail (pos (length (v ∷ vs))) m ≡ ok (v ∷ vs, advance (length (v ∷ vs)) m) =
      ground (
        arith,
        skip-ok (length (v ∷ vs)) m (omega arith),
        copy_out-unread m (v ∷ vs) rest some_text e,
      ) in
    rw run (returns (refl, text-Next (v ∷ vs) rest m e))

read_string-tail :
    (m : NetMessage) → read_string m ≡ (r_int m >>= λ (size, m'). string_tail size m')
unfolding read_string string_tail
read_string-tail m = ground arith

pub Next-trans :
    (m : NetMessage) (j : ℕ) (xs : List ℕ) (m1 : NetMessage) (k : ℕ) (rest : List ℕ)
    (m2 : NetMessage)
    → Next m j xs m1
    → Next m1 k rest m2
    → Next m (j + k) rest m2
Next-trans m j xs m1 k rest m2 n o = record {
  state = o.state ∙ ap (advance k) n.state ∙ ap (λ p. record m { m_cur_pos = p }) (omega arith);
  next = o.next;
}

-- rString returns the text that follows its length.
pub read_string-Reads :
    (vs rest : List ℕ) (m : NetMessage)
    → length m.m_buffer.m_buf < 2 ^ 31
    → length vs < 2 ^ 31
    → unread m ≡ be_bytes 4 (length vs % 2 ^ 32) ++ (vs ++ rest)
    → Returns (Reads m vs (4 + length vs) rest) (read_string m)
read_string-Reads vs rest m h small e = rw (read_string-tail m) (
    Returns-bind (r_int-Reads (vs ++ rest) m (pos (length vs)) small e) λ (size, m1) (es, n1).
      rw es (
        Returns-mono (string_tail-Reads vs rest m1 (rw n1.state h) n1.next)
          λ (bytes, m2) (eb, n2). (eb, Next-trans m 4 (vs ++ rest) m1 (length vs) rest m2 n1 n2)))
