-- ===== src/NetMessage/Frame/Receive/Stage.antt =====
-- A message on its way: what of its frame has arrived, and what is still to come.
use socketforioswinandroid.Common.{
  ℕ, ◌+◌, ◌^◌, ◌≤◌, ◌<◌, ◌≡◌, refl, sym, ap, ◌∙◌, inl, inr, false, Bool-cases, List, [], ◌++◌,
  append_assoc, append-nil, length, length-append, length-take, take, drop, take-append-drop, ltb,
  arith, pos, pos_part, be_bytes, Returns, Returns-mono,
}
use socketforioswinandroid.MemBuffer.{Allocator, IsAllocator, HasMemory}
use socketforioswinandroid.NetMessage.{NetMessage, is_end, get_read_cap}
use socketforioswinandroid.NetMessage.Frame.{encode_frame}
use socketforioswinandroid.NetMessage.Frame.Receive.{receive_chunk, IsFresh}
use socketforioswinandroid.NetMessage.Frame.Receive.Body.{Partial, receive_chunk-Partial}
use socketforioswinandroid.NetMessage.Frame.Receive.Head.{
  Announced, short_head-Partial, announced, long_size-Partial,
}
use socketforioswinandroid.NetMessage.Frame.Receive.Whole.{
  Received, Partial-Received, Partial-get_read_cap,
}

-- `todo` is what has not arrived of the frame of `body`.
pub data Stage (body todo : List ℕ) (m : NetMessage) : Type 0 where
  at_head : IsFresh m → 4 ≤ m.m_buffer.m_size → todo ≡ encode_frame body → Stage body todo m
  at_size :
      Announced m
      → 0xffff ≤ length body
      → todo ≡ be_bytes 4 (length body) ++ body
      → Stage body todo m
  at_body :
      (hd got : List ℕ)
      → Partial hd (length body) got m
      → length hd + length body < 2 ^ 31
      → got ++ todo ≡ body
      → Stage body todo m

-- The message asks for a part of what is to come.
pub record Asks (todo : List ℕ) (m : NetMessage) : Type 0 where
  pub cap : ℕ
  pub asked : get_read_cap m ≡ pos cap
  pub positive : 0 < cap
  pub within : cap ≤ length todo
  pub open_yet : is_end m ≡ false

pub frame_long : (body : List ℕ) → 2 ≤ length (encode_frame body)
frame_long body = elim (Bool-cases (ltb (length body) 0xffff)) [
  | inl short ↦ rw short (omega arith)
  | inr long ↦ rw long (omega arith)
]

pub Stage-Asks :
    (body todo : List ℕ) (m : NetMessage) → Stage body todo m → 0 < length todo → Asks todo m
unfolding get_read_cap is_end
Stage-Asks body todo m (at_head f room e) more = record {
  cap = 2;
  asked = rw f.size refl;
  positive = omega arith;
  within = rw e (frame_long body);
  open_yet = rw f.size refl;
}
Stage-Asks body todo m (at_size z large e) more = record {
  cap = 4;
  asked = rw z.size refl;
  positive = omega arith;
  within = rw e (omega arith);
  open_yet = rw z.size refl;
}
Stage-Asks body todo m (at_body hd got p small e) more =
    let parts : length got + length todo ≡ length body =
      sym (length-append got todo) ∙ ap length e in
    record {
      cap = length todo;
      asked =
          Partial-get_read_cap hd (length body) got m (omega (arith, parts)) p
          ∙ ground (arith, parts);
      positive = more;
      within = omega arith;
      open_yet = rw p.size (ground (arith, parts, p.position, p.head, p.start));
    }

Partial-same :
    (hd got body : List ℕ) (n : ℕ) (m : NetMessage)
    → got ≡ body
    → Partial hd n got m
    → Partial hd n body m
Partial-same hd got body n m e p = rw (← e) p

pub Stage-Received : (body : List ℕ) (m : NetMessage) → Stage body [] m → Received body m
Stage-Received body m (at_head f room e) =
    absurd (let l = frame_long body in omega (arith, l, ap length e))
Stage-Received body m (at_size z large e) = absurd (omega (arith, ap length e))
Stage-Received body m (at_body hd got p small e) =
    Partial-Received hd body m
      (Partial-same hd got body (length body) m (sym (append-nil got) ∙ e) p)

cap_of : (m n : ℕ) → pos m ≡ pos n → m ≡ n
cap_of m n e = ap pos_part e

module _ (a : Allocator) (law : IsAllocator a) (memory : HasMemory a) where
  -- A chunk of at least a byte arrives; a head arrives as it was asked for.
  pub receive_chunk-Stage :
      (body todo : List ℕ) (m : NetMessage) (cap k : ℕ)
      → Stage body todo m
      → 4 + length body ≤ 2 ^ 30
      → get_read_cap m ≡ pos cap
      → k ≤ cap
      → k ≤ length todo
      → (cap ≤ 4 → k ≡ cap)
      → Returns (Stage body (drop k todo)) (receive_chunk a (take k todo) m)
  unfolding get_read_cap
  receive_chunk-Stage body todo m cap k (at_head f room e) bound asked below within whole =
      let two : cap ≡ 2 = cap_of cap 2 (sym asked ∙ rw f.size refl) in
      let k2 : k ≡ 2 = whole (omega (arith, two)) ∙ two in
      elim (Bool-cases (ltb (length body) 0xffff)) [
        | inl short ↦
            let frame : todo ≡ be_bytes 2 (length body) ++ body = e ∙ rw short refl in
            rw (k2, frame)
              (Returns-mono (short_head-Partial a law memory (length body) m f room (ground arith))
                λ m' p. at_body (be_bytes 2 (length body)) [] p (omega arith) refl)
        | inr long ↦
            let frame : todo ≡ be_bytes 2 0xffff ++ (be_bytes 4 (length body) ++ body) =
              e ∙ rw long refl in
            rw (k2, frame)
              (Returns-mono (announced a law memory m f room) λ m' z. at_size z (ground arith) refl)
      ]
  receive_chunk-Stage body todo m cap k (at_size z large e) bound asked below within whole =
      let four : cap ≡ 4 = cap_of cap 4 (sym asked ∙ rw z.size refl) in
      let k4 : k ≡ 4 = whole (omega (arith, four)) ∙ four in
      rw (k4, e)
        (Returns-mono (long_size-Partial a law memory (length body) m z bound)
          λ m' p. at_body (be_bytes 4 (length body)) [] p (omega arith) refl)
  receive_chunk-Stage body todo m cap k (at_body hd got p small e) bound asked below within whole =
      let parts : length got + length todo ≡ length body =
        sym (length-append got todo) ∙ ap length e in
      let chunk : length (take k todo) ≤ k = omega (arith, length-take k todo) in
      Returns-mono
        (receive_chunk-Partial a hd (length body) small (take k todo) got m (omega arith) p)
        λ m' p'. at_body hd (got ++ take k todo) p' small (
          append_assoc got (take k todo) (drop k todo)
          ∙ ap (λ t. got ++ t) (take-append-drop k todo)
          ∙ e)
