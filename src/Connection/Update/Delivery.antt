-- ===== src/Connection/Update/Delivery.antt =====
-- The sending loop of Update hands the whole frame of a message to the socket, however much of it
-- each call of send() takes.
use socketforioswinandroid.Common.{
  ℕ, zero, suc, ◌+◌, ◌-◌, ◌^◌, ◌≤◌, ◌<◌, ◌≡◌, refl, sym, ap, ◌∙◌, inl, inr, true, Bool-cases, List,
  ◌++◌, append_assoc, append-nil, length, length-take, length-drop, take, drop, take-add,
  take-take_le, drop-add, ◌==◌, arith, ℤ, pos, ok, Returns, returns, Returns-mono,
}
use socketforioswinandroid.MemBuffer.{IsBlock, copy_out}
use socketforioswinandroid.NetMessage.{NetMessage, is_end, get_send_cap, on_send, skip}
use socketforioswinandroid.NetMessage.Frame.{encode_frame}
use socketforioswinandroid.NetMessage.Frame.Send.{Framed}
use socketforioswinandroid.Network.{Network, SocketCommon, send}
use socketforioswinandroid.Connection.Update.{send_message}

-- A socket that takes at least one byte at each call, and no more than it is given. `log` is what
-- it has taken so far.
pub record IsSending (net : Network) (fd : ℤ) (log : net.World → List ℕ) : Type 0 where
  pub count : List ℕ → net.World → ℕ
  pub takes :
      (bytes : List ℕ) (w : net.World)
      → 0 < length bytes
      → (net.send fd bytes w).0 ≡ pos (count bytes w)
  pub some_byte : (bytes : List ℕ) (w : net.World) → 0 < length bytes → 0 < count bytes w
  pub no_more : (bytes : List ℕ) (w : net.World) → count bytes w ≤ length bytes
  pub logs :
      (bytes : List ℕ) (w : net.World)
      → 0 < length bytes
      → log (net.send fd bytes w).1 ≡ log w ++ take (count bytes w) bytes

-- `k` bytes of the message in the block are still to be sent.
pub record Left (k : ℕ) (m : NetMessage) : Type 0 where
  pub body : ℕ
  pub size : m.m_size ≡ pos body
  pub left : m.m_cur_pos + k ≡ body + m.m_head_size + m.m_buf_start_pos
  pub block : IsBlock m.m_buffer
  pub inside : m.m_cur_pos + k ≤ m.m_buffer.m_size
  pub small : m.m_cur_pos + k < 2 ^ 31

Left-is_end : (k : ℕ) (m : NetMessage) → Left k m → is_end m ≡ (k == 0)
unfolding is_end
Left-is_end k m l = rw l.size (ground (arith, l.left))

Left-get_send_cap : (k : ℕ) (m : NetMessage) → Left k m → get_send_cap m ≡ pos k
unfolding get_send_cap
Left-get_send_cap k m l = rw l.size (ground (arith, l.left))

copy_out-Left :
    (k : ℕ) (m : NetMessage)
    → Left k m
    → copy_out m.m_buffer m.m_cur_pos k ≡ ok (take k (drop m.m_cur_pos m.m_buffer.m_buf))
unfolding copy_out
copy_out-Left k m l = ground (arith, l.inside, l.block)

on_send-Left :
    (n k : ℕ) (m : NetMessage)
    → n ≤ k
    → Left k m
    → (on_send n m ≡ ok (record m { m_cur_pos = m.m_cur_pos + n }))
      × Left (k - n) (record m { m_cur_pos = m.m_cur_pos + n })
unfolding on_send skip
on_send-Left n k m h l = (
  ground (arith, l.small),
  record {
    body = l.body;
    size = l.size;
    left = omega (arith, l.left);
    block = l.block;
    inside = omega (arith, l.inside);
    small = omega (arith, l.small);
  },
)

-- The bytes of `k` that a first part `n` and the rest make up.
two_parts :
    (buf : List ℕ) (at n k : ℕ)
    → n ≤ k
    → take n (take k (drop at buf)) ++ take (k - n) (drop (at + n) buf) ≡ take k (drop at buf)
two_parts buf at n k h =
    let parts : n + (k - n) ≡ k = omega arith in
    ap (λ t. t ++ take (k - n) (drop (at + n) buf)) (take-take_le (drop at buf) n k h)
    ∙ ap (λ t. take n (drop at buf) ++ take (k - n) t) (drop-add buf at n)
    ∙ sym (take-add (drop at buf) n (k - n))
    ∙ ap (λ t. take t (drop at buf)) parts

module _ (net : Network) (s : SocketCommon) (log : net.World → List ℕ)
    (law : IsSending net s.m_socket log) where
  send_message-Left :
      (fuel k : ℕ) (m : NetMessage) (w : net.World)
      → Left k m
      → k < fuel
      → Returns
          (λ r.
            (r.0 ≡ true)
            × (is_end r.1 ≡ true)
            × (log r.2 ≡ log w ++ take k (drop m.m_cur_pos m.m_buffer.m_buf)))
          (send_message net fuel s m w)
  unfolding send_message send
  send_message-Left zero k m w l h = absurd (omega arith)
  send_message-Left (suc fuel) k m w l h = elim (Bool-cases (k == 0)) [
    | inl none_left ↦
        let e : k ≡ 0 = ground arith in
        rw (Left-is_end k m l, none_left, send_message)
          (returns (refl, Left-is_end k m l ∙ none_left, rw e (sym (append-nil (log w)))))
    | inr some_left ↦
        let more : 0 < k = ground arith in
        let bytes = take k (drop m.m_cur_pos m.m_buffer.m_buf) in
        let size : length bytes ≡ k = omega (
          arith,
          length-take k (drop m.m_cur_pos m.m_buffer.m_buf),
          length-drop m.m_cur_pos m.m_buffer.m_buf,
          l.block,
          l.inside,
        ) in
        let n = law.count bytes w in
        let fits : n ≤ k = omega (arith, law.no_more bytes w) in
        let went = on_send-Left n k m fits l in
        rw
          (
            Left-is_end k m l,
            some_left,
            Left-get_send_cap k m l,
            copy_out-Left k m l,
            law.takes bytes w (omega arith),
            went.0,
            send_message,
            send,
          )
          (Returns-mono
            (send_message-Left fuel (k - n) (record m { m_cur_pos = m.m_cur_pos + n })
              (send net bytes s w).1 went.1 (omega (arith, law.some_byte bytes w (omega arith))))
            λ r (done, ended, logged). (
              done,
              ended,
              logged
                  ∙ ap (λ t. t ++ take (k - n) (drop (m.m_cur_pos + n) m.m_buffer.m_buf))
                      (law.logs bytes w (omega arith))
                  ∙ append_assoc (log w) (take n bytes)
                      (take (k - n) (drop (m.m_cur_pos + n) m.m_buffer.m_buf))
                  ∙ ap (λ t. log w ++ t) (two_parts m.m_buffer.m_buf m.m_cur_pos n k fits),
            ))
  ]

  -- On a socket that takes a byte at least at each call, a message as endForWrite leaves it is sent
  -- whole, if its body and six bytes are less than 2 ^ 31 bytes long: with a round for each byte
  -- and one more, the loop comes to the message's end, and what the socket has taken by then is the
  -- frame of the body, behind what it had taken before.
  pub send_message-Framed :
      (fuel : ℕ) (body : List ℕ) (m : NetMessage) (w : net.World)
      → Framed body m
      → 6 + length body < 2 ^ 31
      → m.m_head_size + length body < fuel
      → Returns
          (λ r. (r.0 ≡ true) × (is_end r.1 ≡ true) × (log r.2 ≡ log w ++ encode_frame body))
          (send_message net fuel s m w)
  send_message-Framed fuel body m w f small h =
      Returns-mono
        (send_message-Left fuel (m.m_head_size + length body) m w
          (record {
            body = length body;
            size = f.size;
            left = omega (arith, f.at_start);
            block = f.block;
            inside = omega (arith, f.at_start, f.start, f.fits);
            small = omega (arith, f.at_start, f.start, small);
          })
          h)
        λ r (done, ended, logged). (
          done,
          ended,
          logged
              ∙ ap (λ t. log w ++ take (m.m_head_size + length body) (drop t m.m_buffer.m_buf))
                  f.at_start
              ∙ ap (λ t. log w ++ t) f.frame,
        )
