-- ===== src/NetMessage/Frame/Receive/Lost.antt =====
-- What becomes of a message whose head does not arrive as it was asked for.
use socketforioswinandroid.Common.{
  ℕ, zero, suc, ◌+◌, ◌^◌, ◌≤◌, ◌<◌, ◌≡◌, refl, ap, ◌∙◌, List, [], ◌∷◌, ◌++◌, length, length-append,
  true, false, arith, ℤ, pos, negsuc, is_negative, Result, ok, fault, stuck, ◌>>=◌, Returns,
  returns, Returns-bind, Returns-mono,
}
use socketforioswinandroid.MemBuffer.{Allocator, IsBlock}
use socketforioswinandroid.MemBuffer.Copy.{copy_in-fault}
use socketforioswinandroid.NetMessage.{NetMessage, is_end, get_read_cap}
use socketforioswinandroid.NetMessage.Write.Laws.{copy_to_current-whole}
use socketforioswinandroid.NetMessage.Frame.{on_head}
use socketforioswinandroid.NetMessage.Frame.Receive.{receive_chunk, feed, join, IsFresh}
use socketforioswinandroid.NetMessage.Frame.Receive.Chunk.{Arrived, receive_chunk-by}

-- The size is unknown, and m_curPos is past the place where the head would be looked at.
pub record Lost (m : NetMessage) : Type 0 where
  pub no_size : is_negative m.m_size ≡ true
  pub passed : m.m_head_size < m.m_cur_pos
  pub block : IsBlock m.m_buffer

Lost-on_head :
    (a : Allocator) (z : ℤ) (m : NetMessage)
    → is_negative z ≡ true
    → m.m_head_size < m.m_cur_pos
    → on_head a z m ≡ ok m
unfolding on_head
Lost-on_head a (pos n) m e h = cc
Lost-on_head a (negsuc zero) m e h = ground arith
Lost-on_head a (negsuc (suc zero)) m e h = ground arith
Lost-on_head a (negsuc (suc (suc n))) m e h = refl

-- A lost message after `n` more bytes.
pub record StillLost (m : NetMessage) (n : ℕ) (m' : NetMessage) : Type 0 where
  pub lost : Lost m'
  pub not_ended : is_end m' ≡ false
  pub position : m'.m_cur_pos ≡ m.m_cur_pos + n
  pub same_room : m'.m_buffer.m_size ≡ m.m_buffer.m_size

negative-is_end : (z : ℤ) (m : NetMessage) → m.m_size ≡ z → is_negative z ≡ true → is_end m ≡ false
unfolding is_end
negative-is_end (pos n) m e h = cc
negative-is_end (negsuc n) m e h = rw e

Lost-StillLost : (m : NetMessage) → Lost m → StillLost m 0 m
Lost-StillLost m l = record {
  lost = l;
  not_ended = negative-is_end m.m_size m refl l.no_size;
  position = omega arith;
  same_room = refl;
}

module _ (a : Allocator) where
  receive_chunk-Lost :
      (chunk : List ℕ) (m : NetMessage)
      → Lost m
      → m.m_cur_pos + length chunk ≤ m.m_buffer.m_size
      → m.m_buffer.m_size < 2 ^ 31
      → Returns (StillLost m (length chunk)) (receive_chunk a chunk m)
  receive_chunk-Lost chunk m l room small =
      receive_chunk-by a chunk m l.block room (omega arith) λ m1 w.
        let no_size : is_negative m1.m_size ≡ true = ap is_negative w.same_size ∙ l.no_size in
        let passed : m1.m_head_size < m1.m_cur_pos =
          omega (arith, w.same_head, w.position, l.passed) in
        rw (Lost-on_head a m1.m_size m1 no_size passed) (
          returns (record {
            lost = record { no_size = no_size; passed = passed; block = w.block };
            not_ended = negative-is_end m1.m_size m1 refl no_size;
            position = w.position;
            same_room = w.same_room;
          }))

  -- A lost message stays lost: whatever arrives, as long as the block has room for it, the message
  -- does not come to its end.
  pub feed-StillLost :
      (chunks : List (List ℕ)) (m : NetMessage)
      → Lost m
      → m.m_cur_pos + length (join chunks) ≤ m.m_buffer.m_size
      → m.m_buffer.m_size < 2 ^ 31
      → Returns (StillLost m (length (join chunks))) (feed a chunks m)
  unfolding feed
  feed-StillLost [] m l room small = returns (Lost-StillLost m l)
  feed-StillLost (c ∷ cs) m l room small =
      let total : length (c ++ join cs) ≡ length c + length (join cs) = length-append c (join cs) in
      Returns-bind (receive_chunk-Lost c m l (omega arith) small) λ m1 s.
        Returns-mono
          (feed-StillLost cs m1 s.lost (omega (arith, s.position, s.same_room))
            (omega (arith, s.same_room)))
          λ m2 t. record {
            lost = t.lost;
            not_ended = t.not_ended;
            position = omega (arith, s.position, t.position);
            same_room = t.same_room ∙ s.same_room;
          }

  lone_byte :
      (b0 : ℕ) (m : NetMessage)
      → IsFresh m
      → 1 ≤ m.m_buffer.m_size
      → Returns
          (λ m'. (get_read_cap m' ≡ pos 2) × Arrived m (b0 ∷ []) m')
          (receive_chunk a (b0 ∷ []) m)
  unfolding on_head get_read_cap
  lone_byte b0 m f room =
      receive_chunk-by a (b0 ∷ []) m f.block (omega (arith, f.position)) (omega (arith, f.position))
        λ m1 w.
          let unknown : m1.m_size ≡ negsuc 0 = w.same_size ∙ f.size in
          let waits : on_head a m1.m_size m1 ≡ ok m1 =
            ap (λ z. on_head a z m1) unknown
            ∙ ground (arith, w.position, f.position, w.same_head, f.head) in
          rw waits (returns (rw unknown refl, w))

  split :
      (b0 b1 b2 : ℕ) (m : NetMessage)
      → IsFresh m
      → 3 ≤ m.m_buffer.m_size
      → Returns
          (λ m'. Lost m' × (m'.m_cur_pos ≡ 3) × (m'.m_buffer.m_size ≡ m.m_buffer.m_size))
          (receive_chunk a (b0 ∷ []) m >>= receive_chunk a (b1 ∷ b2 ∷ []))
  split b0 b1 b2 m f room = Returns-bind (lone_byte b0 m f (omega arith)) λ m1 (_, w).
      receive_chunk-by a (b1 ∷ b2 ∷ []) m1 w.block
        (omega (arith, w.position, f.position, w.same_room)) (omega (arith, w.position, f.position))
        λ m2 v.
          let no_size : is_negative m2.m_size ≡ true =
            ap is_negative (v.same_size ∙ w.same_size ∙ f.size) in
          let passed : m2.m_head_size < m2.m_cur_pos =
            omega (arith, v.position, w.position, f.position, v.same_head, w.same_head, f.head) in
          rw (Lost-on_head a m2.m_size m2 no_size passed) (
            returns (
              record { no_size = no_size; passed = passed; block = v.block },
              omega (arith, v.position, w.position, f.position),
              v.same_room ∙ w.same_room,
            ))

  -- If `recv` delivers one byte of the two that a fresh message asks for, and then the two that the
  -- message still asks for, the message is lost: no bytes that come after, as far as the
  -- block has room for them, let it end.
  pub split_head-StillLost :
      (b0 b1 b2 : ℕ) (chunks : List (List ℕ)) (m : NetMessage)
      → IsFresh m
      → 3 + length (join chunks) ≤ m.m_buffer.m_size
      → m.m_buffer.m_size < 2 ^ 31
      → Returns (λ m'. (get_read_cap m' ≡ pos 2)) (receive_chunk a (b0 ∷ []) m)
        × Returns (λ m'. is_end m' ≡ false) (feed a ((b0 ∷ []) ∷ (b1 ∷ b2 ∷ []) ∷ chunks) m)
  unfolding feed
  split_head-StillLost b0 b1 b2 chunks m f room small = (
    Returns-mono (lone_byte b0 m f (omega arith)) (λ m1 (cap, _). cap),
    rw (reassociate (receive_chunk a (b0 ∷ []) m)) (
        Returns-bind (split b0 b1 b2 m f (omega arith)) λ m2 (l, at, same).
          Returns-mono (feed-StillLost chunks m2 l (omega (arith, at, same)) (omega (arith, same)))
            λ m3 s. s.not_ended),
  )
    where
      reassociate :
          (r : Result NetMessage)
          → (r >>= λ x. (receive_chunk a (b1 ∷ b2 ∷ []) x >>= feed a chunks))
            ≡ (r >>= receive_chunk a (b1 ∷ b2 ∷ []) >>= feed a chunks)
      reassociate (ok x) = refl
      reassociate fault = refl
      reassociate stuck = refl

  -- Once a lost message has filled its block, the two bytes that it still asks for are written
  -- behind the block's end.
  pub full_lost_overruns :
      (b0 b1 : ℕ) (m : NetMessage)
      → Lost m
      → m.m_size ≡ negsuc 0
      → m.m_buffer.m_size ≤ m.m_cur_pos
      → (get_read_cap m ≡ pos 2) × (receive_chunk a (b0 ∷ b1 ∷ []) m ≡ fault)
  unfolding get_read_cap receive_chunk
  full_lost_overruns b0 b1 m l unknown full = (
    rw unknown refl,
    rw
        (
          copy_to_current-whole (b0 ∷ b1 ∷ []) m,
          copy_in-fault (b0 ∷ b1 ∷ []) m.m_cur_pos m.m_buffer (omega (arith, l.block))
              (omega arith),
        )
        refl,
  )
