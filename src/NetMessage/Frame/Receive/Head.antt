-- ===== src/NetMessage/Frame/Receive/Head.antt =====
-- The head of a message that arrives as it was asked for.
use Prim.Native.Nat.{bit_or, ◌/◌}
use socketforioswinandroid.Common.{
  ℕ, ◌+◌, ◌*◌, ◌%◌, ◌^◌, ◌≤◌, ◌<◌, ◌≡◌, refl, ap, ◌∙◌, List, [], ◌++◌, length, take, get_elem?,
  get_elem?-take, some, arith, pos, negsuc, of_word, be_bytes, join_two, join_four, ok, ◌>>=◌,
  Returns, returns, Returns-bind, Returns-mono,
}
use socketforioswinandroid.MemBuffer.{Allocator, MemBuffer, load, IsAllocator, HasMemory, IsBlock}
use socketforioswinandroid.NetMessage.{NetMessage, check_buf_size}
use socketforioswinandroid.NetMessage.Write.Laws.{check_buf_size-Wrote}
use socketforioswinandroid.NetMessage.Frame.{on_short_head, on_long_head, on_head}
use socketforioswinandroid.NetMessage.Frame.Receive.{receive_chunk, IsFresh}
use socketforioswinandroid.NetMessage.Frame.Receive.Chunk.{Arrived, receive_chunk-by}
use socketforioswinandroid.NetMessage.Frame.Receive.Body.{Partial}

-- The bytes of the head, as `load` finds them.
pub load_front :
    (b : MemBuffer) (x : ℕ) (xs : List ℕ) (i : ℕ)
    → take (length xs) b.m_buf ≡ xs
    → get_elem? xs i ≡ some x
    → load b i ≡ ok x
unfolding load
load_front b x xs i e h = rw (get_elem?-take b.m_buf (length xs) i x (rw e h), load)

module _ (a : Allocator) (law : IsAllocator a) (memory : HasMemory a) where
  -- What a head leaves that gives the size `n`, before any byte of the body.
  sized :
      (hd : List ℕ) (n : ℕ) (m : NetMessage)
      → m.m_size ≡ pos n
      → m.m_head_size ≡ length hd
      → m.m_buf_start_pos ≡ 0
      → m.m_cur_pos ≡ length hd
      → 0 < length hd
      → IsBlock m.m_buffer
      → length hd ≤ m.m_buffer.m_size
      → take m.m_cur_pos m.m_buffer.m_buf ≡ hd
      → length hd + n ≤ 2 ^ 30
      → Returns (Partial hd n []) (check_buf_size a (pos n) m)
  sized hd n m es eh e0 ec some_head block room front bound =
      Returns-mono
        (check_buf_size-Wrote a law memory n m
          (record { block = block; inside = omega arith; some_room = omega arith }) (omega arith))
        λ m' w. record {
          size = w.same_size ∙ es;
          head = w.same_head ∙ eh;
          start = w.same_start ∙ e0;
          position = omega (arith, w.position);
          block = w.block;
          fits = omega (arith, w.room, w.position);
          front = w.front ∙ ap (λ t. t ++ []) front;
        }

on_head-short :
    (a : Allocator) (m : NetMessage)
    → m.m_size ≡ negsuc 0
    → m.m_cur_pos ≡ m.m_head_size
    → on_head a m.m_size m ≡ on_short_head a m
unfolding on_head
on_head-short a m e h = ap (λ z. on_head a z m) e ∙ ground arith

on_head-long :
    (a : Allocator) (m : NetMessage)
    → m.m_size ≡ negsuc 1
    → m.m_cur_pos ≡ m.m_head_size
    → on_head a m.m_size m ≡ on_long_head a m
unfolding on_head
on_head-long a m e h = ap (λ z. on_head a z m) e ∙ ground arith

-- The two byte head below 0xFFFF is the size.
on_short_head-size :
    (a : Allocator) (n : ℕ) (m : NetMessage)
    → n < 0xffff
    → load m.m_buffer 0 ≡ ok (n / 2 ^ 8 % 256)
    → load m.m_buffer 1 ≡ ok (n / 2 ^ 0 % 256)
    → on_short_head a m
      ≡ check_buf_size a
          (pos n)
          (record m { m_size = pos n; m_head_size = 2; m_cur_pos = 2; m_buf_start_pos = 0 })
unfolding on_short_head
on_short_head-size a n m small e0 e1 =
    let val : bit_or (n / 2 ^ 8 % 256 % 256 * 2 ^ 8) (n / 2 ^ 0 % 256 % 256) ≡ n =
      join_two _ _ (omega arith) ∙ omega arith in
    rw (e0, e1, val) (ground arith)

-- 0xFFFF announces a four byte size.
on_short_head-more :
    (a : Allocator) (m : NetMessage)
    → load m.m_buffer 0 ≡ ok 255
    → load m.m_buffer 1 ≡ ok 255
    → on_short_head a m ≡ ok (record m { m_cur_pos = 0; m_size = negsuc 1; m_head_size = 4 })
unfolding on_short_head
on_short_head-more a m e0 e1 = rw (e0, e1)

pub on_long_head-size :
    (a : Allocator) (n : ℕ) (m : NetMessage)
    → n < 2 ^ 32
    → load m.m_buffer 0 ≡ ok (n / 2 ^ 24 % 256)
    → load m.m_buffer 1 ≡ ok (n / 2 ^ 16 % 256)
    → load m.m_buffer 2 ≡ ok (n / 2 ^ 8 % 256)
    → load m.m_buffer 3 ≡ ok (n / 2 ^ 0 % 256)
    → on_long_head a m
      ≡ check_buf_size a
          (of_word 32 n)
          (record m { m_size = of_word 32 n; m_cur_pos = m.m_head_size; m_buf_start_pos = 0 })
unfolding on_long_head
on_long_head-size a n m small e0 e1 e2 e3 =
    let val : bit_or
          (bit_or (bit_or (n / 2 ^ 24 % 256 % 256 * 2 ^ 24) (n / 2 ^ 16 % 256 % 256 * 2 ^ 16))
            (n / 2 ^ 8 % 256 % 256 * 2 ^ 8))
          (n / 2 ^ 0 % 256 % 256)
        ≡ n =
      join_four _ _ _ _ (omega arith) (omega arith) (omega arith) ∙ omega arith in
    rw (e0, e1, e2, e3, val)

-- The state in which a four byte size is awaited.
pub record Announced (m : NetMessage) : Type 0 where
  pub size : m.m_size ≡ negsuc 1
  pub head : m.m_head_size ≡ 4
  pub start : m.m_buf_start_pos ≡ 0
  pub position : m.m_cur_pos ≡ 0
  pub block : IsBlock m.m_buffer
  pub room : 4 ≤ m.m_buffer.m_size

word_size : (n : ℕ) → n < 2 ^ 31 → of_word 32 n ≡ pos n
word_size n h = ground arith

module _ (a : Allocator) (law : IsAllocator a) (memory : HasMemory a) where
  -- A chunk that arrives at position 0 is what the block begins with.
  front_of_first :
      (chunk : List ℕ) (m m1 : NetMessage)
      → m.m_cur_pos ≡ 0
      → Arrived m chunk m1
      → take (length chunk) m1.m_buffer.m_buf ≡ chunk
  front_of_first chunk m m1 e w =
      let k : length chunk ≡ m1.m_cur_pos = omega (arith, w.position) in
      ap (λ t. take t m1.m_buffer.m_buf) k ∙ w.front ∙ ap (λ t. take t m.m_buffer.m_buf ++ chunk) e

  -- Two bytes that give a size below 0xFFFF.
  pub short_head-Partial :
      (n : ℕ) (m : NetMessage)
      → IsFresh m
      → 4 ≤ m.m_buffer.m_size
      → n < 0xffff
      → Returns (Partial (be_bytes 2 n) n []) (receive_chunk a (be_bytes 2 n) m)
  short_head-Partial n m f room small =
      receive_chunk-by a (be_bytes 2 n) m f.block (omega (arith, f.position))
        (omega (arith, f.position))
        λ m1 w.
          let front : take 2 m1.m_buffer.m_buf ≡ be_bytes 2 n =
            front_of_first (be_bytes 2 n) m m1 f.position w in
          rw
            (
              on_head-short a m1 (w.same_size ∙ f.size)
                  (omega (arith, w.position, f.position, w.same_head, f.head)),
              on_short_head-size a n m1 small (load_front m1.m_buffer _ (be_bytes 2 n) 0 front refl)
                  (load_front m1.m_buffer _ (be_bytes 2 n) 1 front refl),
            )
            (sized a law memory (be_bytes 2 n) n
              (record m1 { m_size = pos n; m_head_size = 2; m_cur_pos = 2; m_buf_start_pos = 0 })
              refl refl refl refl (omega arith) w.block (omega (arith, w.same_room)) front
              (omega arith))

  pub announced :
      (m : NetMessage)
      → IsFresh m
      → 4 ≤ m.m_buffer.m_size
      → Returns Announced (receive_chunk a (be_bytes 2 0xffff) m)
  announced m f room =
      receive_chunk-by a (be_bytes 2 0xffff) m f.block (omega (arith, f.position))
        (omega (arith, f.position))
        λ m1 w.
          let front : take 2 m1.m_buffer.m_buf ≡ be_bytes 2 0xffff =
            front_of_first (be_bytes 2 0xffff) m m1 f.position w in
          rw
            (
              on_head-short a m1 (w.same_size ∙ f.size)
                  (omega (arith, w.position, f.position, w.same_head, f.head)),
              on_short_head-more a m1 (load_front m1.m_buffer _ (be_bytes 2 0xffff) 0 front refl)
                  (load_front m1.m_buffer _ (be_bytes 2 0xffff) 1 front refl),
            )
            (returns (record {
              size = refl;
              head = refl;
              start = w.same_start ∙ f.start;
              position = refl;
              block = w.block;
              room = omega (arith, w.same_room);
            }))

  -- The four bytes after 0xFFFF give the size.
  pub long_size-Partial :
      (n : ℕ) (m : NetMessage)
      → Announced m
      → 4 + n ≤ 2 ^ 30
      → Returns (Partial (be_bytes 4 n) n []) (receive_chunk a (be_bytes 4 n) m)
  long_size-Partial n m z small =
      receive_chunk-by a (be_bytes 4 n) m z.block (omega (arith, z.position, z.room))
        (omega (arith, z.position))
        λ m1 w.
          let front : take 4 m1.m_buffer.m_buf ≡ be_bytes 4 n =
            front_of_first (be_bytes 4 n) m m1 z.position w in
          let four : m1.m_cur_pos ≡ m1.m_head_size =
            omega (arith, w.position, z.position, w.same_head, z.head) in
          let byte = λ (x i : ℕ) (h : get_elem? (be_bytes 4 n) i ≡ some x).
            load_front m1.m_buffer x (be_bytes 4 n) i front h in
          rw
            (
              on_head-long a m1 (w.same_size ∙ z.size) four,
              on_long_head-size a n m1 (omega arith) (byte _ 0 refl) (byte _ 1 refl) (byte _ 2 refl)
                  (byte _ 3 refl),
              word_size n (omega arith),
            )
            (sized a law memory (be_bytes 4 n) n
              (record m1 { m_size = pos n; m_cur_pos = m1.m_head_size; m_buf_start_pos = 0 }) refl
              (w.same_head ∙ z.head) refl (w.same_head ∙ z.head) (omega arith) w.block
              (omega (arith, w.same_room, z.room))
              (ap (λ t. take t m1.m_buffer.m_buf) (w.same_head ∙ z.head) ∙ front) small)

  pub long_head-Partial :
      (n : ℕ) (m : NetMessage)
      → IsFresh m
      → 4 ≤ m.m_buffer.m_size
      → 4 + n ≤ 2 ^ 30
      → Returns
          (Partial (be_bytes 4 n) n [])
          (receive_chunk a (be_bytes 2 0xffff) m >>= receive_chunk a (be_bytes 4 n))
  long_head-Partial n m f room small =
      Returns-bind (announced m f room) λ m1 z. long_size-Partial n m1 z small
