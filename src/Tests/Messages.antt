-- ===== src/Tests/Messages.antt =====
-- Messages that are written, framed, received and lost.
use socketforioswinandroid.Common.{
  ℕ, zero, suc, ◌^◌, Bool, IsInt, ◌<◌, ◌≡◌, refl, some, get_elem?, of_word, ok, ◌>>=◌, true, false,
  List, [], ◌∷◌, ◌++◌, arith, pos, negsuc, fault, Returns, replicate,
}
use socketforioswinandroid.NetMessage.{NetMessage, is_end, get_read_cap}
use socketforioswinandroid.NetMessage.Read.{
  r_uint8, r_int8, r_boolean, r_ushort, r_short, r_uint, r_int, r_int64, r_double,
}
use socketforioswinandroid.NetMessage.Read.Bounded.{Bounded, readers-Bounded}
use socketforioswinandroid.NetMessage.Read.Patterns.{r_int64-r_double}
use socketforioswinandroid.NetMessage.Write.Laws.{CanWrite, Wrote}
use socketforioswinandroid.NetMessage.Fields.{
  Field, short, int64, boolean, string, write_field, write_fields, read_fields, encode,
}
use socketforioswinandroid.NetMessage.Fields.RoundTrip.{write_field-Wrote, read_fields-write_fields}
use socketforioswinandroid.NetMessage.Frame.{begin_for_write, end_for_write}
use socketforioswinandroid.NetMessage.Frame.Send.{Framed, end_for_write-Framed}
use socketforioswinandroid.NetMessage.Frame.Receive.{receive_chunk, feed, IsFresh}
use socketforioswinandroid.NetMessage.Frame.Receive.Whole.{Received, feed-Received}
use socketforioswinandroid.NetMessage.Frame.Receive.Lost.{
  StillLost, feed-StillLost, split_head-StillLost, full_lost_overruns,
}
use socketforioswinandroid.Tests.Heap.{heap, heap-IsAllocator, heap-HasMemory, block}

abbrev fresh : NetMessage
fresh = record {
  m_size = negsuc 0;
  m_head_size = 2;
  m_buf_start_pos = 0;
  m_cur_pos = 0;
  m_buffer = block 8;
}

fresh-IsFresh : IsFresh fresh
fresh-IsFresh = record { size = refl; head = refl; start = refl; position = refl; block = refl }

abbrev begun : NetMessage
begun = record fresh { m_cur_pos = 6 }

begun-CanWrite : CanWrite begun
begun-CanWrite = record { block = refl; inside = omega arith; some_room = omega arith }

abbrev fields : List Field
fields = short (negsuc 1) ∷ string (104 ∷ 105 ∷ []) ∷ int64 (negsuc 299) ∷ boolean true ∷ []

read_fields-write_fields_example :
    Returns
      (λ m'.
        Returns
          (λ r. (r.0 ≡ fields) × (r.1 ≡ m'))
          (read_fields fields (record m' { m_cur_pos = 6 })))
      (write_fields heap fields begun)
read_fields-write_fields_example =
    read_fields-write_fields heap heap-IsAllocator heap-HasMemory fields begun begun-CanWrite
      (omega arith, (omega arith, (omega arith, (tt, tt)))) (omega arith) (omega arith)

write_field-Wrote_example :
    Returns
      (Wrote begun (encode (string (104 ∷ 105 ∷ []))) 0)
      (write_field heap (string (104 ∷ 105 ∷ [])) begun)
write_field-Wrote_example =
    write_field-Wrote heap heap-IsAllocator heap-HasMemory (string (104 ∷ 105 ∷ [])) begun
      begun-CanWrite (omega arith)

-- Three bytes of body behind the six of the head.
abbrev written : NetMessage
written = record fresh {
  m_cur_pos = 9;
  m_buffer = record { m_size = 16; m_buf = replicate 6 0 ++ (7 ∷ 8 ∷ 9 ∷ replicate 7 0) };
}

written-Wrote : Wrote (begin_for_write fresh) (7 ∷ 8 ∷ 9 ∷ []) 0 written
unfolding begin_for_write
written-Wrote = record {
  same_size = refl;
  same_head = refl;
  same_start = refl;
  position = refl;
  room = omega arith;
  block = refl;
  larger = omega arith;
  bounded = omega arith;
  front = refl;
  back = λ i l h. absurd (omega arith);
}

begin-CanWrite : CanWrite (begin_for_write fresh)
unfolding begin_for_write
begin-CanWrite = begun-CanWrite

end_for_write-Framed_example : Returns (Framed (7 ∷ 8 ∷ 9 ∷ [])) (end_for_write heap written)
end_for_write-Framed_example =
    end_for_write-Framed heap heap-IsAllocator heap-HasMemory fresh (7 ∷ 8 ∷ 9 ∷ []) 0 written
      begin-CanWrite (omega arith) written-Wrote

abbrev chunks : List (List ℕ)
chunks = (7 ∷ []) ∷ (8 ∷ 9 ∷ []) ∷ []

feed-Received_example :
    Returns (Received (7 ∷ 8 ∷ 9 ∷ [])) (feed heap ((0 ∷ 3 ∷ []) ∷ chunks) fresh)
feed-Received_example =
    feed-Received heap heap-IsAllocator heap-HasMemory chunks fresh fresh-IsFresh (omega arith)
      (omega arith)

split_head-StillLost_example :
    Returns (λ m'. (get_read_cap m' ≡ pos 2)) (receive_chunk heap (0 ∷ []) fresh)
    × Returns
        (λ m'. is_end m' ≡ false)
        (feed heap ((0 ∷ []) ∷ (3 ∷ 7 ∷ []) ∷ (8 ∷ 9 ∷ []) ∷ []) fresh)
split_head-StillLost_example =
    split_head-StillLost heap 0 3 7 ((8 ∷ 9 ∷ []) ∷ []) fresh fresh-IsFresh (omega arith)
      (omega arith)

abbrev lost : ℕ → NetMessage
lost at = record fresh { m_cur_pos = at }

feed-StillLost_example : Returns (StillLost (lost 3) 3) (feed heap chunks (lost 3))
feed-StillLost_example =
    feed-StillLost heap chunks (lost 3)
      (record { no_size = refl; passed = omega arith; block = refl }) (omega arith) (omega arith)

full_lost_overruns_example :
    (get_read_cap (lost 8) ≡ pos 2) × (receive_chunk heap (1 ∷ 2 ∷ []) (lost 8) ≡ fault)
full_lost_overruns_example =
    full_lost_overruns heap 1 2 (lost 8)
      (record { no_size = refl; passed = omega arith; block = refl }) refl (omega arith)

-- Nine bytes, of which the first has been read.
abbrev pattern_held : NetMessage
pattern_held = record {
  m_size = pos 7;
  m_head_size = 2;
  m_buf_start_pos = 0;
  m_cur_pos = 1;
  m_buffer = record { m_size = 9; m_buf = 1 ∷ 255 ∷ 255 ∷ replicate 6 7 };
}

abbrev AllBytes : List ℕ → Type 0
AllBytes [] = Unit {0}
AllBytes (x ∷ xs) = (x < 256) × AllBytes xs

get_elem?-AllBytes : (xs : List ℕ) → AllBytes xs → (i x : ℕ) → get_elem? xs i ≡ some x → x < 256
get_elem?-AllBytes [] h i x e = absurd (cc e)
get_elem?-AllBytes (y ∷ ys) h zero x e = let same : y ≡ x = cc e in rw (← same) h.0
get_elem?-AllBytes (y ∷ ys) h (suc i) x e = get_elem?-AllBytes ys h.1 i x e

r_int64-r_double_example :
    r_int64 pattern_held ≡ (r_double pattern_held >>= λ (v, m). ok (of_word 64 v, m))
r_int64-r_double_example = r_int64-r_double pattern_held (
    get_elem?-AllBytes pattern_held.m_buffer.m_buf (
      omega arith,
      (
        omega arith,
        (
          omega arith,
          (
            omega arith,
            (omega arith, (omega arith, (omega arith, (omega arith, (omega arith, tt))))),
          ),
        ),
      ),
    ))

-- With six bytes left in its block.
abbrev near_end : NetMessage
near_end = record fresh { m_cur_pos = 2 }

readers-Bounded_example :
    Bounded (λ v. v < 2 ^ 8) 1 near_end (r_uint8 near_end)
    × Bounded (IsInt 8) 1 near_end (r_int8 near_end)
    × Bounded (λ (v : Bool). Unit {0}) 1 near_end (r_boolean near_end)
    × Bounded (λ v. v < 2 ^ 16) 2 near_end (r_ushort near_end)
    × Bounded (IsInt 16) 2 near_end (r_short near_end)
    × Bounded (λ v. v < 2 ^ 32) 4 near_end (r_uint near_end)
    × Bounded (IsInt 32) 4 near_end (r_int near_end)
    × Bounded (IsInt 64) 8 near_end (r_int64 near_end)
readers-Bounded_example = readers-Bounded near_end
