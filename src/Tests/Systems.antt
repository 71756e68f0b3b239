-- ===== src/Tests/Systems.antt =====
-- Connections over a peer that does not answer and over a host that refuses, and runs of the pool.
use socketforioswinandroid.Common.{
  length, ◌++◌, ◌<◌, ℤ, Bool, ℕ, ◌≡◌, refl, ◌⊎◌, true, false, none, List, [], ◌∷◌, arith, pos,
  Returns,
}
use socketforioswinandroid.MemBuffer.{MemBuffer}
use socketforioswinandroid.Connection.{Process, new_connection_manager, connect, close}
use socketforioswinandroid.Tests.Connections.{socket, opening}
use socketforioswinandroid.Network.{look, fd_setsize, refused, in_progress}
use socketforioswinandroid.Connection.Counting.{IsCounting, remove_descriptor}
use socketforioswinandroid.Connection.Leak.{connect-Leak}
use socketforioswinandroid.Common.{ap, if◌then◌else◌, ◌==◌, some}
use socketforioswinandroid.Tests.Heap.{heap}
use socketforioswinandroid.Tests.Exchanges.{both_ways, works}
use socketforioswinandroid.Tests.Streams.{out}
use socketforioswinandroid.Network.{Network, ready}
use socketforioswinandroid.Connection.{delete_connection, messages}
use socketforioswinandroid.Connection.Returned.{delete_connection-Returned}
use socketforioswinandroid.MessagePool.Bag.{of_list, add_all}
use socketforioswinandroid.MessagePool.Account.{
  Use, creates, deletes, held, use_all, AllMade, all_buffers,
}
use socketforioswinandroid.MessagePool.Conserved.{use_all-Conserved}
use socketforioswinandroid.Connection.Update.TimeOut.{
  IsSilent, sum, updates, Waits, GivenUp, updates-TimedOut,
}
use socketforioswinandroid.Tests.Histories.{pool, begins}

-- A peer that never answers: select() finds nothing. A mark is left when the descriptor is closed.
abbrev deaf : Network
deaf = record out {
  World = List ℕ;
  select = λ fd w. (ready false false false, w);
  close = λ fd w. 0 ∷ w;
}

abbrev alone : Process deaf
alone = record { world = []; pool = pool; next_address = 1 }

abbrev is_empty : List ℕ → Bool
is_empty [] = true
is_empty (x ∷ xs) = false

deaf-IsSilent : IsSilent deaf (pos 3) (λ w. is_empty w)
unfolding look
deaf-IsSilent = record {
  has_bytes = λ w. false;
  seen = λ w. refl;
  stays_open = λ w. refl;
  closes = λ w e. refl;
}

-- Three turns, and 4000 milliseconds on the timer.
updates-TimedOut_example :
    Returns
      (λ r.
        Waits deaf (pos 3) (λ w. is_empty w) 4000 (sum (1500 ∷ 1500 ∷ 1500 ∷ [])) r
        ⊎ GivenUp deaf (pos 3) (λ w. is_empty w) 4000 (sum (1500 ∷ 1500 ∷ 1500 ∷ [])) r)
      (updates deaf heap 1 1 (1500 ∷ 1500 ∷ 1500 ∷ []) alone opening)
updates-TimedOut_example =
    updates-TimedOut deaf heap 1 1 (pos 3) (λ w. is_empty w) (1500 ∷ 1500 ∷ 1500 ∷ []) 4000 alone
      opening socket deaf-IsSilent refl refl refl refl (omega arith) (omega arith)
      (omega arith, (omega arith, (omega arith, tt))) refl

-- A connection with a message to send.
delete_connection-Returned_example :
    of_list (delete_connection both_ways begins works).pool.m_pool
    ≡ add_all
        (held (messages works.m_recv_list))
        (add_all (held (messages works.m_send_list)) (of_list pool.m_pool))
delete_connection-Returned_example = delete_connection-Returned both_ways begins works refl

abbrev some_uses : List Use
some_uses = creates 512 ∷ creates 100 ∷ deletes 1 ∷ creates 600 ∷ []

use_all-Conserved_example :
    (made : List MemBuffer) × AllMade heap made
    × (all_buffers heap (use_all heap some_uses ([], pool))
        ≡ add_all made (all_buffers heap ([], pool)))
use_all-Conserved_example = use_all-Conserved heap some_uses [] pool refl

-- A host of three addresses: nobody listens at the address 1. The open descriptors are all of the
-- state. The descriptors 3, 4 and 5, in this order.
abbrev free : List ℤ → ℕ
free [] = 3
free (x ∷ []) = 4
free (x ∷ y ∷ w) = 5

free_small : (w : List ℤ) → free w < fd_setsize
free_small [] = omega arith
free_small (x ∷ []) = omega arith
free_small (x ∷ y ∷ w) = omega arith

abbrev three_addresses : Network
three_addresses = record {
  World = List ℤ;
  Address = ℕ;
  getaddrinfo = λ url port w. (some (1 ∷ 1 ∷ 2 ∷ []), w);
  socket = λ addr w. (pos (free w), pos (free w) ∷ w);
  setsockopt = λ fd option value w. (pos 0, w);
  set_nonblocking = λ fd w. w;
  connect = λ fd addr w. (if addr == 1 then refused else in_progress, w);
  select = λ fd w. (ready false true false, w);
  send = λ fd bytes w. (pos 0, w);
  recv = λ fd cap w. (none, w);
  close = λ fd w. remove_descriptor fd w;
  bind = λ fd addr w. (pos 0, w);
  listen = λ fd count w. (pos 0, w);
  accept = λ fd w. (pos 4, none, w);
  errno = λ w. pos 0;
}

three_addresses-IsCounting : IsCounting three_addresses (λ w. w) (λ addr. addr == 1)
three_addresses-IsCounting = record {
  makes = λ addr w. (free w, refl, free_small w);
  one_more = λ addr w. refl;
  one_less = λ fd w. refl;
  refused_there = λ fd addr w e. ap (λ b. if b then refused else in_progress) e;
  taken_there = λ fd addr w e. ap (λ b. if b then refused else in_progress) e;
  connect_keeps = λ fd addr w. refl;
  option_keeps = λ fd option value w. refl;
  nonblocking_keeps = λ fd w. refl;
  select_keeps = λ fd w. refl;
  lookup_keeps = λ url port w. refl;
}

abbrev nothing_open : Process three_addresses
nothing_open = record { world = []; pool = pool; next_address = 1 }

connect-Leak_example :
    Returns
      (λ r.
        (left : List ℤ) × ((close three_addresses r.1 r.2).0.world ≡ left ++ [])
        × (length left ≡ 2))
      (connect three_addresses (49 ∷ []) (pos 80) nothing_open new_connection_manager)
unfolding new_connection_manager
connect-Leak_example =
    connect-Leak three_addresses (λ w. w) (λ addr. addr == 1) three_addresses-IsCounting
      (1 ∷ 1 ∷ []) [] 2 (49 ∷ []) (pos 80) nothing_open new_connection_manager (omega arith) refl
      refl (refl, (refl, tt)) refl
