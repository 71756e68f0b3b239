-- ===== src/MessagePool/Conserved.antt =====
-- No buffer gets lost in a whole run of the pool.
use mathlib.Core.List.{Perm}
use mathlib.Core.List.Perm
use socketforioswinandroid.Common.{
  ℕ, zero, suc, ◌≡◌, refl, sym, ap, ◌∙◌, inl, inr, true, Option, none, some, Option-cases, List, [],
  ◌∷◌,
}
use socketforioswinandroid.MemBuffer.{Allocator, MemBuffer}
use socketforioswinandroid.NetMessage.{NetMessage, new_net_message}
use socketforioswinandroid.MessagePool.{
  MessageBufPool, require, create_message, release, delete_message,
}
use socketforioswinandroid.MessagePool.Order.{insert-perm}
use socketforioswinandroid.MessagePool.Bag.{
  of_list, of_list_sound, add_all, add_all_comm, add_all-nil, add_all-Perm, add_all-cons,
}
use socketforioswinandroid.MessagePool.Account.{
  Use, creates, deletes, take_out, held, use_once, use_all, AllMade, all_buffers, Grown,
  Grown-trans, require-Handed,
}

abbrev TakenOut : List NetMessage → Option (NetMessage × List NetMessage) → Type 0
TakenOut ms none = Unit {0}
TakenOut ms (some (m, rest)) = Perm (m.m_buffer ∷ held rest) (held ms)

take_out-TakenOut : (i : ℕ) (ms : List NetMessage) → TakenOut ms (take_out i ms)
unfolding take_out
take_out-TakenOut i [] = tt
take_out-TakenOut zero (m ∷ ms) = Perm.refl _
take_out-TakenOut (suc i) (m ∷ ms) = past (take_out i ms) (take_out-TakenOut i ms)
  where
    past :
        (r : Option (NetMessage × List NetMessage))
        → TakenOut ms r
        → TakenOut (m ∷ ms) (elim r [ none ↦ none | some (n, ns) ↦ some (n, m ∷ ns) ])
    past none h = tt
    past (some (n, ns)) h =
        Perm.trans (Perm.swap m.m_buffer n.m_buffer (held ns)) (Perm.cons m.m_buffer h)

module _ (a : Allocator) where
  created-Grown :
      (size : ℕ) (ms : List NetMessage) (p : MessageBufPool)
      → Grown a (all_buffers a (ms, p)) (all_buffers a (use_once a (creates size) (ms, p)))
  unfolding use_once create_message new_net_message
  created-Grown size ms p =
      let (made, h, e) = require-Handed a size p.m_pool in
      let (b, rest) = require a size p.m_pool in
      (
        made,
        h,
        add_all-cons b (held ms) rest
            ∙ (ap (add_all (held ms)) e ∙ add_all_comm (held ms) made (of_list p.m_pool)),
      )

  deleted-Grown :
      (i : ℕ) (ms : List NetMessage) (p : MessageBufPool)
      → p.m_has_init ≡ true
      → Grown a (all_buffers a (ms, p)) (all_buffers a (use_once a (deletes i) (ms, p)))
  unfolding use_once delete_message release
  deleted-Grown i ms p live = gone (take_out i ms) (take_out-TakenOut i ms)
    where
      gone :
          (r : Option (NetMessage × List NetMessage))
          → TakenOut ms r
          → Grown a (all_buffers a (ms, p)) (
              all_buffers a
                (elim r [ none ↦ (ms, p) | some (m, rest) ↦ (rest, delete_message m p) ]))
      gone none h = ([], tt, sym (add_all-nil (all_buffers a (ms, p))))
      gone (some (m, rest)) h = rw live (
        [],
        tt,
        ap (add_all (held rest)) (of_list_sound (insert-perm m.m_buffer p.m_pool))
            ∙ (sym (add_all-cons m.m_buffer (held rest) p.m_pool)
                ∙ (add_all-Perm h (of_list p.m_pool) ∙ sym (add_all-nil (all_buffers a (ms, p))))),
      )

  use_once-m_has_init :
      (u : Use) (ms : List NetMessage) (p : MessageBufPool)
      → p.m_has_init ≡ true
      → (use_once a u (ms, p)).1.m_has_init ≡ true
  unfolding use_once create_message delete_message release
  use_once-m_has_init (creates size) ms p live = live
  use_once-m_has_init (deletes i) ms p live = elim (Option-cases (take_out i ms)) [
    | inl e ↦ rw (e, use_once) live
    | inr ((m, rest), e) ↦ rw (e, use_once, live) refl
  ]

  use_once-Grown :
      (u : Use) (ms : List NetMessage) (p : MessageBufPool)
      → p.m_has_init ≡ true
      → Grown a (all_buffers a (ms, p)) (all_buffers a (use_once a u (ms, p)))
  use_once-Grown (creates size) ms p live = created-Grown size ms p
  use_once-Grown (deletes i) ms p live = deleted-Grown i ms p live

  -- While the pool lives, whatever messages are made and deleted, and in whatever order: the
  -- buffers of the messages in use and the free ones are at the end, but for their order, the
  -- buffers that there were at the start and buffers that were made new. None is lost, and none is
  -- in two places that was in one.
  pub use_all-Conserved :
      (us : List Use) (ms : List NetMessage) (p : MessageBufPool)
      → p.m_has_init ≡ true
      → (made : List MemBuffer) × AllMade a made
        × (all_buffers a (use_all a us (ms, p)) ≡ add_all made (all_buffers a (ms, p)))
  unfolding use_all
  use_all-Conserved [] ms p live = ([], tt, sym (add_all-nil (all_buffers a (ms, p))))
  use_all-Conserved (u ∷ us) ms p live =
      let (ms', p') = use_once a u (ms, p) in
      Grown-trans a (all_buffers a (ms, p)) (all_buffers a (ms', p'))
        (all_buffers a (use_all a us (ms', p'))) (use_once-Grown u ms p live)
        (use_all-Conserved us ms' p' (use_once-m_has_init u ms p live))
