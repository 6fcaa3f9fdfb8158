-- ===== src/Timer/Order.antt =====
-- The order of the queue of lib/timer.c after `add_timer`.
use bare_metal_os_kernel.Base.{ℕ, ◌+◌, ◌%◌, ◌^◌, ◌<◌, ◌≡◌, false, List, ◌∷◌, length, Returns, subst}
use bare_metal_os_kernel.Timer.{Timers, extend_sign, add_timer}
use bare_metal_os_kernel.Timer.Place.{
  Entry, place, HeadFirst, Sorted, AtMost, Inserted, place-Inserted, place-HeadFirst, place-Sorted,
  place_unsorted,
}
use bare_metal_os_kernel.Timer.Insert.{holds, Queued, DistinctNodes, Added, add_timer-Added}

-- The entry that `add_timer` makes of its arguments.
abbrev pub entry : (fresh time now : ℕ) → Entry
entry fresh time now = (fresh, (extend_sign time + now) % 2 ^ 64)

-- What `add_timer` can rely on: an unused node, room for the message, and a well-formed queue.
pub record IsReady (fuel fresh : ℕ) (msg : List ℕ) (s : Timers) (xs : List Entry) : Type 0 where
  pub short : length msg < 100
  pub enough : length xs < fuel
  pub unused : holds fresh xs ≡ false
  pub distinct : DistinctNodes xs
  pub queued : Queued s.node s.timer_queue xs

module _ (fuel fresh call_back : ℕ) (msg : List ℕ) (time now : ℕ) (s : Timers) (xs : List Entry)
    (ready : IsReady fuel fresh msg s xs) where
  added :
      Returns
        (Added s (entry fresh time now) time xs)
        (add_timer fuel fresh call_back msg time now s)
  added =
      add_timer-Added fuel fresh call_back msg time now s xs ready.short ready.enough ready.unused
        ready.distinct ready.queued

  -- If the queue starts with a timer that expires first, it does so after `add_timer`, which keeps
  -- the order of the timers that were there.
  pub add_timer-HeadFirst :
      HeadFirst xs
      → Returns
          (λ s'.
            (zs : List Entry) × Queued s'.node s'.timer_queue zs
            × HeadFirst zs
            × Inserted (entry fresh time now) xs zs)
          (add_timer fuel fresh call_back msg time now s)
  add_timer-HeadFirst first =
      let (s', run, a) = added in
      (
        s',
        run,
        (
          place (entry fresh time now) xs,
          a.queued,
          place-HeadFirst (entry fresh time now) xs first,
          place-Inserted (entry fresh time now) xs,
        ),
      )

  -- A timer that expires no earlier than all others keeps a sorted queue sorted.
  pub add_timer-Sorted :
      AtMost (entry fresh time now).1 xs
      → Sorted xs
      → Returns
          (λ s'. (zs : List Entry) × Queued s'.node s'.timer_queue zs × Sorted zs)
          (add_timer fuel fresh call_back msg time now s)
  add_timer-Sorted late sorted =
      let (s', run, a) = added in
      (
        s',
        run,
        (
          place (entry fresh time now) xs,
          a.queued,
          place-Sorted (entry fresh time now) xs late sorted,
        ),
      )

-- The loop compares with the timer before the gap. A timer that expires between the first and the
-- second is put directly behind the second, so the queue is not sorted any more.
pub add_timer_unsorted :
    (fuel fresh call_back : ℕ) (msg : List ℕ) (time now : ℕ) (s : Timers) (x y : Entry)
    (ys : List Entry)
    → IsReady fuel fresh msg s (x ∷ y ∷ ys)
    → x.1 < (entry fresh time now).1
    → (entry fresh time now).1 < y.1
    → Returns
        (λ s'. Queued s'.node s'.timer_queue (x ∷ y ∷ entry fresh time now ∷ ys))
        (add_timer fuel fresh call_back msg time now s)
      × ¬ Sorted (x ∷ y ∷ entry fresh time now ∷ ys)
add_timer_unsorted fuel fresh call_back msg time now s x y ys ready later sooner =
    let (s', run, a) = added fuel fresh call_back msg time now s (x ∷ y ∷ ys) ready in
    let (at, unsorted) = place_unsorted (entry fresh time now) x y ys later sooner in
    (
      (s', run, subst (Queued s'.node s'.timer_queue) at a.queued),
      subst (λ zs. ¬ Sorted zs) at unsorted,
    )
