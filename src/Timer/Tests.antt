-- ===== src/Timer/Tests.antt =====
-- Runs of the timer queue of lib/timer.c, and its theorems at small queues.
use bare_metal_os_kernel.Base.{
  ℕ, ◌≡◌, refl, true, Option, none, some, List, [], ◌∷◌, ok, ◌==◌, if◌then◌else◌, arith, Returns,
}
use bare_metal_os_kernel.Timer.{Timer, Timers, add_timer, pop_timer}
use bare_metal_os_kernel.Timer.Place.{Entry, place_after, place, HeadFirst, Sorted, Inserted}
use bare_metal_os_kernel.Timer.Insert.{Queued, Added, add_timer-Added}
use bare_metal_os_kernel.Timer.Order.{entry, IsReady, add_timer-HeadFirst, add_timer_unsorted}
use bare_metal_os_kernel.Timer.Pop.{Armed, popped, pop_timer-Armed}

abbrev timer_at : ℕ → Option ℕ → Timer
timer_at t next = record { expired_time = t; call_back = 1; msg = b'm' ∷ []; next = next }

-- Timers at 10 and 50, in nodes 1 and 2.
abbrev two_timers : Timers
two_timers = record {
  timer_queue = some 1;
  node = λ a. if a == 1 then timer_at 10 (some 2) else timer_at 50 none;
  expires_in = 10;
  interrupt = true;
  freed = [];
}

abbrev entries : List Entry
entries = (1, 10) ∷ (2, 50) ∷ []

two-IsReady : IsReady 9 3 (b'x' ∷ []) two_timers entries
two-IsReady = record {
  short = omega arith;
  enough = omega arith;
  unused = refl;
  distinct = (refl, (refl, tt));
  queued = (refl, refl, (refl, refl, refl));
}

-- A timer at 20 + 5 is put behind the one at 50.
place_behind : place (3, 25) entries ≡ (1, 10) ∷ (2, 50) ∷ (3, 25) ∷ []
unfolding place place_after
place_behind = refl

add_timer-Added_example :
    Returns
      (Added two_timers (entry 3 20 5) 20 entries)
      (add_timer 9 3 7 (b'x' ∷ []) 20 5 two_timers)
add_timer-Added_example =
    add_timer-Added 9 3 7 (b'x' ∷ []) 20 5 two_timers entries (omega arith) (omega arith) refl
      (refl, (refl, tt)) (refl, refl, (refl, refl, refl))

add_timer-HeadFirst_example :
    Returns
      (λ s'.
        (zs : List Entry) × Queued s'.node s'.timer_queue zs
        × HeadFirst zs
        × Inserted (entry 3 20 5) entries zs)
      (add_timer 9 3 7 (b'x' ∷ []) 20 5 two_timers)
add_timer-HeadFirst_example =
    add_timer-HeadFirst 9 3 7 (b'x' ∷ []) 20 5 two_timers entries two-IsReady (omega arith)

add_timer_unsorted_example :
    Returns
      (λ s'. Queued s'.node s'.timer_queue ((1, 10) ∷ (2, 50) ∷ entry 3 20 5 ∷ []))
      (add_timer 9 3 7 (b'x' ∷ []) 20 5 two_timers)
    × ¬ Sorted ((1, 10) ∷ (2, 50) ∷ entry 3 20 5 ∷ [])
add_timer_unsorted_example =
    add_timer_unsorted 9 3 7 (b'x' ∷ []) 20 5 two_timers (1, 10) (2, 50) [] two-IsReady
      (omega arith) (omega arith)

pop_timer-Armed_example :
    Queued (popped two_timers (1, 10)).node (popped two_timers (1, 10)).timer_queue ((2, 50) ∷ [])
    × Returns
        (λ s'.
          Queued s'.node s'.timer_queue ((2, 50) ∷ [])
          × Armed 12 ((2, 50) ∷ []) s'
          × (s'.freed ≡ 1 ∷ []))
        (pop_timer (λ _ _ s. ok s) 12 two_timers)
pop_timer-Armed_example =
    pop_timer-Armed (λ _ _ s. ok s) 12 two_timers (popped two_timers (1, 10)) (1, 10) ((2, 50) ∷ [])
      ((2, 50) ∷ []) (refl, refl, (refl, refl, refl)) refl (refl, refl, refl)
