-- ===== src/Timer/Pop.antt =====
-- `pop_timer` of lib/timer.c on a well-formed queue.
use bare_metal_os_kernel.Base.{
  ℕ, ◌+◌, ◌-◌, ◌%◌, ◌^◌, ◌≡◌, refl, sym, subst, ap, true, false, Option, none, some, List, [], ◌∷◌,
  Run, ok, Returns,
}
use bare_metal_os_kernel.Timer.{Timers, rearm, pop_timer}
use bare_metal_os_kernel.Timer.Place.{Entry}
use bare_metal_os_kernel.Timer.Insert.{Queued}

-- The interrupt is on for the first timer, counted from `now`, and off without one.
abbrev pub Armed : (now : ℕ) → List Entry → Timers → Type 0
Armed now [] s = s.interrupt ≡ false
Armed now (x ∷ xs) s = (s.interrupt ≡ true) × (s.expires_in ≡ (x.1 + 2 ^ 64 - now) % 2 ^ 64)

-- The state in which the callback of the first timer runs.
abbrev pub popped : Timers → Entry → Timers
popped s x = record s { timer_queue = (s.node x.0).next }

rearm-Armed :
    (now : ℕ) (s : Timers) (ys : List Entry)
    → Queued s.node s.timer_queue ys
    → Queued (rearm s.timer_queue now s).node (rearm s.timer_queue now s).timer_queue ys
      × Armed now ys (rearm s.timer_queue now s)
unfolding rearm
rearm-Armed now s [] q =
    subst
      (λ h.
        Queued (rearm h now s).node (rearm h now s).timer_queue [] × Armed now [] (rearm h now s))
      (sym q) (q, refl)
rearm-Armed now s (y ∷ ys) q =
    subst
      (λ h.
        Queued (rearm h now s).node (rearm h now s).timer_queue (y ∷ ys)
        × Armed now (y ∷ ys) (rearm h now s))
      (sym q.0) (q, (refl, ap (λ t. (t + 2 ^ 64 - now) % 2 ^ 64) q.1))

rearm-freed : (now : ℕ) (s : Timers) (h : Option ℕ) → (rearm h now s).freed ≡ s.freed
unfolding rearm
rearm-freed now s none = refl
rearm-freed now s (some n) = refl

Armed-freed :
    (now : ℕ) (ys : List Entry) (s : Timers) (l : List ℕ)
    → Armed now ys s
    → Armed now ys (record s { freed = l })
Armed-freed now [] s l a = a
Armed-freed now (y ∷ ys) s l a = a

-- On a well-formed queue `pop_timer` takes the first timer off, and its callback sees the queue of
-- the others. With the queue `ys` that the callback leaves, the interrupt is armed for the first
-- timer of `ys`, counted from the tick that is read then, and disabled if there is none. The node of
-- the first timer is given to `free` in the end.
pub pop_timer-Armed :
    (call : (call_back : ℕ) → List ℕ → Timers → Run Timers) (now : ℕ) (s s1 : Timers) (x : Entry)
    (xs ys : List Entry)
    → Queued s.node s.timer_queue (x ∷ xs)
    → call (s.node x.0).call_back (s.node x.0).msg (popped s x) ≡ ok s1
    → Queued s1.node s1.timer_queue ys
    → Queued (popped s x).node (popped s x).timer_queue xs
      × Returns
          (λ s'. Queued s'.node s'.timer_queue ys × Armed now ys s' × (s'.freed ≡ x.0 ∷ s1.freed))
          (pop_timer call now s)
unfolding pop_timer
pop_timer-Armed call now s s1 x xs ys q run after =
    let s2 = rearm s1.timer_queue now s1 in
    let (queue, armed) = rearm-Armed now s1 ys after in
    (
      q.2,
      (
        record s2 { freed = x.0 ∷ s2.freed },
        rw (q.0, pop_timer, run) refl,
        (
          queue,
          Armed-freed now ys s2 (x.0 ∷ s2.freed) armed,
          ap (λ l. x.0 ∷ l) (rearm-freed now s1 s1.timer_queue),
        ),
      ),
    )
