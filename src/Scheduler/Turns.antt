-- ===== src/Scheduler/Turns.antt =====
-- Every task of the run queue gets its turn.
use mathlib.Core.List.{append_assoc}
use bare_metal_os_kernel.Base.{
  ℕ, zero, suc, ◌<◌, ◌≡◌, ◌≢◌, sym, subst, ap, ◌∙◌, true, none, List, [], ◌∷◌, ◌++◌, length,
  length-append, has, has-snoc, Run, ok, fault, ◌>>=◌, arith,
}
use bare_metal_os_kernel.Scheduler.{exit, Scheduler, switched, in_shell, schedule}
use bare_metal_os_kernel.Scheduler.Rotation.{Queues, schedule_rotates}

-- `n` calls of `schedule`, each made by the task that the one before went on to.
unfoldable pub schedules : (fuel n : ℕ) → Scheduler → Run Scheduler
schedules fuel zero s = ok s
schedules fuel (suc n) s =
    schedule fuel s >>= λ r. elim r [ switched _ s' ↦ schedules fuel n s' | in_shell _ ↦ fault ]

abbrev pub Alive : Scheduler → List ℕ → Type 0
Alive s xs = (a : ℕ) → has a xs ≡ true → (s.tasks a).state ≢ exit

Alive-current :
    (s : Scheduler) (xs : List ℕ) → Alive s (s.current ∷ xs) → (s.tasks s.current).state ≢ exit
Alive-current s xs alive = alive s.current (ground arith)

-- The states are as before, and the same tasks take part.
Alive-after :
    (s s1 : Scheduler) (y : ℕ) (xs : List ℕ)
    → s1.current ≡ y
    → ((a : ℕ) → record (s1.tasks a) { next = none } ≡ record (s.tasks a) { next = none })
    → Alive s (s.current ∷ y ∷ xs)
    → Alive s1 (s1.current ∷ xs ++ s.current ∷ [])
Alive-after s s1 y xs e same alive a m dead =
    alive a (ground (arith, has-snoc a s.current xs, m)) (ap (λ t. t.state) (sym (same a)) ∙ dead)

longer :
    (y : ℕ) (ys : List ℕ) (n : ℕ) (us : List ℕ) (c : ℕ) {fuel : ℕ}
    → length (y ∷ ys ++ n ∷ us) < fuel
    → length (ys ++ n ∷ (us ++ c ∷ [])) < fuel
longer y ys n us c lt = omega (
  arith,
  lt,
  length-append ys (n ∷ us),
  length-append ys (n ∷ (us ++ c ∷ [])),
  length-append us (c ∷ []),
)

-- If neither the task that runs nor any of the run queue `ys ++ n ∷ us` has exited, one call of
-- `schedule` for each of `ys` and one more bring `n` to run, with all others behind it in order.
pub schedule_turn :
    (fuel : ℕ) (s : Scheduler) (ys : List ℕ) (n : ℕ) (us zs : List ℕ)
    → length (ys ++ n ∷ us) < fuel
    → Queues s (ys ++ n ∷ us) zs
    → Alive s (s.current ∷ ys ++ n ∷ us)
    → (s' : Scheduler) × (schedules fuel (suc (length ys)) s ≡ ok s')
      × (s'.current ≡ n)
      × Queues s' (us ++ s.current ∷ ys) zs
unfolding schedules
schedule_turn fuel s [] n us zs lt q alive =
    let (s1, run, now, q1, same) =
      schedule_rotates fuel s n us zs (omega arith) q (Alive-current s (n ∷ us) alive) in
    (s1, rw run, now, q1)
schedule_turn fuel s (y ∷ ys) n us zs lt q alive =
    let rest = ys ++ n ∷ us in
    let (s1, run, now, q1, same) =
      schedule_rotates fuel s y rest zs (omega arith) q (Alive-current s (y ∷ rest) alive) in
    let regroup : rest ++ s.current ∷ [] ≡ ys ++ n ∷ (us ++ s.current ∷ []) =
      append_assoc ys (n ∷ us) (s.current ∷ []) in
    let alive1 = Alive-after s s1 y rest now same alive in
    let (s2, runs, last_now, q2) =
      schedule_turn fuel s1 ys n (us ++ s.current ∷ []) zs (longer y ys n us s.current lt)
        (subst (λ l. Queues s1 l zs) regroup q1)
        (subst (λ l. Alive s1 (s1.current ∷ l)) regroup alive1) in
    (
      s2,
      rw run runs,
      last_now,
      subst (λ l. Queues s2 l zs)
          (ap (λ c. (us ++ s.current ∷ []) ++ c ∷ ys) now
            ∙ append_assoc us (s.current ∷ []) (y ∷ ys))
          q2,
    )
