-- ===== src/Scheduler/Kill.antt =====
-- `kill_thread` and `remove_task` of lib/scheduler.c.
use bare_metal_os_kernel.Base.{
  ℕ, zero, suc, ◌<◌, ◌≡◌, eq→==, Chain-remove, has-skip, has-snoc, Distinct-skip, refl, sym, subst,
  ap, ◌∙◌, true, false, Option, none, some, List, [], ◌∷◌, ◌++◌, length, has, Distinct, has-ne,
  last, has-last, Chain-frame, update, Run, ok, fault, ◌==◌, arith, Returns,
}
use bare_metal_os_kernel.Scheduler.{Task, Scheduler, set_next, enqueue_zombie}
use bare_metal_os_kernel.Scheduler.Queue.{Tasks, enqueue-Enqueued}
use bare_metal_os_kernel.Scheduler.Control.{
  unlink, kill_loop, kill_thread, remove_loop, remove_task,
}

-- The tasks with another pid than `pid`.
abbrev pub Others : (pid : ℕ) → (ℕ → Task) → List ℕ → Type 0
Others pid tasks [] = Unit {0}
Others pid tasks (x ∷ xs) = (((tasks x).pid == pid) ≡ false) × Others pid tasks xs

-- The loop passes the tasks of another pid, and stops at the first one of this pid.
abbrev before : Option ℕ → List ℕ → Option ℕ
before pre [] = pre
before pre (y ∷ ys) = before (some y) ys

kill_loop-found :
    (fuel rounds pid : ℕ) (pre cur : Option ℕ) (s : Scheduler) (ys : List ℕ) (t : ℕ) (us : List ℕ)
    → length ys < rounds
    → Tasks s.tasks cur (ys ++ t ∷ us)
    → Others pid s.tasks ys
    → (s.tasks t).pid ≡ pid
    → kill_loop fuel rounds pid pre cur s ≡ enqueue_zombie fuel t (unlink (before pre ys) t s)
unfolding kill_loop
kill_loop-found fuel zero pid pre cur s ys t us lt c o e = absurd (omega arith)
kill_loop-found fuel (suc rounds) pid pre cur s [] t us lt c o e =
    rw (c.0, kill_loop, eq→== (s.tasks t).pid pid e)
kill_loop-found fuel (suc rounds) pid pre cur s (y ∷ ys) t us lt c o e =
    rw (c.0, kill_loop, o.0)
      (kill_loop-found fuel rounds pid (some y) (s.tasks y).next s ys t us (omega arith) c.1 o.1 e)

before-last : (pre : Option ℕ) (y : ℕ) (ys : List ℕ) → before pre (y ∷ ys) ≡ some (last y ys)
before-last pre y [] = refl
before-last pre y (w ∷ ws) = before-last (some y) w ws

-- `unlink` takes the task out of the run queue, and changes no field of a task but the links.
record Unlinked (s : Scheduler) (xs : List ℕ) (s' : Scheduler) : Type 0 where
  queue : Tasks s'.tasks s'.run_queue xs
  fields : (a : ℕ) → record (s'.tasks a) { next = none } ≡ record (s.tasks a) { next = none }
  zombies_head : s'.zombies_queue ≡ s.zombies_queue
  outside : (a : ℕ) → has a xs ≡ false → s'.tasks a ≡ s.tasks a

set_next-update :
    (a : ℕ) (n : Option ℕ) (tasks : ℕ → Task) (b : ℕ)
    → (set_next a n tasks b).next ≡ update (λ c. (tasks c).next) a n b
set_next-update a n tasks b = ground arith

unlink-Unlinked :
    (s : Scheduler) (ys : List ℕ) (t : ℕ) (us : List ℕ)
    → Distinct (ys ++ t ∷ us)
    → Tasks s.tasks s.run_queue (ys ++ t ∷ us)
    → Unlinked s (ys ++ us) (unlink (before none ys) t s)
unfolding unlink
unlink-Unlinked s [] t us d c = record {
  queue = c.1;
  fields = λ a. refl;
  zombies_head = refl;
  outside = λ a m. refl;
}
unlink-Unlinked s (y ∷ ys) t us d c =
    subst (λ pre. Unlinked s (y ∷ ys ++ us) (unlink pre t s)) (sym (before-last none y ys))
      (record {
        queue =
            Chain-frame _ _ s.run_queue (y ∷ ys ++ us)
              (λ a m. set_next-update (last y ys) (s.tasks t).next s.tasks a)
              (Chain-remove (λ a. (s.tasks a).next) s.run_queue y ys t us c d);
        fields = λ a. ground arith;
        zombies_head = refl;
        outside = λ a m. ground (arith, has-ne a (last y ys) (y ∷ ys ++ us) m (has-last y ys us));
      })

-- What `kill_thread` leaves when it finds task `t`.
pub record Killed (s : Scheduler) (xs zs : List ℕ) (s' : Scheduler) : Type 0 where
  pub ready : Tasks s'.tasks s'.run_queue xs
  pub zombies : Tasks s'.tasks s'.zombies_queue zs
  pub fields : (a : ℕ) → record (s'.tasks a) { next = none } ≡ record (s.tasks a) { next = none }

enqueue_zombie-Killed :
    (fuel : ℕ) (s s1 : Scheduler) (ys : List ℕ) (t : ℕ) (us zs : List ℕ)
    → length zs < fuel
    → Distinct (ys ++ t ∷ us)
    → Distinct zs
    → ((a : ℕ) → has a zs ≡ true → has a (ys ++ t ∷ us) ≡ false)
    → has t zs ≡ false
    → Tasks s.tasks s.zombies_queue zs
    → Unlinked s (ys ++ us) s1
    → Returns (Killed s (ys ++ us) (zs ++ t ∷ [])) (enqueue_zombie fuel t s1)
unfolding enqueue_zombie
enqueue_zombie-Killed fuel s s1 ys t us zs lt d dz apart out z u =
    let kept : Tasks s1.tasks s1.zombies_queue zs = rw u.zombies_head (
      Chain-frame _ _ s.zombies_queue zs
        (λ a m. ap (λ q. q.next) (u.outside a (ground (arith, has-skip a t ys us, apart a m))))
        z) in
    let (r, run, e) = enqueue-Enqueued fuel s1.zombies_queue t s1.tasks zs lt dz out kept in
    (
      record s1 { zombies_queue = r.0; tasks = r.1 },
      rw run,
      record {
        ready =
            Chain-frame _ _ s1.run_queue (ys ++ us)
              (λ a m.
                ap (λ q. q.next)
                  (e.others a (
                    ground (
                      arith,
                      has-snoc a t zs,
                      has-skip a t ys us,
                      apart a,
                      has-ne t a (ys ++ us) (Distinct-skip t ys us d) m,
                    ))))
              u.queue;
        zombies = e.queue;
        fields = λ a. e.fields a ∙ u.fields a;
      },
    )

-- Where `t` is the first task of the run queue with this pid, `kill_thread` takes it out of the run
-- queue, puts it behind the zombies, and changes no field of a task but the links.
pub kill_thread-Killed :
    (fuel pid : ℕ) (s : Scheduler) (ys : List ℕ) (t : ℕ) (us zs : List ℕ)
    → length ys < fuel
    → length zs < fuel
    → Tasks s.tasks s.run_queue (ys ++ t ∷ us)
    → Tasks s.tasks s.zombies_queue zs
    → Distinct (ys ++ t ∷ us)
    → Distinct zs
    → ((a : ℕ) → has a zs ≡ true → has a (ys ++ t ∷ us) ≡ false)
    → Others pid s.tasks ys
    → (s.tasks t).pid ≡ pid
    → Returns (Killed s (ys ++ us) (zs ++ t ∷ [])) (kill_thread fuel pid s)
unfolding kill_thread
kill_thread-Killed fuel pid s ys t us zs lt lz c z d dz apart o e =
    rw (kill_loop-found fuel fuel pid none s.run_queue s ys t us lt c o e) (
      enqueue_zombie-Killed fuel s _ ys t us zs lz d dz apart
        (ground (arith, has-skip t t ys us, apart t)) z (unlink-Unlinked s ys t us d c))

-- What `remove_task` leaves when it takes task `t` out: the task stands alone in `temp_queue`.
pub record Removed (s : Scheduler) (xs : List ℕ) (t : ℕ) (s' : Scheduler) : Type 0 where
  pub ready : Tasks s'.tasks s'.run_queue xs
  pub taken : s'.temp_queue ≡ some t
  pub alone : (s'.tasks t).next ≡ none
  pub zombies : s'.zombies_queue ≡ s.zombies_queue
  pub fields : (a : ℕ) → record (s'.tasks a) { next = none } ≡ record (s.tasks a) { next = none }

-- The outcome by the tasks before the task.
abbrev pub Removal : Scheduler → (ys : List ℕ) → (t : ℕ) → (us : List ℕ) → Run Scheduler → Type 0
Removal s [] t us r = r ≡ fault
Removal s (y ∷ ys) t us r = Returns (Removed s (y ∷ ys ++ us) t) r

abbrev taken_out : (pre : Option ℕ) → (t : ℕ) → Scheduler → Run Scheduler
taken_out none t s = fault
taken_out (some p) t s = ok (record s {
  temp_queue = some t;
  tasks = set_next t none (set_next p (s.tasks t).next s.tasks);
})

remove_loop-found :
    (rounds pid : ℕ) (pre cur : Option ℕ) (s : Scheduler) (ys : List ℕ) (t : ℕ) (us : List ℕ)
    → length ys < rounds
    → Tasks s.tasks cur (ys ++ t ∷ us)
    → Others pid s.tasks ys
    → (s.tasks t).pid ≡ pid
    → remove_loop rounds pid pre cur s ≡ taken_out (before pre ys) t s
unfolding remove_loop
remove_loop-found zero pid pre cur s ys t us lt c o e = absurd (omega arith)
remove_loop-found (suc rounds) pid none cur s [] t us lt c o e =
    rw (c.0, remove_loop, eq→== pid (s.tasks t).pid (sym e)) refl
remove_loop-found (suc rounds) pid (some p) cur s [] t us lt c o e =
    rw (c.0, remove_loop, eq→== pid (s.tasks t).pid (sym e)) refl
remove_loop-found (suc rounds) pid pre cur s (y ∷ ys) t us lt c o e =
    let other : (pid == (s.tasks y).pid) ≡ false = ground (arith, o.0) in
    rw (c.0, remove_loop, other)
      (remove_loop-found rounds pid (some y) (s.tasks y).next s ys t us (omega arith) c.1 o.1 e)

taken_out-Removed :
    (s : Scheduler) (y : ℕ) (ys : List ℕ) (t : ℕ) (us : List ℕ)
    → Distinct (y ∷ ys ++ t ∷ us)
    → Tasks s.tasks s.run_queue (y ∷ ys ++ t ∷ us)
    → Returns (Removed s (y ∷ ys ++ us) t) (taken_out (some (last y ys)) t s)
unfolding unlink
taken_out-Removed s y ys t us d c =
    let u =
      subst (λ pre. Unlinked s (y ∷ ys ++ us) (unlink pre t s)) (before-last none y ys)
        (unlink-Unlinked s (y ∷ ys) t us d c) in
    let tasks1 = set_next (last y ys) (s.tasks t).next s.tasks in
    (
      record s { temp_queue = some t; tasks = set_next t none tasks1 },
      refl,
      record {
        ready =
            Chain-frame _ _ s.run_queue (y ∷ ys ++ us)
              (λ a m.
                set_next-update t none tasks1 a
                ∙ rw (has-ne t a (y ∷ ys ++ us) (Distinct-skip t (y ∷ ys) us d) m) refl)
              u.queue;
        taken = refl;
        alone = rw (eq→== t t refl) refl;
        zombies = refl;
        fields = λ a. ground (arith, u.fields a);
      },
    )

-- Where `t` is the first task of the run queue with this pid, and the queue is well-formed,
-- `remove_task` writes through NULL if `t` heads the queue. Else it takes `t` out of the queue,
-- makes `temp_queue` this task alone, and changes no field of a task but the links.
pub remove_task-Removal :
    (fuel pid : ℕ) (s : Scheduler) (ys : List ℕ) (t : ℕ) (us : List ℕ)
    → length ys < fuel
    → Tasks s.tasks s.run_queue (ys ++ t ∷ us)
    → Distinct (ys ++ t ∷ us)
    → Others pid s.tasks ys
    → (s.tasks t).pid ≡ pid
    → Removal s ys t us (remove_task fuel pid s)
unfolding remove_task
remove_task-Removal fuel pid s [] t us lt c d o e =
    remove_loop-found fuel pid none s.run_queue s [] t us lt c o e
remove_task-Removal fuel pid s (y ∷ ys) t us lt c d o e =
    subst (Returns (Removed s (y ∷ ys ++ us) t))
      (sym (
        remove_loop-found fuel pid none s.run_queue s (y ∷ ys) t us lt c o e
        ∙ ap (λ pre. taken_out pre t s) (before-last none y ys)))
      (taken_out-Removed s y ys t us d c)
