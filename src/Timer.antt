-- ===== src/Timer.antt =====
-- lib/timer.c: the queue of timers. A timer is a node of a heap, a pointer to it is its address and
-- NULL is `none`. `fresh` is what `malloc_` returns and `now` what `get_timer_tick` reads.
pub mod Place
pub mod Order
pub mod Pop
mod Tests
pub mod Insert
use bare_metal_os_kernel.Base.{
  ◌∷◌, ℕ, zero, suc, ◌+◌, ◌-◌, ◌%◌, ◌^◌, Bool, true, false, Option, none, some, List, length, Run,
  ok, fault, out_of_fuel, ◌>>=◌, ltb, ◌==◌, if◌then◌else◌, update,
}

-- `timer_list`; a callback is a number, and a message its characters.
pub record Timer : Type 0 where
  pub expired_time : ℕ
  pub call_back : ℕ
  pub msg : List ℕ
  pub next : Option ℕ

-- The queue, the nodes, the value last written to cntp_tval_el0 and whether the timer interrupt is
-- enabled.
pub record Timers : Type 0 where
  pub timer_queue : Option ℕ
  pub node : ℕ → Timer
  pub expires_in : ℕ
  pub interrupt : Bool
  pub freed : List ℕ

-- An `int` as an `unsigned long long`.
abbrev pub extend_sign : ℕ → ℕ
extend_sign time = if ltb time (2 ^ 31) then time else time + 2 ^ 64 - 2 ^ 32

abbrev pub core_timer_interrupt_enable : Timers → Timers
core_timer_interrupt_enable s = record s { interrupt = true }

abbrev pub core_timer_interrupt_disable : Timers → Timers
core_timer_interrupt_disable s = record s { interrupt = false }

abbrev pub set_core_timer_interrupt : ℕ → Timers → Timers
set_core_timer_interrupt v s = record s { expires_in = v }

abbrev pub set_node : ℕ → Timer → Timers → Timers
set_node p v s = record s { node = update s.node p v }

-- `while (next && pre->expired_time < timer->expired_time)`.
unfoldable pub insert_loop :
    ℕ → (node : ℕ → Timer) → (time pre : ℕ) → (next : Option ℕ) → Run (ℕ × Option ℕ)
insert_loop zero node time pre next = out_of_fuel
insert_loop (suc fuel) node time pre none = ok (pre, none)
insert_loop (suc fuel) node time pre (some n) = elim (ltb (node pre).expired_time time) [
  | true ↦ insert_loop fuel node time n (node n).next
  | false ↦ ok (pre, some n)
]

unfoldable pub make_head : (fresh time : ℕ) → (next : Option ℕ) → Timers → Timers
make_head fresh time next s = core_timer_interrupt_enable (
    set_core_timer_interrupt (extend_sign time) (record s {
      timer_queue = some fresh;
      node = update s.node fresh (record (s.node fresh) { next = next });
    }))

unfoldable pub new_timer : (call_back : ℕ) → List ℕ → (time now : ℕ) → Timer
new_timer call_back msg time now = record {
  expired_time = (extend_sign time + now) % 2 ^ 64;
  call_back = call_back;
  msg = msg;
  next = none;
}

-- The three cases of `add_timer`; the timer has its expiry, and `head` is `timer_queue`.
unfoldable pub add_node : (fuel fresh time : ℕ) → (head : Option ℕ) → Timers → Run Timers
add_node fuel fresh time none s = ok (make_head fresh time none s)
add_node fuel fresh time (some head) s =
    if ltb (s.node fresh).expired_time (s.node head).expired_time
    then ok (make_head fresh time (some head) s)
    else do
      (pre, next) ← insert_loop fuel s.node (s.node fresh).expired_time head (s.node head).next
      let s' = set_node pre (record (s.node pre) { next = some fresh }) s
      ok (set_node fresh (record (s'.node fresh) { next = next }) s')

-- The room for a message is 100 characters, its end included.
unfoldable pub add_timer :
    (fuel fresh call_back : ℕ) → List ℕ → (time now : ℕ) → Timers → Run Timers
add_timer fuel fresh call_back msg time now s =
    let s' = set_node fresh (new_timer call_back msg time now) s in
    if ltb (length msg) 100 then add_node fuel fresh time s.timer_queue s' else fault

-- The interrupt for the first timer that is left.
unfoldable pub rearm : (head : Option ℕ) → (now : ℕ) → Timers → Timers
rearm none now s = core_timer_interrupt_disable s
rearm (some head) now s =
    core_timer_interrupt_enable
      (set_core_timer_interrupt (((s.node head).expired_time + 2 ^ 64 - now) % 2 ^ 64) s)

-- `call` runs a callback, `now` is the tick that is read after it. The node is then given to `free`.
unfoldable pub pop_timer :
    ((call_back : ℕ) → List ℕ → Timers → Run Timers) → (now : ℕ) → Timers → Run Timers
pop_timer call now s = elim s.timer_queue [
  | none ↦ fault
  | some timer ↦ do
    s1 ←
        call (s.node timer).call_back (s.node timer).msg
          (record s { timer_queue = (s.node timer).next })
    let s2 = rearm s1.timer_queue now s1
    ok (record s2 { freed = timer ∷ s2.freed })
]
