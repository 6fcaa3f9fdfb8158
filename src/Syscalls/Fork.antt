-- ===== src/Syscalls/Fork.antt =====
-- What `sysc_fork` of lib/exception.c returns to the parent and leaves for the child.
use bare_metal_os_kernel.Base.{
  ℕ, ◌+◌, ◌-◌, ◌^◌, ◌≤◌, ◌<◌, ◌≡◌, ◌≢◌, refl, sym, subst, ap, ◌∙◌, false, none, List, length,
  Returns, ne→==, update, update_self, arith, has, Distinct, ◌⊎◌,
}
use bare_metal_os_kernel.Files.{to_int}
use bare_metal_os_kernel.Base.{ℤ}
use bare_metal_os_kernel.Scheduler.{Task, Scheduler, user, thread_sp_size}
use bare_metal_os_kernel.Scheduler.Control.{Resources, new_task}
use bare_metal_os_kernel.Scheduler.Queue.{Tasks}
use bare_metal_os_kernel.Syscalls.Created.{Same, Created, task_create-Created}
use bare_metal_os_kernel.Syscalls.{System, Given, get_current, get_register, sp_el0}
use bare_metal_os_kernel.Syscalls.Tasks.{sysc_fork, child_task, child_frame, copy_stacks, moved}
use bare_metal_os_kernel.Syscalls.Memory.{copy_stacks-kept, copy_stacks-first, copy_stacks-second}
use bare_metal_os_kernel.Syscalls.Frame.{
  moved-place, child_frame-zero, child_frame-stack, child_frame-others, child_frame-fp,
  child_frame-outside, copied_register, outside_frame,
}

-- The blocks of the child's stacks do not meet each other or the parent's stacks.
pub record Apart (p : Task) (r : Resources) : Type 0 where
  pub user_old :
      (k j : ℕ) → k < thread_sp_size → j < thread_sp_size → r.user_stack + k ≢ p.sp_addr + j
  pub kernel_old :
      (k j : ℕ) → k < thread_sp_size → j < thread_sp_size → r.kernel_stack + k ≢ p.sp_addr + j
  pub user_kernel :
      (k j : ℕ) → k < thread_sp_size → j < thread_sp_size → r.user_stack + k ≢ r.kernel_stack + j
  pub users : r.user_stack ≢ p.user_sp
  pub user_user :
      (k j : ℕ) → k < thread_sp_size → j < thread_sp_size → r.user_stack + k ≢ p.user_sp + j
  pub kernel_user :
      (k j : ℕ) → k < thread_sp_size → j < thread_sp_size → r.kernel_stack + k ≢ p.user_sp + j

-- The registers with which the switch of tasks starts the child: it goes on in the code that leaves
-- the trap, and has the parent's handler.
pub record Starts (k : Given) (frame : ℕ) (s : System) (child : Task) : Type 0 where
  pub x19 : child.x19 ≡ get_register 19 frame s.mem
  pub x20 : child.x20 ≡ get_register 20 frame s.mem
  pub x21 : child.x21 ≡ get_register 21 frame s.mem
  pub x22 : child.x22 ≡ get_register 22 frame s.mem
  pub x23 : child.x23 ≡ get_register 23 frame s.mem
  pub x24 : child.x24 ≡ get_register 24 frame s.mem
  pub x25 : child.x25 ≡ get_register 25 frame s.mem
  pub x26 : child.x26 ≡ get_register 26 frame s.mem
  pub x27 : child.x27 ≡ get_register 27 frame s.mem
  pub x28 : child.x28 ≡ get_register 28 frame s.mem
  pub fp : child.fp ≡ get_register 29 frame s.mem
  pub lr : child.lr ≡ k.child_return_from_fork
  pub target_func : child.target_func ≡ (get_current s).target_func
  pub handler : child.handler ≡ (get_current s).handler

-- What is returned to the parent, and the memory that the child starts with.
pub record Forked (k : Given) (frame : ℕ) (s : System) (r : ℤ) (child : Task) (mem : ℕ → ℕ)
    : Type 0 where
  pub result : r ≡ to_int s.scheduler.pid
  pub pid : child.pid ≡ s.scheduler.pid
  pub place : child.sp ≡ k.resources.kernel_stack + (frame - (get_current s).sp_addr)
  pub zero_returned : get_register 0 child.sp mem ≡ 0
  pub stack :
      get_register sp_el0 child.sp mem
      ≡ moved (get_register sp_el0 frame s.mem) k.resources.user_stack (get_current s).user_sp
  pub others :
      (n : ℕ)
      → n < 36
      → n ≢ 0
      → n ≢ 29
      → n ≢ sp_el0
      → get_register n child.sp mem ≡ get_register n frame s.mem
  pub frame_pointer : get_register 29 child.sp mem ≡ get_register 29 frame s.mem
  pub user_stack :
      (j : ℕ)
      → j < thread_sp_size
      → mem (k.resources.user_stack + j) ≡ s.mem ((get_current s).user_sp + j)
  pub kernel_stack :
      (j : ℕ)
      → j < thread_sp_size
      → (k.resources.kernel_stack + j < child.sp) ⊎ (child.sp + 288 ≤ k.resources.kernel_stack + j)
      → mem (k.resources.kernel_stack + j) ≡ s.mem ((get_current s).sp_addr + j)
  pub kept :
      (x : ℕ)
      → ((j : ℕ) → j < thread_sp_size → k.resources.user_stack + j ≢ x)
      → ((j : ℕ) → j < thread_sp_size → k.resources.kernel_stack + j ≢ x)
      → mem x ≡ s.mem x
  pub starts : Starts k frame s child

-- The tasks as `task_create` leaves them.
record Ready (k : Given) (s : System) (parent base : Task) : Type 0 where
  old_kernel : parent.sp_addr ≡ (get_current s).sp_addr
  old_user : parent.user_sp ≡ (get_current s).user_sp
  new_kernel : base.sp_addr ≡ k.resources.kernel_stack
  new_user : base.user_sp ≡ k.resources.user_stack
  new_pid : base.pid ≡ s.scheduler.pid
  old_func : parent.target_func ≡ (get_current s).target_func
  old_handler : parent.handler ≡ (get_current s).handler

abbrev copied : (parent child : Task) → (ℕ → ℕ) → ℕ → ℕ
copied parent child mem =
    copy_stacks thread_sp_size 0 parent.user_sp child.user_sp parent.sp_addr child.sp_addr mem

child-Forked :
    (k : Given) (frame : ℕ) (s : System) (parent base : Task)
    → Ready k s parent base
    → Apart (get_current s) k.resources
    → (get_current s).sp_addr ≤ frame
    → frame + 288 ≤ (get_current s).sp_addr + thread_sp_size
    → k.resources.kernel_stack + thread_sp_size < 2 ^ 64
    → get_register 29 frame s.mem < 2 ^ 64
    → Forked k frame s
        (to_int (child_task k frame s.mem parent base).pid)
        (child_task k frame s.mem parent base)
        (child_frame parent
          (child_task k frame s.mem parent base)
          (copied parent (child_task k frame s.mem parent base) s.mem))
unfolding child_task
child-Forked k frame s parent base ready apart low high fits word =
    let child = child_task k frame s.mem parent base in
    let place : child.sp ≡ k.resources.kernel_stack + (frame - (get_current s).sp_addr) =
      rw (ready.new_kernel, ready.old_kernel)
        (moved-place frame k.resources.kernel_stack (get_current s).sp_addr low
          (omega (arith, high)) fits) in
    let at : child.sp ≡ base.sp_addr + (frame - parent.sp_addr) =
      place ∙ rw (ready.new_kernel, ready.old_kernel) refl in
    let register = λ (n : ℕ) (less : n < 36).
      copied_register parent.user_sp base.user_sp parent.sp_addr base.sp_addr frame child.sp n s.mem
        (λ a b l1 l2. rw (ready.new_user, ready.old_kernel) (apart.user_old a b l1 l2))
        (λ a b l1 l2. rw (ready.new_kernel, ready.old_kernel) (apart.kernel_old a b l1 l2))
        (λ a b l1 l2. rw (ready.new_user, ready.new_kernel) (apart.user_kernel a b l1 l2))
        (omega (arith, low, ready.old_kernel)) (omega (arith, high, ready.old_kernel)) at less in
    let r = k.resources in
    let cur = get_current s in
    let stacks : copied parent child s.mem
        ≡ copy_stacks thread_sp_size 0 cur.user_sp r.user_stack cur.sp_addr r.kernel_stack s.mem =
      rw (ready.old_user, ready.new_user, ready.old_kernel, ready.new_kernel) refl in
    let outside = λ (x : ℕ) (apart_ : (j : ℕ) → j < thread_sp_size → r.kernel_stack + j ≢ x).
      outside_frame r.kernel_stack child.sp (frame - cur.sp_addr) x place (omega (arith, low, high))
        apart_ in
    let users : base.user_sp ≢ parent.user_sp = rw (ready.new_user, ready.old_user) apart.users in
    record {
      result = ap to_int ready.new_pid;
      pid = ready.new_pid;
      place = place;
      zero_returned = child_frame-zero parent child (copied parent child s.mem) users;
      stack =
          child_frame-stack parent child (copied parent child s.mem) users
          ∙ rw (register sp_el0 (omega arith), ready.new_user, ready.old_user) refl;
      others = λ n less not_0 not_29 not_sp.
          child_frame-others parent child (copied parent child s.mem) users n not_0 not_29 not_sp
          ∙ register n less;
      frame_pointer = child_frame-fp parent child (copied parent child s.mem) users word;
      user_stack = λ j lt.
          child_frame-outside parent child (copied parent child s.mem) users (r.user_stack + j)
            (outside (r.user_stack + j) (λ i l q. apart.user_kernel j i lt l (sym q)))
          ∙ ap (λ m. m (r.user_stack + j)) stacks
          ∙ copy_stacks-first thread_sp_size cur.user_sp r.user_stack cur.sp_addr r.kernel_stack
              apart.user_user apart.kernel_user apart.user_kernel thread_sp_size 0 s.mem j
              (omega arith) (omega arith) (omega (arith, lt));
      kernel_stack = λ j lt out.
          child_frame-outside parent child (copied parent child s.mem) users (r.kernel_stack + j)
            out
          ∙ ap (λ m. m (r.kernel_stack + j)) stacks
          ∙ copy_stacks-second thread_sp_size cur.user_sp r.user_stack cur.sp_addr r.kernel_stack
              apart.user_old apart.kernel_old apart.user_kernel thread_sp_size 0 s.mem j
              (omega arith) (omega arith) (omega (arith, lt));
      kept = λ x not_user not_kernel.
          child_frame-outside parent child (copied parent child s.mem) users x
            (outside x not_kernel)
          ∙ ap (λ m. m x) stacks
          ∙ copy_stacks-kept thread_sp_size cur.user_sp r.user_stack cur.sp_addr r.kernel_stack
              thread_sp_size 0 s.mem x
              (λ j l u. (not_user j (omega (arith, u)), not_kernel j (omega (arith, u))));
      starts = record {
        x19 = refl;
        x20 = refl;
        x21 = refl;
        x22 = refl;
        x23 = refl;
        x24 = refl;
        x25 = refl;
        x26 = refl;
        x27 = refl;
        x28 = refl;
        fp = refl;
        lr = refl;
        target_func = ready.old_func;
        handler = ready.old_handler;
      };
    }

Created-Ready :
    (k : Given) (s : System) (node : ℕ) (sched : Scheduler)
    → k.resources.node ≢ s.scheduler.current
    → Created k.resources
        (new_task k.switch_to_user_space 0 user k.resources s.scheduler)
        s.scheduler
        sched
        node
    → Ready k s (sched.tasks sched.current) (sched.tasks node)
unfolding new_task
Created-Ready k s node sched other made =
    let t = new_task k.switch_to_user_space 0 user k.resources s.scheduler in
    let old : Same (sched.tasks sched.current) (get_current s) =
      subst (λ a. Same (sched.tasks a) (get_current s)) (sym made.runs)
        (made.fields s.scheduler.current
          ∙ rw (ne→== k.resources.node s.scheduler.current other) refl) in
    let new : Same (sched.tasks node) t =
      subst (λ a. Same (sched.tasks a) t) (sym made.node_is)
        (made.fields k.resources.node
          ∙ ap {A = Task} (λ u. record u { next = none })
              (update_self s.scheduler.tasks k.resources.node t)) in
    record {
      old_kernel = ap {A = Task} (λ t. t.sp_addr) old;
      old_user = ap {A = Task} (λ t. t.user_sp) old;
      new_kernel = ap {A = Task} (λ t. t.sp_addr) new;
      new_user = ap {A = Task} (λ t. t.user_sp) new;
      new_pid = ap {A = Task} (λ t. t.pid) new;
      old_func = ap {A = Task} (λ t. t.target_func) old;
      old_handler = ap {A = Task} (λ t. t.handler) old;
    }

-- `sysc_fork` with a well-formed run queue, whose frame lies on the kernel stack of the caller and
-- whose new stacks meet neither each other nor those of the caller, returns the pid of the new task.
-- The user stack is copied, and so is the kernel stack outside the frame. The child's stack pointer
-- is at the copy of the frame; there register 0 holds 0, the user's stack pointer is moved to the
-- child's block, and the other registers are those of the caller. Nothing outside the two new
-- blocks changes. The child starts with the caller's registers x19 to x29, its target function and
-- its handler, at the code that returns from a fork. Register 29 of the frame fits its 64 bits.
pub sysc_fork-Forked :
    (k : Given) (frame : ℕ) (s : System) (xs : List ℕ)
    → length xs < k.fuel
    → Distinct xs
    → has k.resources.node xs ≡ false
    → Tasks s.scheduler.tasks s.scheduler.run_queue xs
    → k.resources.node ≢ s.scheduler.current
    → Apart (get_current s) k.resources
    → (get_current s).sp_addr ≤ frame
    → frame + 288 ≤ (get_current s).sp_addr + thread_sp_size
    → k.resources.kernel_stack + thread_sp_size < 2 ^ 64
    → get_register 29 frame s.mem < 2 ^ 64
    → Returns
        (λ (r, s'). Forked k frame s r (s'.scheduler.tasks k.resources.node) s'.mem)
        (sysc_fork k frame s)
unfolding sysc_fork
sysc_fork-Forked k frame s xs lt d out c other apart low high fits word =
    let ((node, sched), run, made) =
      task_create-Created k.fuel k.switch_to_user_space 0 user k.resources s.scheduler xs lt d out
        c in
    let parent = sched.tasks sched.current in
    let child = child_task k frame s.mem parent (sched.tasks node) in
    let mem = child_frame parent child (copied parent child s.mem) in
    (
      (
        to_int child.pid,
        record s { mem = mem; scheduler = record sched { tasks = update sched.tasks node child } },
      ),
      rw (sysc_fork, run) refl,
      subst (λ t. Forked k frame s (to_int child.pid) t mem)
          (sym (
            ap (update sched.tasks node child) (sym made.node_is)
            ∙ update_self sched.tasks node child))
          (child-Forked k frame s parent (sched.tasks node)
            (Created-Ready k s node sched other made) apart low high fits word),
    )
