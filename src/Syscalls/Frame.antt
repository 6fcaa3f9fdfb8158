-- ===== src/Syscalls/Frame.antt =====
-- The trap frame of the child that `sysc_fork` of lib/exception.c makes.
use bare_metal_os_kernel.Base.{
  ℕ, ◌+◌, ◌-◌, ◌*◌, ◌^◌, ◌≤◌, ◌<◌, ◌≡◌, ◌≢◌, ap, ◌∙◌, ltb, arith, inl, inr, Bool-cases, ◌⊎◌,
}
use bare_metal_os_kernel.Scheduler.{Task, thread_sp_size}
use bare_metal_os_kernel.Syscalls.{get_register, register_at, sp_el0}
use bare_metal_os_kernel.Syscalls.Tasks.{child_frame, copy_stacks, moved}
use bare_metal_os_kernel.Syscalls.Memory.{
  get_register-set_register, get_register-other, set_register-outside, load_bytes-same,
  copy_stacks-second,
}

pub moved-place :
    (a child parent : ℕ)
    → parent ≤ a
    → a < parent + thread_sp_size
    → child + thread_sp_size < 2 ^ 64
    → moved a child parent ≡ child + (a - parent)
moved-place a child parent le lt fits = elim (Bool-cases (ltb parent child)) [
  | inl up ↦ rw up (ground (arith, up, le, lt, fits))
  | inr other ↦ elim (Bool-cases (ltb child parent)) [
    | inl down ↦ rw (other, down) (ground (arith, down, le, lt, fits))
    | inr same ↦ rw (other, same) (ground (arith, other, same, le))
  ]
]

moved-bound : (a child parent : ℕ) → child ≢ parent → moved a child parent < 2 ^ 64
moved-bound a child parent ne = elim (Bool-cases (ltb parent child)) [
  | inl up ↦ rw up (omega arith)
  | inr other ↦ elim (Bool-cases (ltb child parent)) [
    | inl down ↦ rw (other, down) (omega arith)
    | inr same ↦ ground (arith, other, same, ne)
  ]
]

-- The frame on the child's stack.
module _ (parent child : Task) (mem : ℕ → ℕ) (ne : child.user_sp ≢ parent.user_sp) where
  pub child_frame-zero : get_register 0 child.sp (child_frame parent child mem) ≡ 0
  unfolding child_frame
  child_frame-zero =
      get_register-other 0 sp_el0 child.sp _ _ (omega arith)
      ∙ get_register-other 0 29 child.sp _ _ (omega arith)
      ∙ get_register-set_register 0 child.sp 0 mem (omega arith)

  pub child_frame-stack :
      get_register sp_el0 child.sp (child_frame parent child mem)
      ≡ moved (get_register sp_el0 child.sp mem) child.user_sp parent.user_sp
  unfolding child_frame
  child_frame-stack =
      get_register-set_register sp_el0 child.sp _ _ (moved-bound _ child.user_sp parent.user_sp ne)
      ∙ ap (λ x. moved x child.user_sp parent.user_sp)
          (get_register-other sp_el0 29 child.sp _ _ (omega arith)
            ∙ get_register-other sp_el0 0 child.sp _ _ (omega arith))

  pub child_frame-others :
      (n : ℕ)
      → n ≢ 0
      → n ≢ 29
      → n ≢ sp_el0
      → get_register n child.sp (child_frame parent child mem) ≡ get_register n child.sp mem
  unfolding child_frame
  child_frame-others n not_0 not_29 not_sp =
      get_register-other n sp_el0 child.sp _ _ not_sp
      ∙ get_register-other n 29 child.sp _ _ not_29
      ∙ get_register-other n 0 child.sp _ _ not_0

  -- `x29` holds the frame pointer of the child, and nothing outside the frame changes.
  pub child_frame-fp :
      child.fp < 2 ^ 64 → get_register 29 child.sp (child_frame parent child mem) ≡ child.fp
  unfolding child_frame
  child_frame-fp lt =
      get_register-other 29 sp_el0 child.sp _ _ (omega arith)
      ∙ get_register-set_register 29 child.sp child.fp _ lt

  pub child_frame-outside :
      (x : ℕ) → (x < child.sp) ⊎ (child.sp + 288 ≤ x) → child_frame parent child mem x ≡ mem x
  unfolding child_frame
  child_frame-outside x out =
      set_register-outside sp_el0 child.sp _ x _ (omega arith) out
      ∙ set_register-outside 29 child.sp child.fp x _ (omega arith) out
      ∙ set_register-outside 0 child.sp 0 x mem (omega arith) out

-- A register of the frame, in the copy of the kernel stack.
pub copied_register :
    (src1 dst1 src2 dst2 frame sp n : ℕ) (mem : ℕ → ℕ)
    → ((k j : ℕ) → k < thread_sp_size → j < thread_sp_size → dst1 + k ≢ src2 + j)
    → ((k j : ℕ) → k < thread_sp_size → j < thread_sp_size → dst2 + k ≢ src2 + j)
    → ((k j : ℕ) → k < thread_sp_size → j < thread_sp_size → dst1 + k ≢ dst2 + j)
    → src2 ≤ frame
    → frame + 288 ≤ src2 + thread_sp_size
    → sp ≡ dst2 + (frame - src2)
    → n < 36
    → get_register n sp (copy_stacks thread_sp_size 0 src1 dst1 src2 dst2 mem)
      ≡ get_register n frame mem
unfolding get_register
copied_register src1 dst1 src2 dst2 frame sp n mem a b c low high at lt =
    load_bytes-same 8 mem (copy_stacks thread_sp_size 0 src1 dst1 src2 dst2 mem)
      (register_at n frame) (register_at n sp)
      (λ k less.
        ap (copy_stacks thread_sp_size 0 src1 dst1 src2 dst2 mem) (omega (arith, at))
        ∙ copy_stacks-second thread_sp_size src1 dst1 src2 dst2 a b c thread_sp_size 0 mem
            (frame - src2 + 8 * n + k) (omega arith) (omega arith)
            (omega (arith, low, high, lt, less))
        ∙ ap mem (omega (arith, low)))

-- What lies outside the block that holds a frame lies outside the frame.
pub outside_frame :
    (block sp off x : ℕ)
    → sp ≡ block + off
    → off + 288 ≤ thread_sp_size
    → ((j : ℕ) → j < thread_sp_size → block + j ≢ x)
    → (x < sp) ⊎ (sp + 288 ≤ x)
outside_frame block sp off x at fits apart = elim (Bool-cases (ltb x sp)) [
  | inl low ↦ inl (ground (arith, low))
  | inr above ↦ elim (Bool-cases (ltb x (sp + 288))) [
    | inl inside ↦
        absurd
          (apart (x - block) (ground (arith, at, fits, above, inside)) (ground (arith, at, above)))
    | inr high ↦ inr (ground (arith, high))
  ]
]
