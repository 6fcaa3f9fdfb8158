-- ===== src/Mailbox.antt =====
-- lib/mailbox.c: what the registers MAILBOX_STATUS and MAILBOX_READ will read is a list each, and
-- what is written to MAILBOX_WRITE is kept in order.
mod Tests
use bare_metal_os_kernel.Base.{
  ℕ, zero, suc, ◌+◌, ◌-◌, ◌*◌, ◌/◌, ◌%◌, ◌^◌, List, [], ◌∷◌, ◌++◌, Run, ok, out_of_fuel, ◌>>=◌,
  ◌==◌, if◌then◌else◌,
}

pub record Mailbox : Type 0 where
  pub status : List ℕ
  pub read : List ℕ
  pub written : List ℕ

-- `do … while(*MAILBOX_STATUS & bit)`: the readings that are left afterwards.
unfoldable pub wait_clear : (bit : ℕ) → (status : List ℕ) → Run (List ℕ)
wait_clear bit [] = out_of_fuel
wait_clear bit (s ∷ ss) =
    let rest = wait_clear bit ss in if ((s / bit) % 2) == 1 then rest else ok ss

abbrev pub mailbox_full : ℕ
mailbox_full = 2 ^ 31

abbrev pub mailbox_empty : ℕ
mailbox_empty = 2 ^ 30

abbrev pub mailbox_response : ℕ
mailbox_response = 2 ^ 31

-- The word at `p`, which is little-endian.
abbrev pub word : (mem : ℕ → ℕ) → (p : ℕ) → ℕ
word mem p = mem p + 2 ^ 8 * mem (p + 1) + 2 ^ 16 * mem (p + 2) + 2 ^ 24 * mem (p + 3)

-- The answers, up to the one for `r`, each behind a wait.
unfoldable pub answer_loop : (r : ℕ) → (read status : List ℕ) → Run (List ℕ × List ℕ)
answer_loop r [] status = out_of_fuel
answer_loop r (x ∷ xs) status = do
  left ← wait_clear mailbox_empty status
  let rest = answer_loop r xs left
  if r == x then ok (xs, left) else rest

-- `((uint32_t)mbox & ~0xF) | (ch & 0xf)`
abbrev pub message_of : (ch mbox : ℕ) → ℕ
message_of ch mbox = mbox % 2 ^ 32 - mbox % 16 + ch % 16

-- `answered` is the memory at the end, into which the other side has written.
unfoldable pub mbox_call : (ch mbox : ℕ) → (answered : ℕ → ℕ) → Mailbox → Run (ℕ × Mailbox)
mbox_call ch mbox answered s = do
  let r = message_of ch mbox
  status ← wait_clear mailbox_full s.status
  (read, left) ← answer_loop r s.read status
  ok (
    if word answered (mbox + 4) == mailbox_response then 1 else 0,
    record { status = left; read = read; written = s.written ++ r ∷ [] },
  )
