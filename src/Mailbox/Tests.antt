-- ===== src/Mailbox/Tests.antt =====
-- A run of `mbox_call` of lib/mailbox.c.
use bare_metal_os_kernel.Base.{◌≡◌, refl, [], ◌∷◌, Returns, update}
use bare_metal_os_kernel.Mailbox.{mbox_call, wait_clear, answer_loop}

-- A message at 0x100 for channel 8: the first answer is for another channel.
message_answered :
    Returns
      (λ (r, s). (r ≡ 1) × (s.written ≡ 0x108 ∷ []))
      (mbox_call 8 0x100
        (update (λ _. 0) 0x107 0x80)
        (record { status = 0x80000000 ∷ 0 ∷ 0 ∷ 0 ∷ []; read = 0x105 ∷ 0x108 ∷ []; written = [] }))
unfolding mbox_call wait_clear answer_loop
message_answered = (_, refl, (refl, refl))
