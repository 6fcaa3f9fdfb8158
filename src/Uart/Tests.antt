-- ===== src/Uart/Tests.antt =====
-- Runs of the model of lib/uart.c, and its theorems at concrete states.
use bare_metal_os_kernel.Base.{
  ℕ, zero, suc, ◌+◌, ◌≡◌, refl, subst, ap, ◌∙◌, List, [], ◌∷◌, length, ok, ◌>>=◌, Returns, update,
  arith,
}
use bare_metal_os_kernel.Uart.{
  Ring, Uart, wrap, async_uart_puts, async_uart_send, uart_interrupt_w_handler,
  disable_uart_w_interrupt, uart_puts, uart_getc, wait_for, uart_send, read_io,
}
use bare_metal_os_kernel.Uart.Rings.{Between, Holds}
use bare_metal_os_kernel.Uart.Transmit

-- A ring that starts near the end of the array: it holds "a", and its next place is the last one.
abbrev wrapped : Ring
wrapped = record { buffer = update (λ _. 0) 254 b'a'; widx = 255; ridx = 254 }

wrapped-Holds : Holds wrapped (b'a' ∷ [])
wrapped-Holds = record { inside = omega arith; room = omega arith; chars = (refl, refl) }

abbrev no_ring : Ring
no_ring = record { buffer = λ _. 0; widx = 0; ridx = 0 }

abbrev device : Uart
device = record {
  tx = wrapped;
  rx = wrapped;
  ier = 0;
  lsr = 0 ∷ 0x20 ∷ 0x21 ∷ 0x20 ∷ 0x21 ∷ [];
  io = b'b' ∷ b'\r' ∷ [];
  sent = [];
}

-- `uart_puts` waits until the device can take a character.
uart_puts-sent :
    Returns (λ s. s.sent ≡ b'x' ∷ b'\r' ∷ b'\n' ∷ []) (uart_puts (b'x' ∷ b'\n' ∷ []) device)
unfolding uart_puts uart_send wait_for
uart_puts-sent = (_, refl, refl)

uart_getc-got : Returns (λ r. r.0 ≡ b'b') (uart_getc device)
unfolding uart_getc wait_for read_io
uart_getc-got = (_, refl, refl)

async_uart_puts-delivered_example :
    Returns
      (λ s'.
        (s'.sent ≡ b'a' ∷ b'h' ∷ b'\r' ∷ b'\n' ∷ [])
        × (uart_interrupt_w_handler s' ≡ ok (disable_uart_w_interrupt s')))
      (async_uart_puts (b'h' ∷ b'\n' ∷ []) device >>= Transmit.interrupts 4)
async_uart_puts-delivered_example =
    Transmit.async_uart_puts-delivered (b'h' ∷ b'\n' ∷ []) device (b'a' ∷ []) (omega arith)
      wrapped-Holds

-- A full ring of the same character.
abbrev full : Ring
full = record { buffer = λ _. b'a'; widx = 255; ridx = 0 }

abbrev same : ℕ → List ℕ
same zero = []
same (suc n) = b'a' ∷ same n

Between-same : (n r : ℕ) → r + n ≡ 255 → Between (λ _. b'a') r 255 (same n)
Between-same zero r e = omega (arith, e)
Between-same (suc n) r e =
    let next : r + 1 ≡ wrap (r + 1) = ground (arith, e) in
    (
      refl,
      subst (λ k. Between (λ _. b'a') k 255 (same n)) next
          (Between-same n (r + 1) (omega (arith, e))),
    )

length-same : (n : ℕ) → length (same n) ≡ n
length-same zero = refl
length-same (suc n) = ap suc (length-same n)

full-Holds : Holds full (same 255)
full-Holds = record {
  inside = omega arith;
  room = omega (arith, length-same 255);
  chars = Between-same 255 0 refl;
}

async_uart_send_lost_example :
    Returns
      (λ s'. Holds s'.tx [] × (s'.sent ≡ []))
      (async_uart_send b'b' (record device { tx = full }))
async_uart_send_lost_example =
    Transmit.async_uart_send_lost b'b' (record device { tx = full }) (same 255)
      (ap suc (length-same 255) ∙ refl) full-Holds
