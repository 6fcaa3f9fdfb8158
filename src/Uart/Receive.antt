-- ===== src/Uart/Receive.antt =====
-- The receive ring of lib/uart.c, from `uart_interrupt_r_handler` to `async_uart_getc`.
use bare_metal_os_kernel.Base.{
  ℕ, zero, suc, ◌+◌, ◌%◌, ◌<◌, ◌≡◌, refl, sym, subst, List, [], ◌∷◌, append_assoc, append-nil, ◌++◌,
  map, length, length-append, Run, ok, ◌>>=◌, Returns, ltb, if◌then◌else◌, ltb→lt, Bool-cases,
  arith, inl, inr,
}
use bare_metal_os_kernel.Uart.{
  Uart, max_buf_size, newline, read_io, async_uart_getc, uart_interrupt_r_handler,
  enable_uart_r_interrupt,
}
use bare_metal_os_kernel.Uart.Rings.{
  Holds, with_char, without_char, put_char-ok, take_char-ok, with_char-Holds, without_char-Holds,
  Holds-empty, Holds-more, Holds-full, Holds-room,
}

-- The receive interrupt is enabled.
abbrev pub WakesReader : Uart → Type 0
WakesReader s = s.ier % 2 ≡ 1

-- `xs` with a character that arrives: none if 255 wait already.
abbrev pub arrived : ℕ → List ℕ → List ℕ
arrived c xs = if ltb (length xs + 1) max_buf_size then xs ++ newline c ∷ [] else xs

received :
    (s : Uart) (c : ℕ) (cs xs : List ℕ)
    → s.io ≡ c ∷ cs
    → length xs + 1 < max_buf_size
    → Holds s.rx xs
    → Returns
        (λ s'. Holds s'.rx (xs ++ newline c ∷ []) × (s'.io ≡ cs) × (s'.tx ≡ s.tx) × WakesReader s')
        (uart_interrupt_r_handler s)
unfolding uart_interrupt_r_handler read_io
received s c cs xs e lt h = (
  enable_uart_r_interrupt (record s { io = cs; rx = with_char (newline c) s.rx }),
  rw (uart_interrupt_r_handler, Holds-room s.rx xs lt h, e, put_char-ok (newline c) s.rx xs h),
  (with_char-Holds (newline c) s.rx xs lt h, refl, refl, ground arith),
)

left_out :
    (s : Uart) (xs : List ℕ)
    → length xs + 1 ≡ max_buf_size
    → Holds s.rx xs
    → uart_interrupt_r_handler s ≡ ok (enable_uart_r_interrupt s)
unfolding uart_interrupt_r_handler
left_out s xs e h = rw (uart_interrupt_r_handler, Holds-full s.rx xs e h)

-- Where a character `c` has arrived, `uart_interrupt_r_handler` returns with the interrupt enabled.
-- With fewer than 255 characters in the ring it takes `c` from the device and puts it behind them,
-- a carriage return as a newline; with 255 it leaves `c` in the device and the ring as it is.
pub uart_interrupt_r_handler-arrived :
    (s : Uart) (c : ℕ) (cs xs : List ℕ)
    → s.io ≡ c ∷ cs
    → Holds s.rx xs
    → Returns
        (λ s'.
          Holds s'.rx (arrived c xs)
          × (s'.io ≡ (if ltb (length xs + 1) max_buf_size then cs else s.io))
          × (s'.tx ≡ s.tx)
          × WakesReader s')
        (uart_interrupt_r_handler s)
uart_interrupt_r_handler-arrived s c cs xs e h =
    elim (Bool-cases (ltb (length xs + 1) max_buf_size)) [
      | inl fits ↦ rw fits (received s c cs xs e (ltb→lt _ _ fits) h)
      | inr full ↦ rw full (
        enable_uart_r_interrupt s,
        left_out s xs (ground (arith, h.room)) h,
        (h, refl, refl, ground arith),
      )
    ]

-- `async_uart_getc` takes the oldest character of the ring.
pub async_uart_getc-next :
    (s : Uart) (x : ℕ) (xs : List ℕ)
    → Holds s.rx (x ∷ xs)
    → Returns (λ r. (r.0 ≡ x) × Holds r.1.rx xs × (r.1.tx ≡ s.tx)) (async_uart_getc s)
unfolding async_uart_getc
async_uart_getc-next s x xs h = (
  (x, record s { rx = without_char s.rx }),
  rw (async_uart_getc, Holds-more s.rx x xs h, take_char-ok s.rx x xs h),
  (refl, without_char-Holds s.rx x xs h, refl),
)

-- With nothing in the ring `async_uart_getc` returns 0 and changes nothing.
pub async_uart_getc-none : (s : Uart) → Holds s.rx [] → async_uart_getc s ≡ ok (0, s)
unfolding async_uart_getc
async_uart_getc-none s h = rw (async_uart_getc, Holds-empty s.rx h)

-- `n` interrupts, one after the other, and `n` calls of `async_uart_getc` with what they return.
unfoldable pub interrupts : ℕ → Uart → Run Uart
interrupts zero s = ok s
interrupts (suc n) s = do s' ← uart_interrupt_r_handler s; interrupts n s'

unfoldable pub getc_times : ℕ → Uart → Run (List ℕ × Uart)
getc_times zero s = ok ([], s)
getc_times (suc n) s = do (c, s1) ← async_uart_getc s; (cs, s2) ← getc_times n s1; ok (c ∷ cs, s2)

interrupts-Holds :
    (s : Uart) (cs xs : List ℕ)
    → s.io ≡ cs
    → length xs + length cs < max_buf_size
    → Holds s.rx xs
    → Returns (λ s'. Holds s'.rx (xs ++ map newline cs)) (interrupts (length cs) s)
unfolding interrupts
interrupts-Holds s [] xs e lt h = (s, refl, subst (λ l. Holds s.rx l) (sym (append-nil xs)) h)
interrupts-Holds s (c ∷ cs) xs e lt h =
    let (s1, run, (h1, e1, rest, on)) = received s c cs xs e (omega (arith, lt)) h in
    let (s2, run2, h2) =
      interrupts-Holds s1 cs (xs ++ newline c ∷ []) e1
        (omega (arith, lt, length-append xs (newline c ∷ []))) h1 in
    (
      s2,
      rw run run2,
      subst (λ l. Holds s2.rx l) (append_assoc xs (newline c ∷ []) (map newline cs)) h2,
    )

getc_times-Holds :
    (s : Uart) (xs : List ℕ)
    → Holds s.rx xs
    → Returns (λ r. (r.0 ≡ xs) × Holds r.1.rx []) (getc_times (length xs) s)
unfolding getc_times
getc_times-Holds s [] h = (([], s), refl, (refl, h))
getc_times-Holds s (x ∷ xs) h =
    let (r1, run, (e, h1, rest)) = async_uart_getc-next s x xs h in
    let (r2, run2, (e2, h2)) = getc_times-Holds r1.1 xs h1 in
    ((r1.0 ∷ r2.0, r2.1), rw (run, run2) refl, (rw (e, e2) refl, h2))

-- Where the characters `cs` arrive, an interrupt each, and fit behind what waits in the ring with
-- one place to spare, that many calls of `async_uart_getc` return what waited and then `cs`, in
-- order and with carriage returns as newlines; the next call returns 0.
pub async_uart_getc_in_order :
    (s : Uart) (cs xs : List ℕ)
    → s.io ≡ cs
    → length xs + length cs < max_buf_size
    → Holds s.rx xs
    → Returns
        (λ r. (r.0 ≡ xs ++ map newline cs) × (async_uart_getc r.1 ≡ ok (0, r.1)))
        (interrupts (length cs) s >>= getc_times (length (xs ++ map newline cs)))
async_uart_getc_in_order s cs xs e lt h =
    let (s1, run, h1) = interrupts-Holds s cs xs e lt h in
    let (r2, run2, (e2, h2)) = getc_times-Holds s1 (xs ++ map newline cs) h1 in
    (r2, rw run run2, (e2, async_uart_getc-none r2.1 h2))
