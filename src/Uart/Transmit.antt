-- ===== src/Uart/Transmit.antt =====
-- The transmit ring of lib/uart.c, from `async_uart_send` to what `uart_interrupt_w_handler` gives
-- to the device.
use bare_metal_os_kernel.Base.{
  ℕ, zero, suc, ◌+◌, ◌/◌, ◌%◌, ◌<◌, ◌≡◌, refl, sym, subst, ap, ◌∙◌, Bool, true, false, List, [],
  ◌∷◌, append_assoc, append-nil, ◌++◌, length, length-append, Run, ok, ◌>>=◌, Returns, ◌==◌,
  if◌then◌else◌, arith,
}
use bare_metal_os_kernel.Uart.{
  Uart, max_buf_size, async_uart_send, async_uart_puts, uart_interrupt_w_handler,
  enable_uart_w_interrupt, disable_uart_w_interrupt, write_io,
}
use bare_metal_os_kernel.Uart.Rings.{
  Holds, with_char, without_char, Holds-widx, put_char-ok, take_char-ok, with_char-Holds,
  without_char-Holds, Holds-empty, Holds-more,
}

-- The transmit interrupt is enabled.
abbrev pub WakesWriter : Uart → Type 0
WakesWriter s = (s.ier / 2) % 2 ≡ 1

-- The characters `xs` wait to be sent, and nothing else has changed since `s`.
pub record Waiting (s : Uart) (xs : List ℕ) (s' : Uart) : Type 0 where
  pub waiting : Holds s'.tx xs
  pub sent : s'.sent ≡ s.sent
  pub rx : s'.rx ≡ s.rx
  pub io : s'.io ≡ s.io

-- Where the ring holds fewer than 255 characters `xs`, `async_uart_send` returns with the new one
-- behind them, the interrupt for sending is enabled, and nothing else but that has changed.
pub async_uart_send-Waiting :
    (c : ℕ) (s : Uart) (xs : List ℕ)
    → length xs + 1 < max_buf_size
    → Holds s.tx xs
    → Returns (λ s'. Waiting s (xs ++ c ∷ []) s' × WakesWriter s') (async_uart_send c s)
unfolding async_uart_send
async_uart_send-Waiting c s xs lt h = (
  enable_uart_w_interrupt (record s { tx = with_char c s.tx }),
  rw (put_char-ok c s.tx xs h),
  (
    record { waiting = with_char-Holds c s.tx xs lt h; sent = refl; rx = refl; io = refl },
    ground arith,
  ),
)

-- Where the ring holds 255 characters, `async_uart_send` returns with an empty ring: all that waited
-- and the new character are lost.
pub async_uart_send_lost :
    (c : ℕ) (s : Uart) (xs : List ℕ)
    → length xs + 1 ≡ max_buf_size
    → Holds s.tx xs
    → Returns (λ s'. Holds s'.tx [] × (s'.sent ≡ s.sent)) (async_uart_send c s)
unfolding async_uart_send
async_uart_send_lost c s xs e h = (
  enable_uart_w_interrupt (record s { tx = with_char c s.tx }),
  rw (put_char-ok c s.tx xs h),
  (
    record {
      inside = h.inside;
      room = omega arith;
      chars = ground (arith, e, Holds-widx s.tx xs h, h.inside);
    },
    refl,
  ),
)

-- `uart_interrupt_w_handler` gives the oldest character that waits to the device and stays enabled;
-- with none it disables itself.
pub uart_interrupt_w_handler-next :
    (s : Uart) (x : ℕ) (xs : List ℕ)
    → Holds s.tx (x ∷ xs)
    → Returns
        (λ s'. Holds s'.tx xs × (s'.sent ≡ s.sent ++ x ∷ []) × WakesWriter s')
        (uart_interrupt_w_handler s)
unfolding uart_interrupt_w_handler
uart_interrupt_w_handler-next s x xs h = (
  enable_uart_w_interrupt (write_io x (record s { tx = without_char s.tx })),
  rw (uart_interrupt_w_handler, Holds-more s.tx x xs h, take_char-ok s.tx x xs h),
  (without_char-Holds s.tx x xs h, refl, ground arith),
)

uart_interrupt_w_handler-last :
    (s : Uart) → Holds s.tx [] → uart_interrupt_w_handler s ≡ ok (disable_uart_w_interrupt s)
unfolding uart_interrupt_w_handler
uart_interrupt_w_handler-last s h = rw (uart_interrupt_w_handler, Holds-empty s.tx h)

-- What is sent for a string: every newline has a carriage return in front.
abbrev pub return_if : Bool → List ℕ
return_if true = b'\r' ∷ []
return_if false = []

abbrev pub with_returns : List ℕ → List ℕ
with_returns [] = []
with_returns (c ∷ cs) = return_if (c == b'\n') ++ c ∷ with_returns cs

send_return :
    (b : Bool) (s : Uart) (xs : List ℕ)
    → length xs + length (return_if b) < max_buf_size
    → Holds s.tx xs
    → Returns (Waiting s (xs ++ return_if b)) (if b then async_uart_send b'\r' s else ok s)
send_return true s xs lt h =
    let (s', run, (w, e)) = async_uart_send-Waiting b'\r' s xs (omega (arith, lt)) h in (s', run, w)
send_return false s xs lt h = (
  s,
  refl,
  record {
    waiting = subst (λ l. Holds s.tx l) (sym (append-nil xs)) h;
    sent = refl;
    rx = refl;
    io = refl;
  },
)

Waiting-trans :
    (s s1 s2 : Uart) (xs ys : List ℕ) → Waiting s xs s1 → Waiting s1 ys s2 → Waiting s ys s2
Waiting-trans s s1 s2 xs ys u v = record {
  waiting = v.waiting;
  sent = v.sent ∙ u.sent;
  rx = v.rx ∙ u.rx;
  io = v.io ∙ u.io;
}

puts_assoc : (xs p : List ℕ) (c : ℕ) (rs : List ℕ) → (xs ++ p) ++ c ∷ [] ++ rs ≡ xs ++ (p ++ c ∷ rs)
puts_assoc xs p c rs = append_assoc (xs ++ p) (c ∷ []) rs ∙ append_assoc xs p (c ∷ rs)

-- Where the string fits, its carriage returns included, behind what waits in the ring with one
-- place to spare, `async_uart_puts` returns with it there.
pub async_uart_puts-Waiting :
    (cs : List ℕ) (s : Uart) (xs : List ℕ)
    → length xs + length (with_returns cs) < max_buf_size
    → Holds s.tx xs
    → Returns (Waiting s (xs ++ with_returns cs)) (async_uart_puts cs s)
unfolding async_uart_puts
async_uart_puts-Waiting [] s xs lt h = send_return false s xs lt h
async_uart_puts-Waiting (c ∷ cs) s xs lt h =
    let p = return_if (c == b'\n') in
    let n1 = length-append p (c ∷ with_returns cs) in
    let n2 = length-append xs p in
    let (s1, run1, w1) = send_return (c == b'\n') s xs (omega (arith, lt, n1)) h in
    let (s2, run2, (w2, on)) =
      async_uart_send-Waiting c s1 (xs ++ p) (omega (arith, lt, n1, n2)) w1.waiting in
    let (s3, run3, w3) =
      async_uart_puts-Waiting cs s2 ((xs ++ p) ++ c ∷ [])
        (omega (arith, lt, n1, n2, length-append (xs ++ p) (c ∷ []))) w2.waiting in
    (
      s3,
      rw (run1, run2) run3,
      subst (λ l. Waiting s l s3) (puts_assoc xs p c (with_returns cs))
          (Waiting-trans s s1 s3 _ _ w1 (Waiting-trans s1 s2 s3 _ _ w2 w3)),
    )

-- `n` interrupts, one after the other.
unfoldable pub interrupts : ℕ → Uart → Run Uart
interrupts zero s = ok s
interrupts (suc n) s = do s' ← uart_interrupt_w_handler s; interrupts n s'

delivered :
    (s : Uart) (xs : List ℕ)
    → Holds s.tx xs
    → Returns
        (λ s'.
          (s'.sent ≡ s.sent ++ xs)
          × (uart_interrupt_w_handler s' ≡ ok (disable_uart_w_interrupt s')))
        (interrupts (length xs) s)
unfolding interrupts
delivered s [] h = (s, refl, (sym (append-nil s.sent), uart_interrupt_w_handler-last s h))
delivered s (x ∷ xs) h =
    let (s1, run, (h1, e1, on)) = uart_interrupt_w_handler-next s x xs h in
    let (s2, run2, (e2, off)) = delivered s1 xs h1 in
    (s2, rw run run2, (e2 ∙ ap (λ l. l ++ xs) e1 ∙ append_assoc s.sent (x ∷ []) xs, off))

-- Where a string fits behind what waits in the ring, `async_uart_puts` and then one interrupt for
-- each character that waits give the device all of them in order, with a carriage return before
-- each newline of the string, and the next interrupt disables itself.
pub async_uart_puts-delivered :
    (cs : List ℕ) (s : Uart) (xs : List ℕ)
    → length xs + length (with_returns cs) < max_buf_size
    → Holds s.tx xs
    → Returns
        (λ s'.
          (s'.sent ≡ s.sent ++ (xs ++ with_returns cs))
          × (uart_interrupt_w_handler s' ≡ ok (disable_uart_w_interrupt s')))
        (async_uart_puts cs s >>= interrupts (length (xs ++ with_returns cs)))
async_uart_puts-delivered cs s xs lt h =
    let (s1, run1, w) = async_uart_puts-Waiting cs s xs lt h in
    let (s2, run2, (e, off)) = delivered s1 (xs ++ with_returns cs) w.waiting in
    (s2, rw run1 run2, (e ∙ ap (λ l. l ++ (xs ++ with_returns cs)) w.sent, off))
