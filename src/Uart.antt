-- ===== src/Uart.antt =====
-- lib/uart.c: the polled and the interrupt-driven use of the mini UART. What the registers
-- AUX_MU_LSR and AUX_MU_IO will read is a list each, and what is written to AUX_MU_IO is kept in
-- order. A `char` is its byte and a C string the bytes before its end.
pub mod Rings
pub mod Transmit
pub mod Receive
mod Tests
use bare_metal_os_kernel.Base.{
  ℕ, zero, suc, ◌+◌, ◌-◌, ◌/◌, ◌%◌, ◌^◌, true, false, List, [], ◌∷◌, ◌++◌, Run, ok, fault,
  out_of_fuel, ◌>>=◌, ltb, leb, ◌==◌, if◌then◌else◌, update,
}

abbrev pub max_buf_size : ℕ
max_buf_size = 0x100

pub record Ring : Type 0 where
  pub buffer : ℕ → ℕ
  pub widx : ℕ
  pub ridx : ℕ

pub record Uart : Type 0 where
  pub tx : Ring
  pub rx : Ring
  pub ier : ℕ
  pub lsr : List ℕ
  pub io : List ℕ
  pub sent : List ℕ

-- `n | b` and `n & ~b` for a `b` that is a power of two.
abbrev pub set_bit : (b n : ℕ) → ℕ
set_bit b n = if ((n / b) % 2) == 1 then n else n + b

abbrev pub clear_bit : (b n : ℕ) → ℕ
clear_bit b n = if ((n / b) % 2) == 1 then n - b else n

abbrev pub enable_uart_r_interrupt : Uart → Uart
enable_uart_r_interrupt s = record s { ier = set_bit 1 s.ier }

abbrev pub enable_uart_w_interrupt : Uart → Uart
enable_uart_w_interrupt s = record s { ier = set_bit 2 s.ier }

abbrev pub disable_uart_r_interrupt : Uart → Uart
disable_uart_r_interrupt s = record s { ier = clear_bit 1 s.ier }

abbrev pub disable_uart_w_interrupt : Uart → Uart
disable_uart_w_interrupt s = record s { ier = clear_bit 2 s.ier }

-- `do … while(!(*AUX_MU_LSR & bit))`: the readings that are left afterwards.
unfoldable pub wait_for : (bit : ℕ) → List ℕ → Run (List ℕ)
wait_for bit [] = out_of_fuel
wait_for bit (r ∷ rs) = let rest = wait_for bit rs in if ((r / bit) % 2) == 1 then ok rs else rest

abbrev pub write_io : ℕ → Uart → Uart
write_io c s = record s { sent = s.sent ++ c ∷ [] }

unfoldable pub read_io : Uart → Run (ℕ × Uart)
read_io s = elim s.io [ [] ↦ out_of_fuel | c ∷ cs ↦ ok (c, record s { io = cs }) ]

abbrev pub newline : ℕ → ℕ
newline r = if r == b'\r' then b'\n' else r

unfoldable pub uart_send : ℕ → Uart → Run Uart
uart_send c s = do lsr ← wait_for 0x20 s.lsr; ok (write_io c (record s { lsr = lsr }))

unfoldable pub uart_getc : Uart → Run (ℕ × Uart)
uart_getc s = do
  lsr ← wait_for 0x01 s.lsr
  (r, s1) ← read_io (record s { lsr = lsr })
  ok (newline r, s1)

unfoldable pub uart_read_byte : Uart → Run (ℕ × Uart)
uart_read_byte s = do lsr ← wait_for 0x01 s.lsr; read_io (record s { lsr = lsr })

unfoldable pub uart_puts : List ℕ → Uart → Run Uart
uart_puts [] s = ok s
uart_puts (c ∷ cs) s = do
  s1 ← (if c == b'\n' then uart_send b'\r' s else ok s)
  s2 ← uart_send c s1
  uart_puts cs s2

-- `if (idx >= MAX_BUF_SIZE) idx = 0;`
abbrev pub wrap : ℕ → ℕ
wrap idx = if leb max_buf_size idx then 0 else idx

-- `buffer[widx++] = c`, and the wrap: an index outside the array is a fault.
unfoldable pub put_char : ℕ → Ring → Run Ring
put_char c q =
    if ltb q.widx max_buf_size
    then ok (record q { buffer = update q.buffer q.widx c; widx = wrap (q.widx + 1) })
    else fault

-- `buffer[ridx++]`, and the wrap.
unfoldable pub take_char : Ring → Run (ℕ × Ring)
take_char q =
    if ltb q.ridx max_buf_size
    then ok (q.buffer q.ridx, record q { ridx = wrap (q.ridx + 1) })
    else fault

unfoldable pub uart_interrupt_r_handler : Uart → Run Uart
uart_interrupt_r_handler s = elim ((s.rx.widx + 1) % 2 ^ 32 % max_buf_size == s.rx.ridx) [
  | true ↦ ok (enable_uart_r_interrupt s)
  | false ↦ do
    (r, s1) ← read_io s
    rx ← put_char (newline r) s1.rx
    ok (enable_uart_r_interrupt (record s1 { rx = rx }))
]

unfoldable pub uart_interrupt_w_handler : Uart → Run Uart
uart_interrupt_w_handler s = elim (s.tx.ridx == s.tx.widx) [
  | true ↦ ok (disable_uart_w_interrupt s)
  | false ↦ do
    (c, tx) ← take_char s.tx
    ok (enable_uart_w_interrupt (write_io c (record s { tx = tx })))
]

-- There is no test whether the ring is full.
unfoldable pub async_uart_send : ℕ → Uart → Run Uart
async_uart_send c s = do tx ← put_char c s.tx; ok (enable_uart_w_interrupt (record s { tx = tx }))

unfoldable pub async_uart_puts : List ℕ → Uart → Run Uart
async_uart_puts [] s = ok s
async_uart_puts (c ∷ cs) s = do
  s1 ← (if c == b'\n' then async_uart_send b'\r' s else ok s)
  s2 ← async_uart_send c s1
  async_uart_puts cs s2

unfoldable pub async_uart_getc : Uart → Run (ℕ × Uart)
async_uart_getc s = elim (s.rx.ridx == s.rx.widx) [
  | true ↦ ok (0, s)
  | false ↦ do (r, rx) ← take_char s.rx; ok (r, record s { rx = rx })
]
