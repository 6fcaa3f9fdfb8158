-- ===== src/Reboot.antt =====
-- The watchdog of lib/reboot.c: its two registers, of 32 bits, hold what was written last.
use Prim.Native.Nat.{bit_or}
use bare_metal_os_kernel.Base.{ℕ, ◌^◌, ◌%◌}

pub record Watchdog : Type 0 where
  pub rstc : ℕ
  pub wdog : ℕ

abbrev pub pm_password : ℕ
pm_password = 0x5a000000

-- `tick` is an `int`, as its 32-bit pattern.
unfoldable pub reset : (tick : ℕ) → Watchdog → Watchdog
reset tick w = record { rstc = bit_or pm_password 0x20; wdog = bit_or pm_password (tick % 2 ^ 32) }

unfoldable pub cancel_reset : Watchdog → Watchdog
cancel_reset w = record { rstc = bit_or pm_password 0; wdog = bit_or pm_password 0 }
