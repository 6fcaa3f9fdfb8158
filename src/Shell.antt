-- ===== src/Shell.antt =====
-- The command loop of lib/shell.c. The line stands in memory at `input`; a character that is not
-- taken is printed only. `shell_key` is one round of the loop. Behind the words of a line
-- `spilt_strings` puts a NULL into the array.
pub mod Line
pub mod Commands
mod Tests
use bare_metal_os_kernel.Base.{
  length, ◌+◌, ℕ, zero, suc, ◌+◌, Bool, true, false, ◌&&◌, not, Option, none, some, List, [], ◌∷◌,
  length, Run, ok, fault, ◌>>=◌, ltb, ◌==◌, if◌then◌else◌, update,
}
use bare_metal_os_kernel.Strings.Text.{c_string}
use bare_metal_os_kernel.Strings.{strlen, append_str, pop_str}
use bare_metal_os_kernel.Strings.Tokens.{Tokens, spilt_strings}
use bare_metal_os_kernel.Files.Directory.{same_name}
use bare_metal_os_kernel.Scheduler.{user}
use bare_metal_os_kernel.Scheduler.Control.{task_create}
use bare_metal_os_kernel.Reboot.{Watchdog, reset}
use bare_metal_os_kernel.Vfs.{Vfs}
use bare_metal_os_kernel.Vfs.Calls.{vfs_open, vfs_mkdir}
use bare_metal_os_kernel.Vfs.Mount.{vfs_mount, tmpfs_name}
use bare_metal_os_kernel.Cpio.{load_program}
use bare_metal_os_kernel.Syscalls.{System, Given}

abbrev pub buf_max_size : ℕ
buf_max_size = 100

abbrev pub buf_arg_size : ℕ
buf_arg_size = 100

pub record Shell : Type 0 where
  pub system : System
  pub tokens : Tokens
  pub watchdog : Watchdog

-- The addresses of the line, of the archive and of the buffer of `read_header`, and how many files
-- the archive has at most.
pub record Places : Type 0 where
  pub input : ℕ
  pub archive : ℕ
  pub buffer : ℕ
  pub files : ℕ

-- `run` goes over into `idle_thread`, which does not return; after the others the shell reads on,
-- also after `reboot`, until the watchdog expires.
pub data Then : Type 0 where
  reads_on idles : Then

pub data Command : Type 0 where
  help reboot ls cat run mkdir opens mount dd unknown : Command

unfoldable pub command_of : List ℕ → Command
command_of name =
    if same_name name (b'h' ∷ b'e' ∷ b'l' ∷ b'p' ∷ [])
    then help
    else if same_name name (b'r' ∷ b'e' ∷ b'b' ∷ b'o' ∷ b'o' ∷ b't' ∷ [])
    then reboot
    else if same_name name (b'l' ∷ b's' ∷ [])
    then ls
    else if same_name name (b'c' ∷ b'a' ∷ b't' ∷ [])
    then cat
    else if same_name name (b'r' ∷ b'u' ∷ b'n' ∷ [])
    then run
    else if same_name name (b'm' ∷ b'k' ∷ b'd' ∷ b'i' ∷ b'r' ∷ [])
    then mkdir
    else if same_name name (b'o' ∷ b'p' ∷ b'e' ∷ b'n' ∷ [])
    then opens
    else if same_name name (b'm' ∷ b'o' ∷ b'u' ∷ b'n' ∷ b't' ∷ [])
    then mount
    else if same_name name (b'd' ∷ b'd' ∷ [])
    then dd
    else unknown

abbrev pub program_name : List ℕ
program_name = b'v' ∷ b'f' ∷ b's' ∷ b'1' ∷ b'.' ∷ b'i' ∷ b'm' ∷ b'g' ∷ []

-- `if(addr != 0)`
unfoldable pub start_program : Given → (addr : ℕ) → Shell → Run (Then × Shell)
start_program k addr s = elim (addr == 0) [
  | true ↦ ok (reads_on, s)
  | false ↦ do
    (t, scheduler) ←
        task_create k.fuel k.switch_to_user_space addr user k.resources s.system.scheduler
    ok (idles, record s { system = record (s.system) { scheduler = scheduler } })
]

-- `args[1]`, where `rest` are the words behind the first one.
abbrev pub first_of : (rest : List ℕ) → Option ℕ
first_of [] = none
first_of (p ∷ ps) = some p

-- The string that a pointer leads to.
unfoldable pub string_at : (fuel : ℕ) → (pointer : Option ℕ) → (mem : ℕ → ℕ) → Run (List ℕ)
string_at fuel none mem = fault
string_at fuel (some p) mem = c_string fuel mem p

abbrev pub with_vfs : Vfs → Shell → Shell
with_vfs v s = record s { system = record (s.system) { vfs = v } }

-- `argument` is `args[1]`.
unfoldable pub execute :
    Given → Places → Command → (argument : Option ℕ) → Shell → Run (Then × Shell)
execute k places help argument s = ok (reads_on, s)
execute k places reboot argument s = ok (reads_on, record s { watchdog = reset 300 s.watchdog })
execute k places ls argument s = ok (reads_on, s)
execute k places cat argument s = ok (reads_on, s)
execute k places run argument s = do
  (addr, mem) ←
      load_program places.files k.fuel places.buffer places.archive program_name s.system.mem
  start_program k addr (record s { system = record (s.system) { mem = mem } })
execute k places mkdir argument s = do
  path ← string_at k.fuel argument s.system.mem
  (r, v) ← vfs_mkdir k.fuel (k.i 0) path s.system.vfs
  ok (reads_on, with_vfs v s)
execute k places opens argument s = do
  path ← string_at k.fuel argument s.system.mem
  (r, file, v) ← vfs_open k.fuel (k.i 0) path 0o100 none s.system.vfs
  ok (reads_on, with_vfs v s)
execute k places mount argument s = do
  path ← string_at k.fuel argument s.system.mem
  (r, v) ← vfs_mount k.fuel k.i k.archive path tmpfs_name s.system.vfs
  ok (reads_on, with_vfs v s)
execute k places dd argument s = ok (reads_on, s)
execute k places unknown argument s = ok (reads_on, s)

-- The character and the 0 behind it: beyond the end of the buffer there is a fault.
unfoldable pub append_char : (fuel input read : ℕ) → (mem : ℕ → ℕ) → Run (ℕ → ℕ)
append_char fuel input read mem = do
  len ← strlen fuel mem input
  elim (ltb (len + 1) buf_max_size) [ true ↦ append_str fuel mem input read | false ↦ fault ]

-- A character other than the end of the line: 0x7f takes the last character of the line off.
unfoldable pub edit_line : (fuel input read : ℕ) → (mem : ℕ → ℕ) → Run (ℕ → ℕ)
edit_line fuel input read mem = elim (read == 0x7f) [
  | false ↦ append_char fuel input read mem
  | true ↦ do
    len ← strlen fuel mem input
    elim (ltb 0 len) [ true ↦ pop_str fuel mem input | false ↦ ok mem ]
]

unfoldable pub with_memory : (mem : ℕ → ℕ) → (tokens : Tokens) → Shell → Shell
with_memory mem tokens s = record s { system = record (s.system) { mem = mem }; tokens = tokens }

-- `input[0] = 0` after the command; after a line without words nothing is done.
unfoldable pub run_words : Given → Places → (args : List ℕ) → Shell → Run (Then × Shell)
run_words k places [] s = ok (reads_on, s)
run_words k places (a ∷ rest) s = do
  name ← c_string k.fuel s.system.mem a
  (after, s1) ← execute k places (command_of name) (first_of rest) s
  ok (after, with_memory (update s1.system.mem places.input 0) s1.tokens s1)

-- The array of pointers has to hold the NULL behind the words too.
unfoldable pub run_line : Given → Places → Shell → Run (Then × Shell)
run_line k places s = do
  (args, mem, tokens) ← spilt_strings k.fuel places.input (b' ' ∷ []) s.system.mem s.tokens
  elim (ltb (length args) buf_arg_size) [
    | true ↦ run_words k places args (with_memory mem tokens s)
    | false ↦ fault
  ]

-- One round of the loop, on the character that `uart_getc` has returned.
unfoldable pub shell_key : Given → Places → (read : ℕ) → Shell → Run (Then × Shell)
shell_key k places read s = elim (read == b'\n') [
  | true ↦ run_line k places s
  | false ↦ do
    mem ← edit_line k.fuel places.input read s.system.mem
    ok (reads_on, with_memory mem s.tokens s)
]

-- The rounds for these characters, as far as the shell reads on.
unfoldable pub shell : Given → Places → (keys : List ℕ) → Shell → Run (Then × Shell)
shell k places [] s = ok (reads_on, s)
shell k places (c ∷ cs) s = do
  (after, s1) ← shell_key k places c s
  elim after [ reads_on ↦ shell k places cs s1 | idles ↦ ok (idles, s1) ]
