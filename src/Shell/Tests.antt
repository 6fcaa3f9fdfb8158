-- ===== src/Shell/Tests.antt =====
-- The commands of lib/shell.c at a small system, and runs of its editor.
use bare_metal_os_kernel.Base.{
  ltb, if◌then◌else◌, fault, ℕ, ◌≡◌, refl, none, some, List, [], ◌∷◌, ◌++◌, ok, Returns, arith,
}
use bare_metal_os_kernel.Base.{pos}
use bare_metal_os_kernel.Strings.{strlen, strlen_loop}
use bare_metal_os_kernel.Strings.Tokens.{cleared}
use bare_metal_os_kernel.Vfs.{Vfs}
use bare_metal_os_kernel.Vfs.Routes.{path_of}
use bare_metal_os_kernel.Vfs.Calls.{vfs_open}
use bare_metal_os_kernel.Vfs.Handles.{Handed, vfs_open-Handed}
use bare_metal_os_kernel.Vfs.Sample.{
  one_file, file-Route, file_name, file_name-IsName, file_node, file_regular, file_size,
  file_content, system_of,
}
use bare_metal_os_kernel.Syscalls.{Given}
use bare_metal_os_kernel.Syscalls.Sample.{with_store, given}
use bare_metal_os_kernel.Shell.{Shell, Places, append_char, edit_line, shell}
use bare_metal_os_kernel.Shell.Line.{Keys}
use bare_metal_os_kernel.Shell.Commands.{opened, Called, Ran, shell-Called}

-- A line of 99 characters at 500.
abbrev full_line : ℕ → ℕ
full_line a = if ltb a 599 then b'x' else 0

abbrev places : Places
places = record { input = 500; archive = 0xe00000; buffer = 800; files = 1 }

abbrev start : Shell
start = record {
  system = with_store one_file;
  tokens = cleared;
  watchdog = record { rstc = 0; wdog = 0 };
}

abbrev more_fuel : Given
more_fuel = record given { fuel = 20 }

-- "opem", a correction, and "n /a".
abbrev keys : List ℕ
keys = b'o' ∷ b'p' ∷ b'e' ∷ b'm' ∷ 0x7f ∷ b'n' ∷ b' ' ∷ b'/' ∷ b'a' ∷ []

keys-Keys : Keys keys
keys-Keys = (
  omega arith,
  omega arith,
  (
    omega arith,
    omega arith,
    (
      omega arith,
      omega arith,
      (
        omega arith,
        omega arith,
        (
          omega arith,
          omega arith,
          (
            omega arith,
            omega arith,
            (omega arith, omega arith, (omega arith, omega arith, (omega arith, omega arith, tt))),
          ),
        ),
      ),
    ),
  ),
)

open_call :
    Returns
      (λ (r, file, v').
        (r ≡ pos 0)
        × (file ≡ some one_file.next)
        × Handed 14 15 0 64 (λ _. 0) (system_of one_file) v')
      (vfs_open 20 (pos 0) (path_of (file_name ∷ [])) 64 none (system_of one_file))
open_call =
    vfs_open-Handed 20 (pos 0) file_name [] 7 14 15 0 64 (λ _. 0) none (system_of one_file) refl
      (file_name-IsName, tt) file-Route (omega arith) file_node file_regular file_size file_content

abbrev after_open : Vfs
after_open = open_call.0.2

open-Called : Called more_fuel opened (b'/' ∷ file_name) start.system.vfs after_open
open-Called = (open_call.0.0, open_call.0.1, open_call.1)

shell-Called_example :
    Returns (Ran 500 after_open) (shell more_fuel places (keys ++ b'\n' ∷ []) start)
shell-Called_example =
    shell-Called more_fuel places opened (b'/' ∷ file_name) keys start after_open (omega arith)
      (omega arith) (omega arith) keys-Keys refl (omega arith, (omega arith, tt)) refl refl
      open-Called

-- The 0 behind the hundredth character does not fit.
long_line : append_char 200 500 b'x' full_line ≡ fault
unfolding append_char strlen strlen_loop
long_line = refl

-- A correction of an empty line changes nothing.
edit_line-empty : edit_line 2 500 0x7f (λ _. 0) ≡ ok (λ _. 0)
unfolding edit_line strlen strlen_loop
edit_line-empty = refl
