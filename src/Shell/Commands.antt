-- ===== src/Shell/Commands.antt =====
-- What the commands of lib/shell.c on files do to the file system.
use bare_metal_os_kernel.Base.{
  ℕ, ◌+◌, ◌<◌, ◌≡◌, refl, subst, ap, ◌∙◌, Option, none, some, List, [], ◌∷◌, ◌++◌, length,
  length-append, ok, Returns, eq→==, update, arith,
}
use bare_metal_os_kernel.Strings.Text.{c_string, c_string-Stored}
use bare_metal_os_kernel.Base.{ℤ}
use bare_metal_os_kernel.Strings.Stored.{Stored}
use bare_metal_os_kernel.Strings.Tokens.{cleared, split, spilt_strings}
use bare_metal_os_kernel.Strings.Tokens.Split.{
  AllStored, Free, split-Free, split-Cut, spilt_strings-split,
}
use bare_metal_os_kernel.Vfs.{Vfs}
use bare_metal_os_kernel.Vfs.Calls.{vfs_open, vfs_mkdir}
use bare_metal_os_kernel.Vfs.Mount.{vfs_mount, tmpfs_name}
use bare_metal_os_kernel.Syscalls.{Given}
use bare_metal_os_kernel.Shell.{
  Shell, Places, Then, reads_on, command_of, execute, string_at, run_words, run_line, shell,
  shell_key, with_memory, with_vfs, buf_max_size,
}
use bare_metal_os_kernel.Shell.Line.{Keys, edited, shell-Line}

-- The commands on files: the word, and the call of lib/vfs.c with its result.
pub data FileCommand : Type 0 where
  makes opened mounts : FileCommand

abbrev pub word_of : FileCommand → List ℕ
word_of makes = b'm' ∷ b'k' ∷ b'd' ∷ b'i' ∷ b'r' ∷ []
word_of opened = b'o' ∷ b'p' ∷ b'e' ∷ b'n' ∷ []
word_of mounts = b'm' ∷ b'o' ∷ b'u' ∷ b'n' ∷ b't' ∷ []

abbrev pub Called : Given → FileCommand → (path : List ℕ) → (v v' : Vfs) → Type 0
Called k makes path v v' = (r : ℤ) × (vfs_mkdir k.fuel (k.i 0) path v ≡ ok (r, v'))
Called k opened path v v' =
    (r : ℤ) × (file : Option ℕ) × (vfs_open k.fuel (k.i 0) path 0o100 none v ≡ ok (r, file, v'))
Called k mounts path v v' =
    (r : ℤ) × (vfs_mount k.fuel k.i k.archive path tmpfs_name v ≡ ok (r, v'))

execute-Called :
    (k : Given) (places : Places) (f : FileCommand) (path : List ℕ) (q : ℕ) (s : Shell) (v : Vfs)
    → c_string k.fuel s.system.mem q ≡ ok path
    → Called k f path s.system.vfs v
    → execute k places (command_of (word_of f)) (some q) s ≡ ok (reads_on, with_vfs v s)
unfolding execute string_at command_of
execute-Called k places makes path q s v e (r, call) = rw (execute, string_at, e) (rw call refl)
execute-Called k places opened path q s v e (r, file, call) =
    rw (execute, string_at, e) (rw call refl)
execute-Called k places mounts path q s v e (r, call) = rw (execute, string_at, e) (rw call refl)

two_words :
    (mem : ℕ → ℕ) (ps : List ℕ) (a b : List ℕ)
    → AllStored mem ps (a ∷ b ∷ [])
    → (p : ℕ) × (q : ℕ) × (ps ≡ p ∷ q ∷ []) × Stored mem p a × Stored mem q b
two_words mem [] a b h = elim h [ ]
two_words mem (p ∷ []) a b (x, h) = elim h [ ]
two_words mem (p ∷ q ∷ []) a b (x, (y, h)) = (p, q, refl, x, y)
two_words mem (p ∷ q ∷ r ∷ rs) a b (x, (y, h)) = elim h [ ]

word-Free : (f : FileCommand) → Free b' ' (word_of f)
word-Free makes = (omega arith, (omega arith, (omega arith, (omega arith, (omega arith, tt)))))
word-Free opened = (omega arith, (omega arith, (omega arith, (omega arith, tt))))
word-Free mounts = (omega arith, (omega arith, (omega arith, (omega arith, (omega arith, tt)))))

-- The word, a blank and the path.
abbrev pub line_of : FileCommand → (path : List ℕ) → List ℕ
line_of f path = word_of f ++ b' ' ∷ path

-- After a command the shell reads on with this file system and an empty line.
abbrev pub Ran : (input : ℕ) → (v : Vfs) → Then × Shell → Type 0
Ran input v (after, s) =
    (after ≡ reads_on) × (s.system.vfs ≡ v) × Stored s.system.mem input [] × (s.tokens ≡ cleared)

run_line-Called :
    (k : Given) (places : Places) (f : FileCommand) (path : List ℕ) (mem : ℕ → ℕ) (s : Shell)
    (v : Vfs)
    → length (line_of f path) + 1 < k.fuel
    → Free b' ' path
    → Stored mem places.input (line_of f path)
    → Called k f path s.system.vfs v
    → Returns (Ran places.input v) (run_line k places (with_memory mem cleared s))
unfolding run_line run_words with_memory
run_line-Called k places f path mem s v lt free h call =
    let size = length-append (word_of f) (b' ' ∷ path) in
    let words : split b' ' (line_of f path) ≡ word_of f ∷ path ∷ [] =
      split-Cut b' ' (word_of f) path (word-Free f)
      ∙ ap (λ ws. word_of f ∷ ws) (split-Free b' ' path free) in
    let ((ps, mem1, t), run, (all, empty, below)) =
      spilt_strings-split k.fuel b' ' places.input mem (line_of f path) (omega arith) lt h in
    let (p, q, pointers, word_at, path_at) =
      two_words mem1 ps (word_of f) path (subst (AllStored mem1 ps) words all) in
    let spilt : spilt_strings k.fuel places.input (b' ' ∷ []) mem cleared
        ≡ ok (p ∷ q ∷ [], mem1, cleared) =
      run ∙ ap (λ xs. ok (xs, mem1, t)) pointers ∙ ap (λ x. ok (p ∷ q ∷ [], mem1, x)) empty in
    let s1 = with_memory mem1 cleared s in
    let done =
      execute-Called k places f path q s1 v
        (c_string-Stored k.fuel mem1 q path (omega (arith, lt, size)) path_at) call in
    (
      (reads_on, with_memory (update mem1 places.input 0) cleared (with_vfs v s1)),
      rw (run_line, spilt)
          (rw
            (run_words, c_string-Stored k.fuel mem1 p (word_of f) (omega (arith, lt, size)) word_at)
            (rw done refl)),
      (refl, refl, rw (eq→== places.input places.input refl) refl, refl),
    )

-- From an empty line, and with `strtok` as it is at the start, less than BUF_MAX_SIZE keys that make up the line of the
-- word mkdir, open or mount, a blank and a path without blanks, corrections by 0x7f included, and
-- then the end of the line, have the effect on the file system that vfs_mkdir, vfs_open with the
-- flag to create, or vfs_mount of tmpfs has on it with this path, where the call returns. The shell
-- reads on, with an empty line and `strtok` as at the start.
pub shell-Called :
    (k : Given) (places : Places) (f : FileCommand) (path keys : List ℕ) (s : Shell) (v : Vfs)
    → length keys < k.fuel
    → length keys < buf_max_size
    → length (line_of f path) + 1 < k.fuel
    → Keys keys
    → edited [] keys ≡ line_of f path
    → Free b' ' path
    → s.tokens ≡ cleared
    → Stored s.system.mem places.input []
    → Called k f path s.system.vfs v
    → Returns (Ran places.input v) (shell k places (keys ++ b'\n' ∷ []) s)
unfolding shell shell_key
shell-Called k places f path keys s v short room lt keys_ok line free start h call =
    let (mem, run, typed) =
      shell-Line k places [] keys (b'\n' ∷ []) s (omega (arith, short)) (omega (arith, room))
        keys_ok h in
    let ((after, s'), ran, (on, is_v, empty, ready)) =
      run_line-Called k places f path mem s v lt free
        (subst (Stored mem places.input) line typed.stored) call in
    let entered : run_line k places (with_memory mem s.tokens s) ≡ ok (reads_on, s') =
      ap (λ t. run_line k places (with_memory mem t s)) start ∙ ran ∙ ap (λ a. ok (a, s')) on in
    ((reads_on, s'), run ∙ rw (shell, shell_key, entered) refl, (refl, is_v, empty, ready))
