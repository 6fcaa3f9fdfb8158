-- ===== src/Shell/Line.antt =====
-- The line that lib/shell.c reads, its corrections included.
use bare_metal_os_kernel.Base.{
  elim_true, ℕ, ◌+◌, ◌-◌, ◌≤◌, ◌<◌, ◌≡◌, ◌≢◌, refl, sym, subst, ◌∙◌, List, [], ◌∷◌, ◌++◌, length,
  length-append, ok, Returns, ltb, lt→ltb, ◌==◌, eq→==, ne→==, Bool-cases, if◌then◌else◌, update,
  arith, inl, inr,
}
use bare_metal_os_kernel.Strings.{pop_str}
use bare_metal_os_kernel.Strings.Stored.{Stored, strlen-Stored}
use bare_metal_os_kernel.Strings.Append.{
  appended, Stored-appended, append_str-appended, appended-far,
}
use bare_metal_os_kernel.Syscalls.{Given}
use bare_metal_os_kernel.Shell.{
  Shell, Places, reads_on, shell, shell_key, append_char, edit_line, with_memory, buf_max_size,
}

abbrev pub drop_last : List ℕ → List ℕ
drop_last [] = []
drop_last (x ∷ []) = []
drop_last (x ∷ y ∷ ys) = x ∷ drop_last (y ∷ ys)

-- The line after one more key, and after all of them.
abbrev pub edit : (line : List ℕ) → (key : ℕ) → List ℕ
edit line key = if key == 0x7f then drop_last line else line ++ key ∷ []

abbrev pub edited : (line keys : List ℕ) → List ℕ
edited line [] = line
edited line (key ∷ keys) = edited (edit line key) keys

-- Keys that do not end the line, and that are not 0.
abbrev pub Keys : List ℕ → Type 0
Keys [] = Unit {0}
Keys (c ∷ cs) = (c ≢ 0) × (c ≢ b'\n') × Keys cs

Stored-drop_last :
    (mem : ℕ → ℕ) (a x : ℕ) (xs : List ℕ)
    → Stored mem a (x ∷ xs)
    → Stored (update mem (a + length (x ∷ xs) - 1) 0) a (drop_last (x ∷ xs))
Stored-drop_last mem a x [] h = rw (eq→== (a + 1 - 1) a (omega arith)) refl
Stored-drop_last mem a x (y ∷ ys) (e, n, h) =
    let at : a + 1 + length (y ∷ ys) - 1 ≡ a + length (x ∷ y ∷ ys) - 1 = omega arith in
    (
      rw (ne→== (a + length (x ∷ y ∷ ys) - 1) a (omega arith)) e,
      n,
      subst (λ p. Stored (update mem p 0) (a + 1) (drop_last (y ∷ ys))) at
          (Stored-drop_last mem (a + 1) y ys h),
    )

-- The line stands in memory, and below it nothing has changed.
pub record Line (input : ℕ) (line : List ℕ) (mem mem' : ℕ → ℕ) : Type 0 where
  pub stored : Stored mem' input line
  pub below : (x : ℕ) → x < input → mem' x ≡ mem x

edit_back :
    (fuel input : ℕ) (line : List ℕ) (mem : ℕ → ℕ)
    → length line < fuel
    → Stored mem input line
    → Returns (Line input (drop_last line) mem) (edit_line fuel input 0x7f mem)
unfolding edit_line pop_str
edit_back fuel input [] mem lt h = (
  mem,
  rw (edit_line, strlen-Stored fuel mem input [] lt h) refl,
  record { stored = h; below = λ x l. refl },
)
edit_back fuel input (c ∷ cs) mem lt h =
    let popped : pop_str fuel mem input ≡ ok (update mem (input + length (c ∷ cs) - 1) 0) =
      rw (pop_str, strlen-Stored fuel mem input (c ∷ cs) lt h) refl in
    (
      update mem (input + length (c ∷ cs) - 1) 0,
      rw (edit_line, strlen-Stored fuel mem input (c ∷ cs) lt h)
          (elim_true (ltb 0 (length (c ∷ cs))) _ _ (lt→ltb 0 (length (c ∷ cs)) (omega arith))
            ∙ popped),
      record {
        stored = Stored-drop_last mem input c cs h;
        below = λ x l. rw (ne→== (input + length (c ∷ cs) - 1) x (omega (arith, l))) refl;
      },
    )

append_char-appended :
    (fuel input c : ℕ) (line : List ℕ) (mem : ℕ → ℕ)
    → length line < fuel
    → length line + 1 < buf_max_size
    → Stored mem input line
    → append_char fuel input c mem ≡ ok (appended mem input (length line) c)
unfolding append_char
append_char-appended fuel input c line mem lt room h =
    rw (append_char, strlen-Stored fuel mem input line lt h)
      (elim_true (ltb (length line + 1) buf_max_size) _ _
          (lt→ltb (length line + 1) buf_max_size room)
        ∙ append_str-appended fuel input c mem line lt h)

edit_line-Line :
    (fuel input c : ℕ) (line : List ℕ) (mem : ℕ → ℕ)
    → length line < fuel
    → length line + 1 < buf_max_size
    → c ≢ 0
    → Stored mem input line
    → Returns (Line input (edit line c) mem) (edit_line fuel input c mem)
unfolding edit_line
edit_line-Line fuel input c line mem lt room ne h = elim (Bool-cases (c == 0x7f)) [
  | inl back ↦
      let is : c ≡ 0x7f = ground (arith, back) in
      subst (λ k. Returns (Line input (edit line k) mem) (edit_line fuel input k mem)) (sym is)
        (edit_back fuel input line mem lt h)
  | inr other ↦ (
    appended mem input (length line) c,
    rw (edit_line, other) (append_char-appended fuel input c line mem lt room h),
    record {
      stored = rw other (Stored-appended mem input c line ne h);
      below =
          λ x l. appended-far mem input (length line) c x (length line + 1) (omega arith) (inl l);
    },
  )
]

length-drop_last : (line : List ℕ) → length (drop_last line) ≤ length line
length-drop_last [] = omega arith
length-drop_last (x ∷ []) = omega arith
length-drop_last (x ∷ y ∷ ys) = omega (arith, length-drop_last (y ∷ ys))

length-edit : (line : List ℕ) (c : ℕ) → length (edit line c) ≤ length line + 1
length-edit line c = elim (Bool-cases (c == 0x7f)) [
  | inl back ↦ rw back (omega (arith, length-drop_last line))
  | inr other ↦ rw other (omega (arith, length-append line (c ∷ [])))
]

shell_key-edit_line :
    (k : Given) (places : Places) (c : ℕ) (s : Shell) (mem : ℕ → ℕ)
    → c ≢ b'\n'
    → edit_line k.fuel places.input c s.system.mem ≡ ok mem
    → shell_key k places c s ≡ ok (reads_on, with_memory mem s.tokens s)
unfolding shell_key
shell_key-edit_line k places c s mem ne e = rw (shell_key, ne→== c b'\n' ne) (rw e refl)

-- From a line in memory, keys other than the end of the line and 0 make the shell go on with the keys
-- behind them at a line that results when each of them is put at the end and 0x7f takes the last
-- one off, as far as there is one. The line and the keys are shorter together than the buffer. Below the line nothing changes, and nothing but memory does.
pub shell-Line :
    (k : Given) (places : Places) (line keys more : List ℕ) (s : Shell)
    → length line + length keys < k.fuel
    → length line + length keys < buf_max_size
    → Keys keys
    → Stored s.system.mem places.input line
    → (mem : ℕ → ℕ) × (shell k places (keys ++ more) s
        ≡ shell k places more (with_memory mem s.tokens s))
      × Line places.input (edited line keys) s.system.mem mem
unfolding shell with_memory
shell-Line k places line [] more s lt room keys h =
    (s.system.mem, refl, record { stored = h; below = λ x l. refl })
shell-Line k places line (c ∷ cs) more s lt room (ne, no_end, keys) h =
    let (mem, run, one) =
      edit_line-Line k.fuel places.input c line s.system.mem (omega (arith, lt))
        (omega (arith, room)) ne h in
    let (mem', all, rest) =
      shell-Line k places (edit line c) cs more (with_memory mem s.tokens s)
        (omega (arith, lt, length-edit line c)) (omega (arith, room, length-edit line c)) keys
        one.stored in
    (
      mem',
      rw (shell, shell_key-edit_line k places c s mem no_end run) all,
      record { stored = rest.stored; below = λ x l. rest.below x l ∙ one.below x l },
    )
