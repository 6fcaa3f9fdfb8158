-- ===== src/Files/Write.antt =====
-- `tmpfs_write` of lib/tmpfs.c on a file that is open.
use bare_metal_os_kernel.Base.{
  ℕ, ◌+◌, ◌-◌, ◌%◌, ◌^◌, ◌≤◌, ◌<◌, ◌≡◌, refl, sym, subst, ap, ◌∙◌, true, ◌&&◌, Option, none, some,
  Run, ok, Returns, ltb, leb, if◌then◌else◌, eq→==, Bool-cases, arith, inl, inr,
}
use bare_metal_os_kernel.Base.{ℤ, pos}
use bare_metal_os_kernel.Files.{
  Store, File, grow, write_at, write_able, move_content, set_file, tmpfs_write, tmpfs_max_file_size,
  to_int,
}
use bare_metal_os_kernel.Files.Bytes.{copy_bytes-pasted, pasted}
use bare_metal_os_kernel.Files.Content.{
  Behind, Opened, file_component-Opened, read_block-Behind, write_block-Behind, longer, Kept,
}

-- The size of a file of `len` bytes with room for what ends at `ideal`.
abbrev pub grown : (len ideal : ℕ) → ℕ
grown len ideal =
    if ltb len ideal && ltb len tmpfs_max_file_size
    then (if leb tmpfs_max_file_size ideal then tmpfs_max_file_size else ideal)
    else len

-- The component has grown, and the handles and nodes are as before.
record Grown (s : Store) (c len size : ℕ) (bytes : ℕ → ℕ) (s' : Store) : Type 0 where
  pub length_is : (s'.components c).len ≡ size
  pub content_is : Behind s' (s'.components c).content len size bytes
  pub type : (s'.components c).type ≡ (s.components c).type
  pub vnodes : s'.vnodes ≡ s.vnodes
  pub files : s'.files ≡ s.files

pasted_all :
    (dest old bytes : ℕ → ℕ) (len a : ℕ)
    → a < len
    → ((b : ℕ) → b < len → old b ≡ bytes b)
    → pasted dest 0 old len a ≡ bytes a
pasted_all dest old bytes len a lt same =
    let inside : (leb 0 a && ltb a (0 + len)) ≡ true = ground (arith, lt) in
    rw inside (ap old (omega arith) ∙ same a lt)

moved :
    (c size len : ℕ) (bytes old : ℕ → ℕ) (s : Store)
    → (s.components c).len ≡ len
    → ((a : ℕ) → a < len → old a ≡ bytes a)
    → Grown s c len size bytes (move_content c size old s)
moved c size len bytes old s e same = record {
  length_is = rw (eq→== c c refl) refl;
  content_is = rw (eq→== c c refl) (record {
    allocated = omega arith;
    enough = rw (eq→== s.next s.next refl) (omega arith);
    same = λ a lt.
        rw (eq→== s.next s.next refl, e)
          (copy_bytes-pasted (s.bytes s.next) 0 old len a
            ∙ pasted_all (s.bytes s.next) old bytes len a lt same);
  });
  type = rw (eq→== c c refl) refl;
  vnodes = refl;
  files = refl;
}

grow_own :
    (c ideal : ℕ) (bytes : ℕ → ℕ) (s : Store)
    → let len = (s.components c).len in
      Behind s (s.components c).content len len bytes
      → Returns (Grown s c len (grown len ideal) bytes) (grow c ideal s)
unfolding grow
grow_own c ideal bytes s h =
    let len = (s.components c).len in
    let size = if leb tmpfs_max_file_size ideal then tmpfs_max_file_size else ideal in
    elim (Bool-cases (ltb len ideal && ltb len tmpfs_max_file_size)) [
      | inr stays ↦ (
        s,
        rw (grow, stays) refl,
        rw stays
            (record { length_is = refl; content_is = h; type = refl; vnodes = refl; files = refl }),
      )
      | inl grows ↦
          let (old, run, same) =
            read_block-Behind len s (s.components c).content len len bytes (omega arith)
              (omega arith) h in
          (
            move_content c size old s,
            rw (grow, grows, run) refl,
            rw grows (moved c size len bytes old s refl same),
          )
    ]

grow-Grown :
    (c ideal len : ℕ) (bytes : ℕ → ℕ) (s : Store)
    → (s.components c).len ≡ len
    → Behind s (s.components c).content len len bytes
    → Returns (Grown s c len (grown len ideal) bytes) (grow c ideal s)
grow-Grown c ideal len bytes s e h =
    subst (λ l. Returns (Grown s c l (grown l ideal) bytes) (grow c ideal s)) e
      (grow_own c ideal bytes s
        (subst (λ l. Behind s (s.components c).content l l bytes) (sym e) h))

-- How many of `amount` bytes fit into the file behind position `at`.
abbrev pub fitting : (at amount : ℕ) → ℕ
fitting at amount =
    if leb amount (tmpfs_max_file_size - at) then amount else tmpfs_max_file_size - at

write_able-fitting :
    (at amount : ℕ)
    → at ≤ tmpfs_max_file_size
    → amount < 2 ^ 31
    → write_able at amount ≡ fitting at amount
write_able-fitting at amount le lt = ground arith

-- The file has grown to what is written.
grown-longer :
    (at amount len : ℕ)
    → at ≤ len
    → len ≤ tmpfs_max_file_size
    → amount < 2 ^ 31
    → grown len ((at + amount) % 2 ^ 64) ≡ longer len (at + fitting at amount)
grown-longer at amount len le max lt = ground arith

fits :
    (at amount len : ℕ)
    → at ≤ len
    → len ≤ tmpfs_max_file_size
    → amount < 2 ^ 31
    → (len ≤ grown len ((at + amount) % 2 ^ 64))
      × (at + fitting at amount ≤ grown len ((at + amount) % 2 ^ 64))
fits at amount len le max lt = (ground arith, ground arith)

pub to_int-pos : (n : ℕ) → n < 2 ^ 31 → to_int n ≡ pos n
to_int-pos n lt = ground arith

fitting-bound :
    (at amount : ℕ) → at ≤ tmpfs_max_file_size → at + fitting at amount ≤ tmpfs_max_file_size
fitting-bound at amount le = ground arith

pub Behind-set_file :
    (s : Store) (f : ℕ) (v : File) (content : Option ℕ) (len room : ℕ) (bytes : ℕ → ℕ)
    → Behind s content len room bytes
    → Behind (set_file f v s) content len room bytes
Behind-set_file s f v none len room bytes h = h
Behind-set_file s f v (some p) len room bytes h = record {
  allocated = h.allocated;
  enough = h.enough;
  same = h.same;
}

abbrev pub finished : (f end_pos : ℕ) → ℤ → Store → Run (ℤ × Store)
finished f end_pos r s = ok (r, set_file f (record (s.files f) { f_pos = end_pos }) s)

-- The end of `tmpfs_write`: the result is in the range of an `int`, and the position in that of a
-- `size_t`.
pub ends_with :
    (k f at : ℕ) (s : Store)
    → k < 2 ^ 31
    → at + k < 2 ^ 64
    → finished f ((at + k) % 2 ^ 64) (to_int k) s ≡ finished f (at + k) (pos k) s
ends_with k f at s lt in_range =
    let place : (at + k) % 2 ^ 64 ≡ at + k = omega (arith, in_range) in
    ap (λ p. finished f p (to_int k) s) place ∙ ap (λ i. finished f (at + k) i s) (to_int-pos k lt)

-- The file after its component has grown and its block is written.
written :
    (s s1 s2 : Store) (f n c len k : ℕ) (bytes new : ℕ → ℕ) (size end_pos : ℕ)
    → Opened s f n c len bytes
    → Grown s c len size bytes s1
    → Kept s1 s2
    → Behind s2 (s1.components c).content size size new
    → Opened (set_file f (record (s2.files f) { f_pos = end_pos }) s2) f n c size new
written s s1 s2 f n c len k bytes new size end_pos o g kept b = record {
  handle = rw (eq→== f f refl) (ap (λ t. (t f).vnode) (kept.files ∙ g.files) ∙ o.handle);
  node = ap (λ t. (t n).component) (kept.vnodes ∙ g.vnodes) ∙ o.node;
  regular = ap (λ t. (t c).type) kept.components ∙ g.type ∙ o.regular;
  length_is = ap (λ t. (t c).len) kept.components ∙ g.length_is;
  content_is =
      Behind-set_file s2 f _ (s2.components c).content size size new
        (subst (λ t. Behind s2 (t c).content size size new) (sym kept.components) b);
}

-- `tmpfs_write` of `amount` bytes to a file of at most 4096 bytes that is open at a position inside
-- it returns the number `k` of bytes that fit below 4096. The file then holds the first `k` bytes
-- of `buf` from that position on and its old bytes elsewhere, it is longer only if they end behind
-- its end, and the position is behind them.
pub tmpfs_write-Opened :
    (s : Store) (f n c len : ℕ) (bytes buf : ℕ → ℕ) (amount : ℕ)
    → Opened s f n c len bytes
    → (s.files f).f_pos ≤ len
    → len ≤ tmpfs_max_file_size
    → amount < 2 ^ 31
    → let at = (s.files f).f_pos in
      let k = fitting at amount in
      Returns
        (λ r.
          (r.0 ≡ pos k)
          × Opened r.1 f n c (longer len (at + k)) (pasted bytes at buf k)
          × ((r.1.files f).f_pos ≡ at + k))
        (tmpfs_write (some f) buf amount s)
unfolding tmpfs_write write_at
tmpfs_write-Opened s f n c len bytes buf amount o le max lt =
    let at = (s.files f).f_pos in
    let k = fitting at amount in
    let ideal = (at + amount) % 2 ^ 64 in
    let e = write_able-fitting at amount (omega (arith, le, max)) lt in
    let bound = fitting-bound at amount (omega (arith, le, max)) in
    let (s1, run1, g) = grow-Grown c ideal len bytes s o.length_is o.content_is in
    let (enough, ends) = fits at amount len le max lt in
    let (s2, run2, (b, kept)) =
      write_block-Behind k (s1.components c).content at buf s1 len (grown len ideal) bytes le enough
        ends g.content_is in
    let size : grown len ideal ≡ longer len (at + k) = grown-longer at amount len le max lt in
    (
      (pos k, set_file f (record (s2.files f) { f_pos = at + k }) s2),
      rw (tmpfs_write, file_component-Opened s f n c len bytes o, write_at, e, run1, run2)
          (ends_with k f at s2 (omega (arith, bound)) (omega (arith, bound))),
      (
        refl,
        written s s1 s2 f n c len k bytes (pasted bytes at buf k) (longer len (at + k)) (at + k) o
            (subst (λ z. Grown s c len z bytes s1) size g) kept
            (subst
              (λ z.
                Behind s2 (s1.components c).content (longer len (at + k)) z (pasted bytes at buf k))
              size b),
        rw (eq→== f f refl) refl,
      ),
    )
