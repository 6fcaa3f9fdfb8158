-- ===== src/Files/Read.antt =====
-- `tmpfs_read` and `tmpfs_open` of lib/tmpfs.c.
use bare_metal_os_kernel.Base.{
  ℕ, ◌+◌, ◌-◌, ◌%◌, ◌^◌, ◌≤◌, ◌<◌, ◌≡◌, refl, subst, ap, ◌∙◌, true, ◌&&◌, Option, none, some, Run,
  ok, ◌>>=◌, Returns, ltb, leb, if◌then◌else◌, eq→==, Bool-cases, update, arith, inl, inr,
}
use bare_metal_os_kernel.Base.{ℤ, pos}
use bare_metal_os_kernel.Files.{
  Store, read_able, tmpfs_read, tmpfs_write, tmpfs_open, tmpfs_max_file_size, to_int, copy_bytes,
  set_file,
}
use bare_metal_os_kernel.Files.Bytes.{copy_bytes-pasted, pasted}
use bare_metal_os_kernel.Files.Content.{
  Behind, Opened, file_component-Opened, read_block-Behind, longer,
}
use bare_metal_os_kernel.Files.Write.{Behind-set_file, to_int-pos, fitting, tmpfs_write-Opened}

-- How many of `amount` bytes stand between position `at` and the end of a file of `len` bytes.
abbrev pub left : (at len amount : ℕ) → ℕ
left at len amount = if leb amount (len - at) then amount else len - at

read_able-left :
    (at len amount : ℕ)
    → at ≤ len
    → len ≤ tmpfs_max_file_size
    → amount < 2 ^ 31
    → read_able at len amount ≡ left at len amount
read_able-left at len amount le max lt = ground arith

left-bound : (at len amount : ℕ) → at ≤ len → at + left at len amount ≤ len
left-bound at len amount le = ground arith

pasted-copied :
    (buf old bytes : ℕ → ℕ) (n a : ℕ)
    → ((b : ℕ) → b < n → old b ≡ bytes b)
    → pasted buf 0 old n a ≡ pasted buf 0 bytes n a
pasted-copied buf old bytes n a same = elim (Bool-cases (leb 0 a && ltb a (0 + n))) [
  | inl e ↦ rw e (same (a - 0) (ground arith))
  | inr e ↦ rw e refl
]

Opened-set_file :
    (s : Store) (f n c len end_pos : ℕ) (bytes : ℕ → ℕ)
    → Opened s f n c len bytes
    → Opened (set_file f (record (s.files f) { f_pos = end_pos }) s) f n c len bytes
Opened-set_file s f n c len end_pos bytes o = record {
  handle = rw (eq→== f f refl) o.handle;
  node = o.node;
  regular = o.regular;
  length_is = o.length_is;
  content_is = Behind-set_file s f _ (s.components c).content len len bytes o.content_is;
}

abbrev read_out : (f end_pos : ℕ) → ℤ → (ℕ → ℕ) → Store → Run (ℤ × (ℕ → ℕ) × Store)
read_out f end_pos r buf s = ok (r, buf, set_file f (record (s.files f) { f_pos = end_pos }) s)

ends_reading :
    (k f at : ℕ) (buf : ℕ → ℕ) (s : Store)
    → k < 2 ^ 31
    → at + k < 2 ^ 64
    → read_out f ((at + k) % 2 ^ 64) (to_int k) buf s ≡ read_out f (at + k) (pos k) buf s
ends_reading k f at buf s lt in_range =
    let place : (at + k) % 2 ^ 64 ≡ at + k = omega (arith, in_range) in
    ap (λ p. read_out f p (to_int k) buf s) place
    ∙ ap (λ i. read_out f (at + k) i buf s) (to_int-pos k lt)

-- `tmpfs_read` of `amount` bytes from a file of at most 4096 bytes that is open at a position
-- inside it returns the number `k` of bytes up to the end of the file, `amount` at most. It moves
-- the position behind them and leaves the file as it is, but the `k` bytes that it puts into `buf`
-- are those from the start of the file, not those from the position.
pub tmpfs_read-Opened :
    (s : Store) (f n c len : ℕ) (bytes buf : ℕ → ℕ) (amount : ℕ)
    → Opened s f n c len bytes
    → (s.files f).f_pos ≤ len
    → len ≤ tmpfs_max_file_size
    → amount < 2 ^ 31
    → let at = (s.files f).f_pos in
      let k = left at len amount in
      Returns
        (λ r.
          (r.0 ≡ pos k)
          × ((a : ℕ) → r.1 a ≡ pasted buf 0 bytes k a)
          × Opened r.2 f n c len bytes
          × ((r.2.files f).f_pos ≡ at + k))
        (tmpfs_read (some f) buf amount s)
unfolding tmpfs_read
tmpfs_read-Opened s f n c len bytes buf amount o le max lt =
    let at = (s.files f).f_pos in
    let k = left at len amount in
    let bound = left-bound at len amount le in
    let (old, run, same) =
      read_block-Behind k s (s.components c).content len len bytes (omega (arith, bound))
        (omega arith) o.content_is in
    let e = read_able-left at len amount le max lt in
    (
      (pos k, copy_bytes buf 0 old 0 k, set_file f (record (s.files f) { f_pos = at + k }) s),
      rw (tmpfs_read, file_component-Opened s f n c len bytes o, o.length_is, e, run)
          (ends_reading k f at (copy_bytes buf 0 old 0 k) s (omega (arith, bound, max))
            (omega (arith, bound, max))),
      (
        refl,
        λ a. copy_bytes-pasted buf 0 old k a ∙ pasted-copied buf old bytes k a same,
        Opened-set_file s f n c len (at + k) bytes o,
        rw (eq→== f f refl) refl,
      ),
    )

abbrev handle_of : (n : ℕ) → Store → Store
handle_of n s = record s {
  files =
      update s.files s.next
        (record (s.files s.next) { f_ops = (s.vnodes n).f_ops; f_pos = 0; vnode = some n });
  next = s.next + 1;
}

-- A new block's address is not used, so an old block stays as it is.
Behind-handle_of :
    (n : ℕ) (s : Store) (content : Option ℕ) (len room : ℕ) (bytes : ℕ → ℕ)
    → Behind s content len room bytes
    → Behind (handle_of n s) content len room bytes
Behind-handle_of n s none len room bytes h = h
Behind-handle_of n s (some p) len room bytes h = record {
  allocated = omega (arith, h.allocated);
  enough = h.enough;
  same = h.same;
}

-- `tmpfs_open` of a file's node returns 0 and a new handle on it, at position 0.
pub tmpfs_open-Opened :
    (s : Store) (f n c len : ℕ) (bytes : ℕ → ℕ) (target : Option ℕ)
    → Opened s f n c len bytes
    → (tmpfs_open n target s ≡ ok (pos 0, some s.next, handle_of n s))
      × Opened (handle_of n s) s.next n c len bytes
      × (((handle_of n s).files s.next).f_pos ≡ 0)
unfolding tmpfs_open
tmpfs_open-Opened s f n c len bytes target o = (
  rw (tmpfs_open, o.node, o.regular) refl,
  record {
    handle = rw (eq→== s.next s.next refl) refl;
    node = o.node;
    regular = o.regular;
    length_is = o.length_is;
    content_is = Behind-handle_of n s (s.components c).content len len bytes o.content_is;
  },
  rw (eq→== s.next s.next refl) refl,
)

fitting-whole : (amount : ℕ) → amount ≤ tmpfs_max_file_size → fitting 0 amount ≡ amount
fitting-whole amount le = ground arith

left-whole : (at amount : ℕ) → at ≡ 0 → left at amount amount ≡ amount
left-whole at amount e = ground arith

longer-whole : (amount : ℕ) → longer 0 (0 + amount) ≡ amount
longer-whole amount = ground arith

wrote_whole :
    (s : Store) (f n c at : ℕ) (bytes buf : ℕ → ℕ) (amount : ℕ)
    → at ≡ 0
    → amount ≤ tmpfs_max_file_size
    → Opened s f n c (longer 0 (at + fitting at amount)) (pasted bytes at buf (fitting at amount))
    → Opened s f n c amount (pasted bytes 0 buf amount)
wrote_whole s f n c at bytes buf amount e le o =
    let o1 =
      subst
        (λ a.
          Opened s f n c (longer 0 (a + fitting a amount)) (pasted bytes a buf (fitting a amount)))
        e o in
    let o2 =
      subst (λ k. Opened s f n c (longer 0 (0 + k)) (pasted bytes 0 buf k))
        (fitting-whole amount le) o1 in
    subst (λ l. Opened s f n c l (pasted bytes 0 buf amount)) (longer-whole amount) o2

pasted-twice :
    (into bytes buf : ℕ → ℕ) (amount a : ℕ)
    → a < amount
    → pasted into 0 (pasted bytes 0 buf amount) amount a ≡ buf a
pasted-twice into bytes buf amount a lt =
    let inside : (leb 0 a && ltb a (0 + amount)) ≡ true = ground (arith, lt) in
    let again : (leb 0 (a - 0) && ltb (a - 0) (0 + amount)) ≡ true = ground (arith, lt) in
    rw (inside, again) (ap buf (omega arith))

-- A file that is open on an empty component at its start, as a new file is: where at most 4096
-- bytes are written and the node is opened again, the new handle reads back what was written.
pub tmpfs_read-tmpfs_write :
    (s : Store) (f n c : ℕ) (bytes buf into : ℕ → ℕ) (amount : ℕ)
    → Opened s f n c 0 bytes
    → (s.files f).f_pos ≡ 0
    → amount ≤ tmpfs_max_file_size
    → Returns
        (λ r. (r.0 ≡ pos amount) × ((a : ℕ) → a < amount → r.1 a ≡ buf a))
        (do
          (wrote, s1) ← tmpfs_write (some f) buf amount s
          (opened, target, s2) ← tmpfs_open n none s1
          tmpfs_read target into amount s2)
tmpfs_read-tmpfs_write s f n c bytes buf into amount o start fits =
    let (r1, run1, (e1, o1, p1)) =
      tmpfs_write-Opened s f n c 0 bytes buf amount o (omega (arith, start)) (omega arith)
        (omega (arith, fits)) in
    let whole = wrote_whole r1.1 f n c _ bytes buf amount start fits o1 in
    let (run2, o2, p2) = tmpfs_open-Opened r1.1 f n c amount _ none whole in
    let (r3, run3, (e3, got, o3, p3)) =
      tmpfs_read-Opened (handle_of n r1.1) r1.1.next n c amount (pasted bytes 0 buf amount) into
        amount o2 (omega (arith, p2)) fits (omega (arith, fits)) in
    let k = left-whole _ amount p2 in
    (
      r3,
      rw (run1, run2) run3,
      (
        e3 ∙ ap pos k,
        λ a lt.
            got a
            ∙ ap (λ m. pasted into 0 (pasted bytes 0 buf amount) m a) k
            ∙ pasted-twice into bytes buf amount a lt,
      ),
    )
