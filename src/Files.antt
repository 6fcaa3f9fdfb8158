-- ===== src/Files.antt =====
-- The objects of the file systems (lib/include/vfs.h) in a store, and lib/tmpfs.c. A pointer is an
-- address, NULL is `none`, and `next` is the address that `malloc_` returns; what a new object
-- holds is what the store has there. A block of bytes has a size, and an access behind it is a
-- fault. A C string is the list of its characters, and `compare_strings` is what `strcmp` returns.
pub mod Bytes
pub mod Content
pub mod Write
pub mod Read
pub mod Directory
pub mod Entries
pub mod Added
pub mod Create
pub mod Made
pub mod Devices
mod Tests
use bare_metal_os_kernel.Base.{
  ℕ, zero, suc, ◌+◌, ◌-◌, ◌%◌, ◌^◌, Bool, true, false, ◌&&◌, Option, none, some, List, [], ◌∷◌,
  length, Run, ok, fault, ◌>>=◌, ℤ, pos, negsuc, int_eq, ltb, leb, ◌==◌, if◌then◌else◌, update,
}
use bare_metal_os_kernel.Strings.Compare.{compare_strings}

abbrev pub name_len : ℕ
name_len = 16

abbrev pub tmpfs_max_entry : ℕ
tmpfs_max_entry = 16

abbrev pub tmpfs_max_file_size : ℕ
tmpfs_max_file_size = 4096

-- `enum comp_type`; a new component has the number that is in its memory.
abbrev pub comp_file : ℕ
comp_file = 1

abbrev pub comp_dir : ℕ
comp_dir = 2

-- The union of `entries` and `data` is one pointer.
pub record VnodeComponent : Type 0 where
  pub name : List ℕ
  pub type : ℕ
  pub len : ℕ
  pub content : Option ℕ

-- Whose functions the tables `v_ops` and `f_ops` hold.
pub data Operations : Type 0 where
  tmpfs devfs initramfs : Operations

pub record Vnode : Type 0 where
  pub mount : Option ℕ
  pub v_ops : Operations
  pub f_ops : Operations
  pub component : Option ℕ

pub record File : Type 0 where
  pub vnode : Option ℕ
  pub f_pos : ℕ
  pub f_ops : Operations
  pub flags : ℕ

pub record Store : Type 0 where
  pub vnodes : ℕ → Vnode
  pub components : ℕ → VnodeComponent
  pub files : ℕ → File
  pub roots : ℕ → ℕ
  pub entries : ℕ → ℕ → ℕ
  pub bytes : ℕ → ℕ → ℕ
  pub room : ℕ → ℕ
  pub next : ℕ
  pub freed : List ℕ

-- A `size_t` as an `int`.
abbrev pub to_int : ℕ → ℤ
to_int n = if ltb (n % 2 ^ 32) (2 ^ 31) then pos (n % 2 ^ 32) else negsuc (2 ^ 32 - 1 - n % 2 ^ 32)

-- `memcpy_` from a block to another one.
unfoldable pub copy_bytes : (dest : ℕ → ℕ) → (i : ℕ) → (src : ℕ → ℕ) → (j n : ℕ) → ℕ → ℕ
copy_bytes dest i src j zero = dest
copy_bytes dest i src j (suc n) = copy_bytes (update dest i (src j)) (i + 1) src (j + 1) n

-- The block that `n` bytes are read of; a copy of no bytes does not use the pointer.
unfoldable pub read_block : (n : ℕ) → (block : Option ℕ) → Store → Run (ℕ → ℕ)
read_block zero block s = ok (λ _. 0)
read_block (suc n) none s = fault
read_block (suc n) (some p) s = if ltb (s.room p) (suc n) then fault else ok (s.bytes p)

unfoldable pub write_block : (n : ℕ) → (block : Option ℕ) → (at : ℕ) → (ℕ → ℕ) → Store → Run Store
write_block zero block at buf s = ok s
write_block (suc n) none at buf s = fault
write_block (suc n) (some p) at buf s =
    if ltb (s.room p) (at + suc n)
    then fault
    else ok (record s { bytes = update s.bytes p (copy_bytes (s.bytes p) at buf 0 (suc n)) })

abbrev pub set_component : ℕ → VnodeComponent → Store → Store
set_component c v s = record s { components = update s.components c v }

abbrev pub set_file : ℕ → File → Store → Store
set_file f v s = record s { files = update s.files f v }

-- The tests that `tmpfs_write` and `tmpfs_read` start with: the component, or -1 is returned.
unfoldable pub file_component : (file : Option ℕ) → Store → Option (ℕ × ℕ)
file_component none s = none
file_component (some f) s = elim (s.files f).vnode [
  | none ↦ none
  | some n ↦ elim (s.vnodes n).component [
    | none ↦ none
    | some c ↦ if (s.components c).type == comp_file then some (f, c) else none
  ]
]

abbrev pub release : (len : ℕ) → Option ℕ → List ℕ → List ℕ
release zero content freed = freed
release (suc len) none freed = freed
release (suc len) (some p) freed = p ∷ freed

-- The content moves to a new block of `new_len` bytes, and the old block is given back.
abbrev pub move_content : (c new_len : ℕ) → (old : ℕ → ℕ) → Store → Store
move_content c new_len old s =
    let comp = s.components c in
    record s {
      bytes = update s.bytes s.next (copy_bytes (s.bytes s.next) 0 old 0 comp.len);
      room = update s.room s.next new_len;
      components = update s.components c (record comp { len = new_len; content = some s.next });
      freed = release comp.len comp.content s.freed;
      next = s.next + 1;
    }

-- A longer block for a file that ends before the last byte that is to be written.
unfoldable pub grow : (c ideal_final_pos : ℕ) → Store → Run Store
grow c ideal_final_pos s =
    let comp = s.components c in
    let new_len =
      if leb tmpfs_max_file_size ideal_final_pos then tmpfs_max_file_size else ideal_final_pos in
    elim (ltb comp.len ideal_final_pos && ltb comp.len tmpfs_max_file_size) [
      | false ↦ ok s
      | true ↦ do old ← read_block comp.len comp.content s; ok (move_content c new_len old s)
    ]

abbrev pub write_able : (f_pos len : ℕ) → ℕ
write_able f_pos len =
    if leb tmpfs_max_file_size ((f_pos + len) % 2 ^ 64)
    then (tmpfs_max_file_size + 2 ^ 64 - f_pos) % 2 ^ 64
    else len

unfoldable pub write_at : (f c : ℕ) → (buf : ℕ → ℕ) → (len : ℕ) → Store → Run (ℤ × Store)
write_at f c buf len s = do
  let f_pos = (s.files f).f_pos
  let n = write_able f_pos len
  s1 ← grow c ((f_pos + len) % 2 ^ 64) s
  s2 ← write_block n (s1.components c).content f_pos buf s1
  ok (to_int n, set_file f (record (s2.files f) { f_pos = (f_pos + n) % 2 ^ 64 }) s2)

unfoldable pub tmpfs_write : (file : Option ℕ) → (buf : ℕ → ℕ) → (len : ℕ) → Store → Run (ℤ × Store)
tmpfs_write file buf len s = elim (file_component file s) [
  | none ↦ ok (negsuc 0, s)
  | some (f, c) ↦ write_at f c buf len s
]

abbrev pub read_able : (f_pos size len : ℕ) → ℕ
read_able f_pos size len =
    if leb size ((f_pos + len) % 2 ^ 64) then (size + 2 ^ 64 - f_pos) % 2 ^ 64 else len

-- The bytes are those from the start of the file, wherever `f_pos` is.
unfoldable pub tmpfs_read :
    (file : Option ℕ) → (buf : ℕ → ℕ) → (len : ℕ) → Store → Run (ℤ × (ℕ → ℕ) × Store)
tmpfs_read file buf len s = elim (file_component file s) [
  | none ↦ ok (negsuc 0, buf, s)
  | some (f, c) ↦ do
    let f_pos = (s.files f).f_pos
    let n = read_able f_pos (s.components c).len len
    content ← read_block n (s.components c).content s
    ok (
      to_int n,
      copy_bytes buf 0 content 0 n,
      set_file f (record (s.files f) { f_pos = (f_pos + n) % 2 ^ 64 }) s,
    )
]

-- `*target` is the second component: it is written only where the node is a file.
unfoldable pub tmpfs_open :
    (file_node : ℕ) → (target : Option ℕ) → Store → Run (ℤ × Option ℕ × Store)
tmpfs_open file_node target s = elim (s.vnodes file_node).component [
  | none ↦ fault
  | some c ↦ elim ((s.components c).type == comp_file) [
    | false ↦ ok (negsuc 0, target, s)
    | true ↦ ok (
      pos 0,
      some s.next,
      record s {
        files = update s.files s.next (record (s.files s.next) {
          f_ops = (s.vnodes file_node).f_ops;
          f_pos = 0;
          vnode = some file_node;
        });
        next = s.next + 1;
      },
    )
  ]
]

unfoldable pub tmpfs_close : (file : Option ℕ) → Store → ℤ × Store
tmpfs_close none s = (negsuc 0, s)
tmpfs_close (some f) s = (pos 0, record s { freed = f ∷ s.freed })
