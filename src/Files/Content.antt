-- ===== src/Files/Content.antt =====
-- What a file holds, as a length and the bytes up to it.
use bare_metal_os_kernel.Base.{
  ℕ, zero, suc, ◌+◌, ◌≤◌, ◌<◌, ◌≡◌, refl, ◌∙◌, ◌&&◌, Option, none, some, Returns, ltb, leb,
  if◌then◌else◌, le→ltb, Bool-cases, update, update_self, arith, inl, inr,
}
use bare_metal_os_kernel.Files.Bytes.{copy_bytes-pasted, pasted}
use bare_metal_os_kernel.Files.{
  copy_bytes, Store, read_block, write_block, comp_file, file_component,
}

-- The first `len` bytes of the block are `bytes`, and it has room for `room` bytes.
pub record Block (s : Store) (p len room : ℕ) (bytes : ℕ → ℕ) : Type 0 where
  pub allocated : p < s.next
  pub enough : room ≤ s.room p
  pub same : (a : ℕ) → a < len → s.bytes p a ≡ bytes a

-- The same for a pointer, which may be NULL if no room is needed.
abbrev pub Behind : Store → (content : Option ℕ) → (len room : ℕ) → (ℕ → ℕ) → Type 0
Behind s none len room bytes = room ≡ 0
Behind s (some p) len room bytes = Block s p len room bytes

-- The file handle `f` is open on node `n`, whose component `c` is a file of `len` bytes.
pub record Opened (s : Store) (f n c len : ℕ) (bytes : ℕ → ℕ) : Type 0 where
  pub handle : (s.files f).vnode ≡ some n
  pub node : (s.vnodes n).component ≡ some c
  pub regular : (s.components c).type ≡ comp_file
  pub length_is : (s.components c).len ≡ len
  pub content_is : Behind s (s.components c).content len len bytes

pub file_component-Opened :
    (s : Store) (f n c len : ℕ) (bytes : ℕ → ℕ)
    → Opened s f n c len bytes
    → file_component (some f) s ≡ some (f, c)
unfolding file_component
file_component-Opened s f n c len bytes o = rw (file_component, o.handle, o.node, o.regular) refl

pub read_block-Behind :
    (n : ℕ) (s : Store) (content : Option ℕ) (len room : ℕ) (bytes : ℕ → ℕ)
    → n ≤ len
    → len ≤ room
    → Behind s content len room bytes
    → Returns (λ b. (a : ℕ) → a < n → b a ≡ bytes a) (read_block n content s)
unfolding read_block
read_block-Behind zero s content len room bytes le fits h =
    ((λ _. 0), refl, λ a lt. omega (arith, lt))
read_block-Behind (suc n) s none len room bytes le fits h = ground (arith, h, le, fits)
read_block-Behind (suc n) s (some p) len room bytes le fits h = (
  s.bytes p,
  rw (le→ltb (s.room p) (suc n) (omega (arith, le, fits, h.enough))) refl,
  λ a lt. h.same a (omega (arith, lt, le)),
)

abbrev pub longer : ℕ → ℕ → ℕ
longer a b = if leb a b then b else a

-- No node or handle has changed.
pub record Kept (s s' : Store) : Type 0 where
  pub vnodes : s'.vnodes ≡ s.vnodes
  pub components : s'.components ≡ s.components
  pub files : s'.files ≡ s.files

pasted-none : (bytes buf : ℕ → ℕ) (at a : ℕ) → bytes a ≡ pasted bytes at buf 0 a
pasted-none bytes buf at a = ground arith

pasted-same :
    (old bytes buf : ℕ → ℕ) (at n len a : ℕ)
    → at ≤ len
    → a < longer len (at + n)
    → ((b : ℕ) → b < len → old b ≡ bytes b)
    → pasted old at buf n a ≡ pasted bytes at buf n a
pasted-same old bytes buf at n len a le lt same = elim (Bool-cases (leb at a && ltb a (at + n))) [
  | inl e ↦ rw e refl
  | inr e ↦ rw e (same a (ground arith))
]

-- A write that starts inside the content and ends inside the block.
pub write_block-Behind :
    (n : ℕ) (content : Option ℕ) (at : ℕ) (buf : ℕ → ℕ) (s : Store) (len room : ℕ) (bytes : ℕ → ℕ)
    → at ≤ len
    → len ≤ room
    → at + n ≤ room
    → Behind s content len room bytes
    → Returns
        (λ s'. Behind s' content (longer len (at + n)) room (pasted bytes at buf n) × Kept s s')
        (write_block n content at buf s)
unfolding write_block
write_block-Behind zero none at buf s len room bytes le fits ends h =
    (s, refl, (h, record { vnodes = refl; components = refl; files = refl }))
write_block-Behind zero (some p) at buf s len room bytes le fits ends h = (
  s,
  refl,
  (
    record {
      allocated = h.allocated;
      enough = h.enough;
      same = λ a lt. h.same a (ground arith) ∙ pasted-none bytes buf at a;
    },
    record { vnodes = refl; components = refl; files = refl },
  ),
)
write_block-Behind (suc n) none at buf s len room bytes le fits ends h = ground (arith, h, ends)
write_block-Behind (suc n) (some p) at buf s len room bytes le fits ends h = (
  record s { bytes = update s.bytes p (copy_bytes (s.bytes p) at buf 0 (suc n)) },
  rw (le→ltb (s.room p) (at + suc n) (omega (arith, ends, h.enough))) refl,
  (
    record {
      allocated = h.allocated;
      enough = h.enough;
      same = λ a lt. rw (update_self s.bytes p (copy_bytes (s.bytes p) at buf 0 (suc n))) (
          copy_bytes-pasted (s.bytes p) at buf (suc n) a
          ∙ pasted-same (s.bytes p) bytes buf at (suc n) len a le lt h.same);
    },
    record { vnodes = refl; components = refl; files = refl },
  ),
)
