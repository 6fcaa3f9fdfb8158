-- ===== src/Files/Bytes.antt =====
-- What `copy_bytes`, `read_block` and `write_block` do to the bytes.
use bare_metal_os_kernel.Base.{
  ℕ, zero, suc, ◌+◌, ◌-◌, ◌≤◌, ◌<◌, ◌≡◌, refl, subst, ap, ◌∙◌, false, ◌&&◌, ltb, leb, if◌then◌else◌,
  eq→==, ne→==, Bool-cases, update, arith, ◌⊎◌, inl, inr,
}
use bare_metal_os_kernel.Files.{copy_bytes}

copy_bytes-outside :
    (dest : ℕ → ℕ) (i : ℕ) (src : ℕ → ℕ) (j n a : ℕ)
    → (a < i) ⊎ (i + n ≤ a)
    → copy_bytes dest i src j n a ≡ dest a
unfolding copy_bytes
copy_bytes-outside dest i src j zero a out = refl
copy_bytes-outside dest i src j (suc n) a (inl lt) =
    copy_bytes-outside (update dest i (src j)) (i + 1) src (j + 1) n a (inl (omega (arith, lt)))
    ∙ rw (ne→== i a (omega (arith, lt))) refl
copy_bytes-outside dest i src j (suc n) a (inr le) =
    copy_bytes-outside (update dest i (src j)) (i + 1) src (j + 1) n a (inr (omega (arith, le)))
    ∙ rw (ne→== i a (omega (arith, le))) refl

copy_bytes-inside :
    (dest : ℕ → ℕ) (i : ℕ) (src : ℕ → ℕ) (j n k : ℕ)
    → k < n
    → copy_bytes dest i src j n (i + k) ≡ src (j + k)
unfolding copy_bytes
copy_bytes-inside dest i src j zero k lt = omega (arith, lt)
copy_bytes-inside dest i src j (suc n) zero lt =
    copy_bytes-outside (update dest i (src j)) (i + 1) src (j + 1) n (i + 0) (inl (omega arith))
    ∙ rw (eq→== i (i + 0) (omega arith)) (ap src (omega arith))
copy_bytes-inside dest i src j (suc n) (suc k) lt =
    ap (copy_bytes (update dest i (src j)) (i + 1) src (j + 1) n) (omega arith)
    ∙ copy_bytes-inside (update dest i (src j)) (i + 1) src (j + 1) n k (omega (arith, lt))
    ∙ ap src (omega arith)

at_place : (i a : ℕ) → i ≤ a → i + (a - i) ≡ a
at_place i a le = omega (arith, le)

out_of_place : (i a n : ℕ) → (leb i a && ltb a (i + n)) ≡ false → (a < i) ⊎ (i + n ≤ a)
out_of_place i a n e = ground arith

-- The bytes after a copy: those of the source in its place, and the old ones elsewhere.
abbrev pub pasted : (dest : ℕ → ℕ) → (i : ℕ) → (src : ℕ → ℕ) → (n : ℕ) → ℕ → ℕ
pasted dest i src n a = if leb i a && ltb a (i + n) then src (a - i) else dest a

pub copy_bytes-pasted :
    (dest : ℕ → ℕ) (i : ℕ) (src : ℕ → ℕ) (n a : ℕ)
    → copy_bytes dest i src 0 n a ≡ pasted dest i src n a
copy_bytes-pasted dest i src n a = elim (Bool-cases (leb i a && ltb a (i + n))) [
  | inl e ↦ rw e (
      subst (λ b. copy_bytes dest i src 0 n b ≡ src (a - i)) (at_place i a (ground arith))
        (copy_bytes-inside dest i src 0 n (a - i) (ground arith) ∙ ap src (omega arith)))
  | inr e ↦ rw e (copy_bytes-outside dest i src 0 n a (out_of_place i a n e))
]
