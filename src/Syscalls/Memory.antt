-- ===== src/Syscalls/Memory.antt =====
-- Registers of a trap frame in memory, and the copy of two stacks, for lib/exception.c.
use bare_metal_os_kernel.Base.{
  ltb, ℕ, zero, suc, ◌+◌, ◌/◌, ◌%◌, ◌^◌, ◌≤◌, ◌<◌, ◌≡◌, ◌≢◌, refl, sym, ap, ◌∙◌, ◌==◌, ne→==, eq→==,
  update, update_self, arith, ◌⊎◌, inl, inr, Bool-cases,
}
use bare_metal_os_kernel.Syscalls.{load_bytes, store_bytes, get_register, set_register, register_at}
use bare_metal_os_kernel.Syscalls.Tasks.{copy_stacks}

-- `v` has no more than `n` bytes.
abbrev pub Fits : (n v : ℕ) → Type 0
Fits zero v = v ≡ 0
Fits (suc n) v = Fits n (v / 256)

store_bytes-outside :
    (n : ℕ) (mem : ℕ → ℕ) (a v x : ℕ) → (x < a) ⊎ (a + n ≤ x) → store_bytes n mem a v x ≡ mem x
unfolding store_bytes
store_bytes-outside zero mem a v x out = refl
store_bytes-outside (suc n) mem a v x (inl lt) =
    store_bytes-outside n (update mem a (v % 256)) (a + 1) (v / 256) x (inl (omega (arith, lt)))
    ∙ rw (ne→== a x (omega (arith, lt))) refl
store_bytes-outside (suc n) mem a v x (inr le) =
    store_bytes-outside n (update mem a (v % 256)) (a + 1) (v / 256) x (inr (omega (arith, le)))
    ∙ rw (ne→== a x (omega (arith, le))) refl

pub load_bytes-same :
    (n : ℕ) (mem mem' : ℕ → ℕ) (a b : ℕ)
    → ((k : ℕ) → k < n → mem' (b + k) ≡ mem (a + k))
    → load_bytes n mem' b ≡ load_bytes n mem a
unfolding load_bytes
load_bytes-same zero mem mem' a b same = refl
load_bytes-same (suc n) mem mem' a b same =
    let first : mem' b ≡ mem a =
      ap mem' (omega arith) ∙ same 0 (omega arith) ∙ ap mem (omega arith) in
    let rest =
      load_bytes-same n mem mem' (a + 1) (b + 1)
        (λ k lt. ap mem' (omega arith) ∙ same (suc k) (omega (arith, lt)) ∙ ap mem (omega arith)) in
    rw (load_bytes, first, rest) refl

load_bytes-store_bytes :
    (n : ℕ) (mem : ℕ → ℕ) (a v : ℕ) → Fits n v → load_bytes n (store_bytes n mem a v) a ≡ v
unfolding load_bytes store_bytes
load_bytes-store_bytes zero mem a v fits = sym fits
load_bytes-store_bytes (suc n) mem a v fits =
    let first : store_bytes n (update mem a (v % 256)) (a + 1) (v / 256) a ≡ v % 256 =
      store_bytes-outside n (update mem a (v % 256)) (a + 1) (v / 256) a (inl (omega arith))
      ∙ update_self mem a (v % 256) in
    rw
      (
        load_bytes,
        store_bytes,
        first,
        load_bytes-store_bytes n (update mem a (v % 256)) (a + 1) (v / 256) fits,
      )
      (omega arith)

Fits-word : (v : ℕ) → v < 2 ^ 64 → Fits 8 v
Fits-word v lt = omega (arith, lt)

-- A register that was set holds the value, and the others keep theirs.
pub get_register-set_register :
    (n frame v : ℕ) (mem : ℕ → ℕ)
    → v < 2 ^ 64
    → get_register n frame (set_register n frame v mem) ≡ v
unfolding get_register set_register
get_register-set_register n frame v mem lt =
    load_bytes-store_bytes 8 mem (register_at n frame) v (Fits-word v lt)

pub get_register-other :
    (n m frame v : ℕ) (mem : ℕ → ℕ)
    → n ≢ m
    → get_register n frame (set_register m frame v mem) ≡ get_register n frame mem
unfolding get_register set_register
get_register-other n m frame v mem ne =
    load_bytes-same 8 mem (store_bytes 8 mem (register_at m frame) v) (register_at n frame)
      (register_at n frame)
      (λ k lt.
        store_bytes-outside 8 mem (register_at m frame) v (register_at n frame + k)
          (elim (Bool-cases (ltb n m)) [
            | inl less ↦ inl (ground (arith, less, lt, ne))
            | inr more ↦ inr (ground (arith, more, lt, ne))
          ]))

-- A trap frame has 36 registers: what lies outside it is kept.
pub set_register-outside :
    (n frame v x : ℕ) (mem : ℕ → ℕ)
    → n < 36
    → (x < frame) ⊎ (frame + 288 ≤ x)
    → set_register n frame v mem x ≡ mem x
unfolding set_register
set_register-outside n frame v x mem lt (inl low) =
    store_bytes-outside 8 mem (register_at n frame) v x (inl (omega (arith, low)))
set_register-outside n frame v x mem lt (inr high) =
    store_bytes-outside 8 mem (register_at n frame) v x (inr (omega (arith, high, lt)))

module _ (size src1 dst1 src2 dst2 : ℕ) where
  pub copy_stacks-kept :
      (n i : ℕ) (mem : ℕ → ℕ) (x : ℕ)
      → ((k : ℕ) → i ≤ k → k < i + n → (dst1 + k ≢ x) × (dst2 + k ≢ x))
      → copy_stacks n i src1 dst1 src2 dst2 mem x ≡ mem x
  unfolding copy_stacks
  copy_stacks-kept zero i mem x apart = refl
  copy_stacks-kept (suc n) i mem x apart =
      let (one, two) = apart i (omega arith) (omega arith) in
      copy_stacks-kept n (i + 1) _ x (λ k le lt. apart k (omega (arith, le)) (omega (arith, lt)))
      ∙ rw (ne→== (dst2 + i) x two, ne→== (dst1 + i) x one) refl

  -- The copy of the second stack, where the two new blocks do not meet it or each other.
  pub copy_stacks-second :
      ((k j : ℕ) → k < size → j < size → dst1 + k ≢ src2 + j)
      → ((k j : ℕ) → k < size → j < size → dst2 + k ≢ src2 + j)
      → ((k j : ℕ) → k < size → j < size → dst1 + k ≢ dst2 + j)
      → (n i : ℕ) (mem : ℕ → ℕ) (j : ℕ) → i + n ≤ size
      → i ≤ j
      → j < i + n
      → copy_stacks n i src1 dst1 src2 dst2 mem (dst2 + j) ≡ mem (src2 + j)
  unfolding copy_stacks
  copy_stacks-second a b c zero i mem j fits le lt = omega (arith, le, lt)
  copy_stacks-second a b c (suc n) i mem j fits le lt = elim (Bool-cases (i == j)) [
    | inl same ↦
        let e : i ≡ j = ground (arith, same) in
        copy_stacks-kept n (i + 1) _ (dst2 + j) (λ k more_ less_.
          (c k j (omega (arith, less_, fits)) (omega (arith, lt, fits)), omega (arith, e, more_)))
        ∙ rw (eq→== (dst2 + i) (dst2 + j) (omega (arith, e))) (
            rw (ne→== (dst1 + i) (src2 + i) (a i i (omega (arith, fits)) (omega (arith, fits))))
              (ap (λ x. mem (src2 + x)) e))
    | inr other ↦
        copy_stacks-second a b c n (i + 1) _ j (omega (arith, fits)) (ground (arith, other, le))
          (omega (arith, lt))
        ∙ rw
            (
              ne→== (dst2 + i) (src2 + j) (b i j (omega (arith, fits)) (omega (arith, lt, fits))),
              ne→== (dst1 + i) (src2 + j) (a i j (omega (arith, fits)) (omega (arith, lt, fits))),
            )
            refl
  ]

  -- The copy of the first stack, where the two new blocks do not meet it or each other.
  pub copy_stacks-first :
      ((k j : ℕ) → k < size → j < size → dst1 + k ≢ src1 + j)
      → ((k j : ℕ) → k < size → j < size → dst2 + k ≢ src1 + j)
      → ((k j : ℕ) → k < size → j < size → dst1 + k ≢ dst2 + j)
      → (n i : ℕ) (mem : ℕ → ℕ) (j : ℕ) → i + n ≤ size
      → i ≤ j
      → j < i + n
      → copy_stacks n i src1 dst1 src2 dst2 mem (dst1 + j) ≡ mem (src1 + j)
  unfolding copy_stacks
  copy_stacks-first a b c zero i mem j fits le lt = omega (arith, le, lt)
  copy_stacks-first a b c (suc n) i mem j fits le lt = elim (Bool-cases (i == j)) [
    | inl same ↦
        let e : i ≡ j = ground (arith, same) in
        copy_stacks-kept n (i + 1) _ (dst1 + j) (λ k more_ less_. (
          omega (arith, e, more_),
          λ q. c j k (omega (arith, lt, fits)) (omega (arith, less_, fits)) (sym q),
        ))
        ∙ rw
            (
              ne→== (dst2 + i) (dst1 + j)
                  (λ q. c j i (omega (arith, lt, fits)) (omega (arith, fits)) (sym q)),
              eq→== (dst1 + i) (dst1 + j) (omega (arith, e)),
            )
            (ap (λ x. mem (src1 + x)) e)
    | inr other ↦
        copy_stacks-first a b c n (i + 1) _ j (omega (arith, fits)) (ground (arith, other, le))
          (omega (arith, lt))
        ∙ rw
            (
              ne→== (dst2 + i) (src1 + j) (b i j (omega (arith, fits)) (omega (arith, lt, fits))),
              ne→== (dst1 + i) (src1 + j) (a i j (omega (arith, fits)) (omega (arith, lt, fits))),
            )
            refl
  ]
