-- ===== src/Base/Chains.antt =====
-- Lists of addresses, and the chains that `next` pointers make of them.
use Prim.Native.Nat.{ℕ}
use mathlib.Core.Path.{◌≡◌, refl}
use mathlib.Core.Bool.{Bool, true, false, ◌||◌}
use mathlib.Core.Option.{Option, none, some}
use mathlib.Core.List.{List, [], ◌∷◌, ◌++◌}
use native.Mathlib.Omega.{arith}
use bare_metal_os_kernel.Base.Tests.{◌==◌, update, eq→==}

abbrev pub has : ℕ → List ℕ → Bool
has x [] = false
has x (y ∷ ys) = (x == y) || has x ys

abbrev pub Distinct : List ℕ → Type 0
Distinct [] = Unit {0}
Distinct (x ∷ xs) = (has x xs ≡ false) × Distinct xs

pub has-ne : (x y : ℕ) (xs : List ℕ) → has x xs ≡ false → has y xs ≡ true → (x == y) ≡ false
has-ne x y [] out h = cc
has-ne x y (z ∷ zs) out h = ground (arith, has-ne x y zs)

pub update_self {ℓ} : {A : Type ℓ} (f : ℕ → A) (x : ℕ) (v : A) → update f x v x ≡ v
update_self f x v = rw (eq→== x x refl)

pub update_out {ℓ} :
    {A : Type ℓ} (f : ℕ → A) (x : ℕ) (v : A) (xs : List ℕ)
    → has x xs ≡ false
    → (y : ℕ) → has y xs ≡ true
    → update f x v y ≡ f y
update_out f x v xs out y m = rw (has-ne x y xs out m)

pub has-append_right : (x : ℕ) (ys zs : List ℕ) → has x zs ≡ true → has x (ys ++ zs) ≡ true
has-append_right x [] zs h = h
has-append_right x (y ∷ ys) zs h = ground (arith, has-append_right x ys zs h)

pub has-append_self : (x : ℕ) (ys : List ℕ) → has x (ys ++ x ∷ []) ≡ true
has-append_self x ys = has-append_right x ys (x ∷ []) (rw (eq→== x x refl))

pub has-snoc : (a x : ℕ) (ys : List ℕ) → has a (ys ++ x ∷ []) ≡ (has a ys || (a == x))
has-snoc a x [] = ground arith
has-snoc a x (y ∷ ys) = ground (arith, has-snoc a x ys)

pub Distinct-snoc : (x : ℕ) (ys : List ℕ) → Distinct ys → has x ys ≡ false → Distinct (ys ++ x ∷ [])
Distinct-snoc x [] d out = (refl, tt)
Distinct-snoc x (y ∷ ys) d out =
    (ground (arith, has-snoc y x ys, d.0), Distinct-snoc x ys d.1 (ground arith))

pub has-skip : (a t : ℕ) (ys us : List ℕ) → has a (ys ++ t ∷ us) ≡ (has a (ys ++ us) || (a == t))
has-skip a t [] us = ground arith
has-skip a t (y ∷ ys) us = ground (arith, has-skip a t ys us)

pub Distinct-skip : (t : ℕ) (ys us : List ℕ) → Distinct (ys ++ t ∷ us) → has t (ys ++ us) ≡ false
Distinct-skip t [] us d = d.0
Distinct-skip t (y ∷ ys) us d = ground (arith, Distinct-skip t ys us d.1, has-skip y t ys us, d.0)

-- From `head` the pointers lead through the list.
abbrev pub Chain : (next : ℕ → Option ℕ) → (head : Option ℕ) → List ℕ → Type 0
Chain next head [] = head ≡ none
Chain next head (x ∷ xs) = (head ≡ some x) × Chain next (next x) xs

-- New pointers outside the list keep the chain.
pub Chain-frame :
    (next next' : ℕ → Option ℕ) (head : Option ℕ) (xs : List ℕ)
    → ((a : ℕ) → has a xs ≡ true → next' a ≡ next a)
    → Chain next head xs
    → Chain next' head xs
Chain-frame next next' head [] same c = c
Chain-frame next next' head (x ∷ xs) same (h, c) =
    let e : next' x ≡ next x = same x (ground arith) in
    rw e (h, Chain-frame next next' (next x) xs (λ a m. same a (ground (arith, m))) c)

abbrev pub last : ℕ → List ℕ → ℕ
last y [] = y
last y (z ∷ zs) = last z zs

pub has-last : (y : ℕ) (ys zs : List ℕ) → has (last y ys) (y ∷ ys ++ zs) ≡ true
has-last y [] zs = rw (eq→== y y refl)
has-last y (w ∷ ws) zs = ground (arith, has-last w ws zs)

pub has-last_end : (y : ℕ) (ys : List ℕ) → has (last y ys) (y ∷ ys) ≡ true
has-last_end y [] = rw (eq→== y y refl)
has-last_end y (w ∷ ws) = ground (arith, has-last_end w ws)

-- A last item more: the pointer of the last one is set to it.
pub Chain-append :
    (next : ℕ → Option ℕ) (head : Option ℕ) (x : ℕ) (xs : List ℕ) (new : ℕ)
    → Chain next head (x ∷ xs)
    → Distinct (x ∷ xs)
    → has new (x ∷ xs) ≡ false
    → next new ≡ none
    → Chain (update next (last x xs) (some new)) head (x ∷ xs ++ new ∷ [])
Chain-append next head x [] new (h, c) d out e = (h, (update_self next x (some new), ground arith))
Chain-append next head x (y ∷ ys) new (h, c) d out e =
    rw kept (h, Chain-append next (next x) y ys new c d.1 (ground arith) e)
  where
    apart : (x == last y ys) ≡ false
    apart = has-ne x (last y ys) (y ∷ ys) d.0 (has-last_end y ys)

    kept : update next (last y ys) (some new) x ≡ next x
    kept = ground (arith, apart)

-- An item less: the pointer of the item before it skips it.
pub Chain-remove :
    (next : ℕ → Option ℕ) (head : Option ℕ) (x : ℕ) (xs : List ℕ) (t : ℕ) (us : List ℕ)
    → Chain next head (x ∷ xs ++ t ∷ us)
    → Distinct (x ∷ xs ++ t ∷ us)
    → Chain (update next (last x xs) (next t)) head (x ∷ xs ++ us)
Chain-remove next head x [] t us (h, c) d = (
  h,
  rw (update_self next x (next t))
      (Chain-frame next _ (next t) us (λ a m. ground (arith, has-ne x a (t ∷ us) d.0)) c.1),
)
Chain-remove next head x (y ∷ ys) t us (h, c) d =
    rw kept (h, Chain-remove next (next x) y ys t us c d.1)
  where
    apart : (x == last y ys) ≡ false
    apart = has-ne x (last y ys) (y ∷ ys ++ t ∷ us) d.0 (has-last y ys (t ∷ us))

    kept : update next (last y ys) (next t) x ≡ next x
    kept = ground (arith, apart)
