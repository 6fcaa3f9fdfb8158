-- ===== src/Timer/Place.antt =====
-- Where `add_timer` of lib/timer.c puts a timer, on the list of what the queue holds.
use bare_metal_os_kernel.Base.{
  ℕ, ◌≤◌, ◌<◌, ◌≡◌, refl, ap, List, [], ◌∷◌, ◌++◌, ltb, if◌then◌else◌, arith, Bool-cases, inl, inr,
}

-- Address and expiry of each timer, in the order of the queue.
abbrev pub Entry : Type 0
Entry = ℕ × ℕ

-- Behind a timer that expires at `before`.
unfoldable pub place_after : Entry → (before : ℕ) → List Entry → List Entry
place_after e before [] = e ∷ []
place_after e before (x ∷ xs) =
    let rest = x ∷ place_after e x.1 xs in if ltb before e.1 then rest else e ∷ x ∷ xs

unfoldable pub place : Entry → List Entry → List Entry
place e [] = e ∷ []
place e (x ∷ xs) = if ltb e.1 x.1 then e ∷ x ∷ xs else x ∷ place_after e x.1 xs

-- No timer of the list expires before `t`.
abbrev pub AtLeast : ℕ → List Entry → Type 0
AtLeast t [] = Unit {0}
AtLeast t (x ∷ xs) = (t ≤ x.1) × AtLeast t xs

-- Each timer expires no later than all behind it.
abbrev pub Sorted : List Entry → Type 0
Sorted [] = Unit {0}
Sorted (x ∷ xs) = AtLeast x.1 xs × Sorted xs

-- The first timer is one that expires first.
abbrev pub HeadFirst : List Entry → Type 0
HeadFirst [] = Unit {0}
HeadFirst (x ∷ xs) = AtLeast x.1 xs

AtLeast-mono : (s t : ℕ) (xs : List Entry) → s ≤ t → AtLeast t xs → AtLeast s xs
AtLeast-mono s t [] h a = tt
AtLeast-mono s t (x ∷ xs) h (a, as_) = (omega arith, AtLeast-mono s t xs h as_)

AtLeast-place_after :
    (t before : ℕ) (e : Entry) (xs : List Entry)
    → t ≤ e.1
    → AtLeast t xs
    → AtLeast t (place_after e before xs)
unfolding place_after
AtLeast-place_after t before e [] h a = (h, tt)
AtLeast-place_after t before e (x ∷ xs) h (a, more) =
    ground (arith, AtLeast-place_after t x.1 e xs h more)

-- The placing keeps the order of the others, and puts the new timer at one place among them.
pub record Inserted (e : Entry) (xs zs : List Entry) : Type 0 where
  pub front : List Entry
  pub back : List Entry
  pub old : xs ≡ front ++ back
  pub new : zs ≡ front ++ e ∷ back

place_after-Inserted :
    (e : Entry) (before : ℕ) (xs : List Entry) → Inserted e xs (place_after e before xs)
unfolding place_after
place_after-Inserted e before [] = record { front = []; back = []; old = refl; new = refl }
place_after-Inserted e before (x ∷ xs) = elim (Bool-cases (ltb before e.1)) [
  | inl later ↦
      (let i = place_after-Inserted e x.1 xs in
        record {
          front = x ∷ i.front;
          back = i.back;
          old = ap (λ l. x ∷ l) i.old;
          new = rw later (ap (λ l. x ∷ l) i.new);
        })
  | inr here ↦ record { front = []; back = x ∷ xs; old = refl; new = rw here }
]

pub place-Inserted : (e : Entry) (xs : List Entry) → Inserted e xs (place e xs)
unfolding place
place-Inserted e [] = record { front = []; back = []; old = refl; new = refl }
place-Inserted e (x ∷ xs) = elim (Bool-cases (ltb e.1 x.1)) [
  | inl first ↦ record { front = []; back = x ∷ xs; old = refl; new = rw first }
  | inr later ↦
      (let i = place_after-Inserted e x.1 xs in
        record {
          front = x ∷ i.front;
          back = i.back;
          old = ap (λ l. x ∷ l) i.old;
          new = rw later (ap (λ l. x ∷ l) i.new);
        })
]

pub place-HeadFirst : (e : Entry) (xs : List Entry) → HeadFirst xs → HeadFirst (place e xs)
unfolding place
place-HeadFirst e [] h = tt
place-HeadFirst e (x ∷ xs) h =
    ground (arith, AtLeast-mono e.1 x.1 xs, AtLeast-place_after x.1 x.1 e xs)

-- Every timer of the list expires at `t` or before.
abbrev pub AtMost : ℕ → List Entry → Type 0
AtMost t [] = Unit {0}
AtMost t (x ∷ xs) = (x.1 ≤ t) × AtMost t xs

place_after-Sorted :
    (e : Entry) (before : ℕ) (xs : List Entry)
    → before ≤ e.1
    → AtLeast before xs
    → AtMost e.1 xs
    → Sorted xs
    → AtLeast before (place_after e before xs) × Sorted (place_after e before xs)
unfolding place_after
place_after-Sorted e before [] h a m s = ((h, tt), (tt, tt))
place_after-Sorted e before (x ∷ xs) h a m s = ground (
  arith,
  AtLeast-mono e.1 x.1 xs,
  AtLeast-mono before x.1 (place_after e x.1 xs),
  AtLeast-mono e.1 before xs,
  place_after-Sorted e x.1 xs,
)

pub place-Sorted : (e : Entry) (xs : List Entry) → AtMost e.1 xs → Sorted xs → Sorted (place e xs)
unfolding place
place-Sorted e [] m s = (tt, tt)
place-Sorted e (x ∷ xs) m s = ground (arith, place_after-Sorted e x.1 xs, AtLeast-mono e.1 x.1 xs)

-- A timer that should go between the first two is put behind the second, so the list is not sorted.
pub place_unsorted :
    (e x y : Entry) (ys : List Entry)
    → x.1 < e.1
    → e.1 < y.1
    → (place e (x ∷ y ∷ ys) ≡ x ∷ y ∷ e ∷ ys) × ¬ Sorted (place e (x ∷ y ∷ ys))
unfolding place place_after
place_unsorted e x y [] h k = (ground arith, λ s. absurd (ground arith))
place_unsorted e x y (z ∷ zs) h k = (ground arith, λ s. absurd (ground arith))
