-- ===== src/Alloc/Bounds.antt =====
-- What `log2`, `power2` and the two size computations of lib/malloc.c return.
use native.Mathlib.Numerals.{add-one, towards_suc}
use native.Mathlib.Decide.{dec_lt}
use native.Mathlib.Nat.{mod-eq_of_lt, pow-suc, pow-le-pow_right}
use bare_metal_os_kernel.Base.{
  ℕ, zero, suc, ◌+◌, ◌-◌, ◌*◌, ◌/◌, ◌%◌, ◌^◌, ◌≤◌, ◌<◌, ◌≡◌, refl, ok, ◌>>=◌, true, false, pos,
  int_lt, ltb, arith, ap, int_suc, le→ltb, ◌∙◌,
}
use bare_metal_os_kernel.Alloc.Sizes.{
  capped, log2_loop, log2, power2_loop, power2, page_level, page_size, page_max_order,
}

pub pow_mono : (i j : ℕ) → i ≤ j → 2 ^ i ≤ 2 ^ j
pow_mono i j h = pow-le-pow_right (omega arith) h

int_lt-lt : (a b : ℕ) → a < b → b ≤ 2 ^ 30 → int_lt a b ≡ true
int_lt-lt a b h k = ground arith

int_lt-le : (a b : ℕ) → b ≤ a → a < 2 ^ 30 → int_lt a b ≡ false
int_lt-le a b h k = ground arith

pub pow_succ : (i : ℕ) → 2 ^ (i + 1) ≡ 2 ^ i * 2
pow_succ i = simp towards_suc (omega (arith, pow-suc 2 i))

double :
    (value i ans : ℕ)
    → ans ≡ 2 ^ i
    → ans ≤ value
    → value < 2 ^ 30
    → (ans * 2) % 2 ^ 32 ≡ 2 ^ (i + 1)
double value i ans e low bound = simp towards_suc (omega (arith, pow-suc 2 i))

-- `n` is where the doubling `ans = 2 ^ i` first passes `value`.
log2_loop-ok :
    (fuel i ans value n : ℕ)
    → i ≤ n + 1
    → n + 1 < i + fuel
    → n < 30
    → ans ≡ 2 ^ i
    → 2 ^ n ≤ value
    → value < 2 ^ (n + 1)
    → log2_loop fuel ans value i ≡ ok (capped (n + 1))
unfolding log2_loop
log2_loop-ok zero i ans value n le lt small e lo hi = absurd (omega arith)
log2_loop-ok (suc fuel) i ans value n le lt small e lo hi = elim (dec_lt n i) [
  | yes past ↦
      let last : i ≡ n + 1 = omega arith in
      let high : value < ans = omega (arith, ap (λ k. 2 ^ k) last) in
      let bound : ans ≤ 2 ^ 30 = omega (arith, pow_mono i 30 (omega arith)) in
      rw (int_lt-lt value ans high bound, last)
  | no before ↦
      let low : ans ≤ value = omega (arith, pow_mono i n (omega arith)) in
      let bound : value < 2 ^ 30 = omega (arith, pow_mono (n + 1) 30 (omega arith)) in
      rw (int_lt-le value ans low bound) (
        log2_loop-ok fuel (i + 1) ((ans * 2) % 2 ^ 32) value n (omega arith) (omega arith) small
          (double value i ans e low bound) lo hi)
]

-- `log2` is the floor of the binary logarithm, up to the greatest order.
pub log2-pow :
    (n value : ℕ) → n < 30 → 2 ^ n ≤ value → value < 2 ^ (n + 1) → log2 value ≡ ok (capped (n + 1))
unfolding log2
log2-pow n value small lo hi =
    log2_loop-ok 33 0 1 value n (omega arith) (omega arith) small refl lo hi

-- Every positive number below `2 ^ k` lies between two powers.
pub floor_log :
    (k value : ℕ)
    → 1 ≤ value
    → value < 2 ^ k
    → (n : ℕ) × (n < k) × (2 ^ n ≤ value) × (value < 2 ^ (n + 1))
floor_log zero value pos_value h = absurd (omega arith)
floor_log (suc k) value pos_value h = elim (dec_lt value (2 ^ k)) [
  | yes small ↦ let (n, lt, lo, hi) = floor_log k value pos_value small in (n, omega arith, lo, hi)
  | no big ↦ (k, omega arith, omega arith, omega (arith, pow_succ k))
]

le_lt : (a b : ℕ) {c : ℕ} → 1 ≤ b → a * b < c → a < c
le_lt a b h k = grind arith

power2_loop-pow : (n ans : ℕ) → ans * 2 ^ n < 2 ^ 32 → power2_loop n ans ≡ ans * 2 ^ n
unfolding power2_loop
power2_loop-pow zero ans h = omega arith
power2_loop-pow (suc n) ans h =
    let whole : ans * 2 * 2 ^ n ≡ ans * 2 ^ suc n =
      omega (arith, ap (λ t. ans * t) (pow-suc 2 n)) in
    let one_le : 1 ≤ 2 ^ n = pow_mono 0 n (omega arith) in
    let fits : ans * 2 < 2 ^ 32 = le_lt (ans * 2) (2 ^ n) one_le (omega arith) in
    rw (mod-eq_of_lt fits) (power2_loop-pow n (ans * 2) (omega arith) ∙ whole)

-- `power2` is the power of two, where it does not wrap.
pub power2-pow : (n : ℕ) → n < 32 → power2 (pos n) ≡ 2 ^ n
unfolding power2
power2-pow n h = power2_loop-pow n 1 (omega (arith, pow_mono n 31 (omega arith))) ∙ omega arith

page_level-log2 :
    (size : ℕ)
    → 1 ≤ size
    → size ≤ 2 ^ 28
    → page_level size ≡ (log2 ((size - 1) / page_size) >>= λ l. ok (int_suc l))
unfolding page_level
page_level-log2 size h k = ap (λ v. log2 v >>= λ l. ok (int_suc l)) (omega arith)

page_level_single : (size : ℕ) → 1 ≤ size → size ≤ page_size → page_level size ≡ ok (pos 0)
unfolding log2 log2_loop
page_level_single size h k =
    let none_over : (size - 1) / page_size ≡ 0 = omega arith in
    rw (page_level-log2 size h (omega arith), none_over)

page_level-suc :
    (size n : ℕ)
    → 1 ≤ size
    → n < 16
    → size ≤ 2 ^ 28
    → 2 ^ n ≤ (size - 1) / page_size
    → (size - 1) / page_size < 2 ^ (n + 1)
    → page_level size ≡ ok (pos (n + 1))
page_level-suc size n h small k lo hi =
    let below : ltb page_max_order n ≡ false = le→ltb page_max_order n (omega arith) in
    rw (page_level-log2 size h k, log2-pow n _ (omega arith) lo hi, add-one n, below)
      (ap (λ j. ok (pos j)) (add-one n))

abbrev pub IsLeastOrder : ℕ → ℕ → Type 0
IsLeastOrder size l =
    (page_level size ≡ ok (pos l))
    × (l ≤ page_max_order)
    × (size ≤ power2 (pos l) * page_size)
    × ((k : ℕ) → k < l → power2 (pos k) * page_size < size)

page_level-IsLeastOrder :
    (size : ℕ)
    → 1 ≤ size
    → size ≤ 2 ^ 28
    → (n : ℕ) × (n < 16) × (2 ^ n ≤ (size - 1) / page_size) × ((size - 1) / page_size < 2 ^ (n + 1))
    → (l : ℕ) × IsLeastOrder size l
page_level-IsLeastOrder size h k (n, small, lo, hi) = (
  n + 1,
  (
    page_level-suc size n h small k lo hi,
    omega arith,
    omega (arith, power2-pow (n + 1) (omega arith)),
    λ j lt. omega (arith, power2-pow j (omega arith), pow_mono j n (omega arith)),
  ),
)

-- For `size` from 1 to 2 ^ 28 bytes the order that `page_allocate` asks for is at most
-- `PAGE_MAX_ORDER`, a block of that order holds `size` bytes, and no smaller order does.
pub page_level-least : (size : ℕ) → 1 ≤ size → size ≤ 2 ^ 28 → (l : ℕ) × IsLeastOrder size l
page_level-least size h k = elim (dec_lt page_size size) [
  | yes more ↦
      page_level-IsLeastOrder size h k
        (floor_log 16 ((size - 1) / page_size) (omega arith) (omega arith))
  | no one ↦ (
    0,
    (
      page_level_single size h (omega arith),
      omega arith,
      omega (arith, power2-pow 0 (omega arith)),
      λ j lt. absurd (omega arith),
    ),
  )
]
