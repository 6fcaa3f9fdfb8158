-- ===== src/Alloc/Divide.antt =====
-- `page_divide` and `page_allocate` of lib/malloc.c where the small orders have run out.
use native.Mathlib.Decide.{dec_lt}
use bare_metal_os_kernel.Base.{
  ℕ, zero, suc, ◌+◌, none, ◌≡◌, ◌≤◌, ◌<◌, refl, ok, out_of_fuel, ◌>>=◌, pos, arith, lt→ltb,
}
use bare_metal_os_kernel.Alloc.Sizes.{page_max_order, page_level}
use bare_metal_os_kernel.Alloc.Frames.{list_index-ok}
use bare_metal_os_kernel.Alloc.Pages.{Pages, page_divide, page_allocate}

-- At order 5 with an empty list `page_divide` only prints.
page_divide_five : (fuel : ℕ) (s : Pages) → s.page_list 5 ≡ none → page_divide (suc fuel) 5 s ≡ ok s
unfolding page_divide
page_divide_five fuel s e = rw (list_index-ok 5 (omega arith), e)

page_divide_step :
    (fuel level : ℕ) (s : Pages)
    → level < 5
    → s.page_list level ≡ none
    → page_divide (suc fuel) level s
      ≡ (page_divide fuel (level + 1) s >>= λ s'. page_divide fuel level s')
unfolding page_divide
page_divide_step fuel level s h e = rw (list_index-ok level (omega arith), e, lt→ltb level 5 h)

page_divide_none : (level : ℕ) (s : Pages) → page_divide 0 level s ≡ out_of_fuel
unfolding page_divide
page_divide_none level s = refl

-- The two nested calls run out of fuel if the one for the order above does, or returns to the same
-- state.
page_divide_nested :
    (fuel level : ℕ) (s : Pages)
    → level < 5
    → ((l : ℕ) → level ≤ l → l ≤ 5 → s.page_list l ≡ none)
    → (level + 1 < 5 → page_divide fuel (level + 1) s ≡ out_of_fuel)
    → page_divide fuel level s ≡ out_of_fuel
    → (page_divide fuel (level + 1) s >>= λ s'. page_divide fuel level s') ≡ out_of_fuel
page_divide_nested zero level s h empty above same = rw (page_divide_none (level + 1) s)
page_divide_nested (suc fuel) level s h empty above same = elim (dec_lt (level + 1) 5) [
  | yes lt ↦ rw (above lt)
  | no ge ↦
      let five : level + 1 ≡ 5 = omega arith in
      rw (five, page_divide_five fuel s (empty 5 (omega arith) (omega arith))) same
]

-- Where the lists of the orders from `level` to 5 are empty and `level` is below 5, the calls of
-- `page_divide` nest without end: no fuel gives a result.
pub page_divide_endless :
    (fuel level : ℕ) (s : Pages)
    → level < 5
    → ((l : ℕ) → level ≤ l → l ≤ 5 → s.page_list l ≡ none)
    → page_divide fuel level s ≡ out_of_fuel
page_divide_endless zero level s h empty = page_divide_none level s
page_divide_endless (suc fuel) level s h empty =
    rw (page_divide_step fuel level s h (empty level (omega arith) (omega arith))) (
      page_divide_nested fuel level s h empty
        (λ lt. page_divide_endless fuel (level + 1) s lt λ l lo hi. empty l (omega arith) hi)
        (page_divide_endless fuel level s h empty))

-- `page_allocate` of a size whose order is below 4 does not return where the lists of the orders
-- from there to 5 are empty, whatever the lists of the orders above 5 hold: no fuel gives a result.
pub page_allocate_endless :
    (fuel size level : ℕ) (s : Pages)
    → page_level size ≡ ok (pos level)
    → level < 4
    → ((l : ℕ) → level ≤ l → l ≤ 5 → s.page_list l ≡ none)
    → page_allocate fuel size s ≡ out_of_fuel
unfolding page_allocate
page_allocate_endless fuel size level s order h empty = rw (
  order,
  list_index-ok level (omega arith),
  empty level (omega arith) (omega arith),
  lt→ltb level page_max_order (omega arith),
  page_divide_endless fuel (level + 1) s (omega arith) λ l lo hi. empty l (omega arith) hi,
)
