-- ===== src/Alloc/Tests.antt =====
-- Runs of the allocator of lib/malloc.c, and its theorems at small states.
use bare_metal_os_kernel.Base.{
  ℕ, ◌+◌, ◌<◌, ◌≡◌, refl, ap, ◌≤◌, none, some, [], ◌∷◌, ok, out_of_fuel, pos, negsuc, ◌==◌,
  if◌then◌else◌, arith, Returns,
}
use bare_metal_os_kernel.Alloc.Sizes.{page_size, log2, power2, aling8, page_level, chunk_size}
use bare_metal_os_kernel.Alloc.Bounds.{IsLeastOrder, page_level-least}
use bare_metal_os_kernel.Alloc.ChunkSize.{IsChunkFor, chunk_size-IsChunkFor, chunk_size_short}
use bare_metal_os_kernel.Alloc.Pages.{Pages, delete_page_item, page_divide, page_allocate}
use bare_metal_os_kernel.Alloc.Lists.{IsBlock, Relisted, delete_page_item-Relisted}
use bare_metal_os_kernel.Alloc.Divide.{page_divide_endless, page_allocate_endless}
use bare_metal_os_kernel.Alloc.Take.{Taken, Bypassed, page_allocate-Taken, page_allocate_stale}
use bare_metal_os_kernel.Alloc.Pool.{
  Heap, chunks_in_page, chunk_offset, first_free, unfit, malloc_, chunk_index, free,
}
use bare_metal_os_kernel.Alloc.Chunks.{Serves, address, given, chunk_layout, free-malloc_}

-- Blocks 4 and 6 of order 1, in the list of that order.
abbrev two_blocks : Pages
two_blocks = record {
  frame = λ i. record { status = 0; index = pos 1 };
  items = λ i.
      if i == 4
      then record { index = 4; previous = none; next = some 6 }
      else if i == 6
      then record { index = 6; previous = some 4; next = none }
      else record { index = i; previous = none; next = none };
  page_list = λ l. if l == 1 then some 4 else none;
}

-- Only order 6 has a block.
abbrev only_large : Pages
only_large = record {
  frame = λ i. record { status = 0; index = pos 6 };
  items = λ i. record { index = i; previous = none; next = none };
  page_list = λ l. if l == 6 then some 0 else none;
}

-- A pool of one page of 32-byte chunks, the first of which is in use.
abbrev one_page : Heap
one_page = record {
  pages = only_large;
  pool = some 7;
  header = λ p. record { size = 32; total = 122; used = 1; next = none };
  page_info = λ p i. if i == 0 then 1 else 0;
}

log2_values : (log2 0 ≡ ok (negsuc 0)) × (log2 1 ≡ ok (pos 0)) × (log2 245760 ≡ ok (pos 16))
unfolding log2
log2_values = (refl, refl, refl)

page_level_values :
    (page_level 4096 ≡ ok (pos 0))
    × (page_level 4097 ≡ ok (pos 1))
    × (page_level 12289 ≡ ok (pos 2))
unfolding page_level log2
page_level_values = (refl, refl, refl)

-- An empty request wraps to -1 pages.
page_level_empty : page_level 0 ≡ ok (pos 0)
unfolding page_level log2
page_level_empty = refl

chunk_size_values :
    (chunk_size 1 ≡ ok 8)
    × (chunk_size 33 ≡ ok 64)
    × (chunk_size 2048 ≡ ok 2048)
    × (chunk_size 2049 ≡ ok 8192)
unfolding chunk_size log2 power2
chunk_size_values = (refl, refl, refl, refl)

order_of_5000 : page_level 5000 ≡ ok (pos 1)
unfolding page_level log2
order_of_5000 = refl

size_of_30 : chunk_size 30 ≡ ok 32
unfolding chunk_size log2 power2
size_of_30 = refl

power2_one : power2 (pos 1) ≡ 2
unfolding power2
power2_one = refl

page_level-least_example : (l : ℕ) × IsLeastOrder 5000 l
page_level-least_example = page_level-least 5000 (omega arith) (omega arith)

chunk_size-IsChunkFor_example : (c : ℕ) × (chunk_size 100 ≡ ok c) × IsChunkFor 100 c
chunk_size-IsChunkFor_example = chunk_size-IsChunkFor 100 (omega arith)

chunk_size_short_example : (c : ℕ) × (chunk_size 300000 ≡ ok c) × (c < 300000)
chunk_size_short_example = chunk_size_short 300000 (omega arith) (omega arith)

block : (i : ℕ) → i < 10 → IsBlock two_blocks i 1
block i h = record { inside = omega arith; order = omega arith; recorded = refl }

delete_page_item-Relisted_example :
    Returns (Relisted two_blocks 1 (4 ∷ 6 ∷ []) (4 ∷ [])) (delete_page_item 6 two_blocks)
delete_page_item-Relisted_example =
    delete_page_item-Relisted two_blocks 6 1 (4 ∷ []) [] (block 6 (omega arith)) (refl, (refl, tt))
      (refl, refl, refl, (refl, refl, refl, refl))

no_small : (l : ℕ) → 0 + l < 6 → only_large.page_list l ≡ none
no_small l h = ground arith

page_divide_endless_example : page_divide 1000 2 only_large ≡ out_of_fuel
page_divide_endless_example =
    page_divide_endless 1000 2 only_large (omega arith) λ l lo hi. no_small l (omega arith)

page_allocate_endless_example : page_allocate 1000 5000 only_large ≡ out_of_fuel
page_allocate_endless_example =
    page_allocate_endless 1000 5000 1 only_large order_of_5000 (omega arith)
      λ l lo hi. no_small l (omega arith)

page_allocate-Taken_example :
    (s' : Pages) × (page_allocate 9 5000 two_blocks ≡ ok (pos 4, s')) × Taken two_blocks 1 4 s'
page_allocate-Taken_example =
    page_allocate-Taken 9 5000 1 4 (6 ∷ []) two_blocks order_of_5000 (omega arith)
      (refl, refl, refl, (refl, refl, refl, refl)) (omega (arith, power2_one))

-- The state after block 4 was handed out.
abbrev taken_four :
    (s' : Pages) × (page_allocate 9 5000 two_blocks ≡ ok (pos 4, s')) × Taken two_blocks 1 4 s'
taken_four =
    page_allocate-Taken 9 5000 1 4 (6 ∷ []) two_blocks order_of_5000 (omega arith)
      (refl, refl, refl, (refl, refl, refl, refl)) (omega (arith, power2_one))

IsBlock-six : IsBlock taken_four.0 6 1
IsBlock-six = record {
  inside = omega arith;
  order = omega arith;
  recorded = ap (λ f. f.index) (taken_four.2.above 6 (omega (arith, power2_one)));
}

page_allocate_stale_example :
    (taken_four.0.page_list 1 ≡ some 6)
    × ((taken_four.0.items 6).previous ≡ some 4)
    × Returns
        (λ s''. (s''.page_list 1 ≡ some 6) × Bypassed 4 6 1 taken_four.0 s'')
        (delete_page_item 6 taken_four.0)
page_allocate_stale_example =
    page_allocate_stale 9 5000 1 4 6 [] two_blocks taken_four.0 order_of_5000 (omega arith)
      (refl, refl, refl, (refl, refl, refl, refl)) (omega (arith, power2_one)) taken_four.1
      IsBlock-six

chunks_of_32 : chunks_in_page 32 ≡ 122
unfolding chunks_in_page aling8
chunks_of_32 = refl

chunk_layout_example :
    (32 + chunks_in_page 32 ≤ chunk_offset (chunks_in_page 32) 32 3)
    × (chunk_offset (chunks_in_page 32) 32 3 + 32 ≤ page_size)
    × (chunk_index (chunks_in_page 32) 32 (chunk_offset (chunks_in_page 32) 32 3) ≡ 3)
chunk_layout_example = chunk_layout 32 3 (omega arith) (omega (arith, chunks_of_32))

Serves-thirty : Serves one_page 32 7 1
unfolding unfit first_free chunks_in_page aling8
Serves-thirty = record {
  fits = refl;
  free = refl;
  laid_out = refl;
  least = omega arith;
  in_use = omega arith;
  bounded = omega arith;
}

free-malloc__example :
    (malloc_ 9 9 30 one_page ≡ ok (address one_page 7 1, given one_page 7 1))
    × (free 9 9 (address one_page 7 1) (given one_page 7 1) ≡ ok one_page)
free-malloc__example =
    free-malloc_ 9 9 30 32 7 1 [] one_page size_of_30 (omega arith) refl Serves-thirty
