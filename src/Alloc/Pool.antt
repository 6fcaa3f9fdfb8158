-- ===== src/Alloc/Pool.antt =====
-- The chunk allocator of lib/malloc.c. A `pool_header` stands at the start of its page, so a
-- pointer to one is the page's index. The bytes of `page_info` behind it are a function of the page
-- and the position.
use bare_metal_os_kernel.Base.{
  ℕ, zero, suc, ◌+◌, ◌-◌, ◌*◌, ◌/◌, ◌%◌, ◌^◌, Bool, true, false, ◌||◌, Option, none, some, Run, ok,
  fault, out_of_fuel, ◌>>=◌, pos, negsuc, ltb, leb, ◌==◌, if◌then◌else◌, update,
}
use bare_metal_os_kernel.Alloc.Sizes.{page_size, aling8, chunk_size}
use bare_metal_os_kernel.Alloc.Pages.{Pages, page_allocate, page_free}

pub record PoolHeader : Type 0 where
  pub size : ℕ
  pub total : ℕ
  pub used : ℕ
  pub next : Option ℕ

pub record Heap : Type 0 where
  pub pages : Pages
  pub pool : Option ℕ
  pub header : ℕ → PoolHeader
  pub page_info : ℕ → ℕ → ℕ

-- `sizeof(pool_header)`: four words of 8 bytes.
abbrev pub sizeof_pool_header : ℕ
sizeof_pool_header = 32

unfoldable pub chunks_in_page : ℕ → ℕ
chunks_in_page size = (page_size - aling8 sizeof_pool_header - 16) / (size + 1)

unfoldable pub chunk_offset : (total size i : ℕ) → ℕ
chunk_offset total size i = aling8 sizeof_pool_header + aling8 total + size * i

abbrev pub set_header : ℕ → PoolHeader → Heap → Heap
set_header p v h = record h { header = update h.header p v }

abbrev pub set_info : ℕ → ℕ → ℕ → Heap → Heap
set_info p i v h = record h { page_info = update h.page_info p (update (h.page_info p) i v) }

unfoldable pub opened_info : ℕ → (ℕ → ℕ) → ℕ → ℕ
opened_info total old i = if i == 0 then 1 else if ltb i total then 0 else old i

-- A failed `page_allocate` gives page -1, which is not in memory.
unfoldable pub open_page : ℕ → ℕ → Heap → Run (ℕ × Heap)
open_page fuel size h = do
  (page, pages) ← page_allocate fuel size h.pages
  elim page [
    | negsuc _ ↦ fault
    | pos p ↦
        (let total = chunks_in_page size in
          ok (
            page_size * p + chunk_offset total size 0,
            record h {
              pages = pages;
              pool = some p;
              header =
                  update h.header p
                    (record { size = size; total = total; used = 1; next = h.pool });
              page_info = update h.page_info p (opened_info total (h.page_info p));
            },
          ))
  ]

-- The first of the `n` bytes from `i` on that is 0.
unfoldable pub first_free : ℕ → (i : ℕ) → (ℕ → ℕ) → Option ℕ
first_free zero i info = none
first_free (suc n) i info =
    let rest = first_free n (i + 1) info in if info i == 0 then some i else rest

unfoldable pub unfit : ℕ → PoolHeader → Bool
unfit size hd = ltb hd.size size || (leb (2 * size) hd.size || leb hd.total hd.used)

-- `while (cur)`: where no byte of the page is 0 the loop comes back to the same page with `used`
-- one higher.
unfoldable pub malloc_loop : ℕ → (page_fuel size : ℕ) → Option ℕ → Heap → Run (ℕ × Heap)
malloc_loop zero page_fuel size cur h = out_of_fuel
malloc_loop (suc fuel) page_fuel size none h = open_page page_fuel size h
malloc_loop (suc fuel) page_fuel size (some p) h =
    let hd = h.header p in
    let h1 = set_header p (record hd { used = hd.used + 1 }) h in
    elim (unfit size hd) [
      | true ↦ malloc_loop fuel page_fuel size hd.next h
      | false ↦ elim (first_free hd.total 0 (h.page_info p)) [
        | none ↦ malloc_loop fuel page_fuel size (some p) h1
        | some i ↦ ok (page_size * p + chunk_offset hd.total hd.size i, set_info p i 1 h1)
      ]
    ]

unfoldable pub malloc_ : (fuel page_fuel : ℕ) → ℕ → Heap → Run (ℕ × Heap)
malloc_ fuel page_fuel asked h = do
  size ← chunk_size asked
  malloc_loop fuel page_fuel size h.pool h

-- `while (cur != addr)`, and the write that takes the page out of the pool.
unfoldable pub unchain : ℕ → (page : ℕ) → (pre cur : Option ℕ) → Heap → Run Heap
unchain zero page pre cur h = out_of_fuel
unchain (suc fuel) page pre none h = fault
unchain (suc fuel) page pre (some p) h = elim (p == page) [
  | false ↦ unchain fuel page (some p) (h.header p).next h
  | true ↦ elim pre [
    | none ↦ ok (record h { pool = (h.header p).next })
    | some q ↦ ok (set_header q (record (h.header q) { next = (h.header p).next }) h)
  ]
]

unfoldable pub remove_page : (fuel page_fuel : ℕ) → ℕ → Heap → Run Heap
remove_page fuel page_fuel page h = do
  h1 ← unchain fuel page none h.pool h
  pages ← page_free page_fuel page h1.pages
  ok (record h1 { pages = pages })

-- The position in `page_info` of the chunk at an offset of the page; the subtractions wrap.
unfoldable pub chunk_index : (total size offset : ℕ) → ℕ
chunk_index total size offset =
    (2 ^ 65 + offset - aling8 total - aling8 sizeof_pool_header) % 2 ^ 64 / size

unfoldable pub free_at : (fuel page_fuel page offset : ℕ) → Heap → Run Heap
free_at fuel page_fuel page offset h =
    let hd = h.header page in
    let i = chunk_index hd.total hd.size offset in
    let less = record hd { used = (hd.used + 2 ^ 64 - 1) % 2 ^ 64 } in
    if hd.used == 1
    then remove_page fuel page_fuel page h
    else ok (set_info page i 0 (set_header page less h))

unfoldable pub free : (fuel page_fuel : ℕ) → ℕ → Heap → Run Heap
free fuel page_fuel addr h = free_at fuel page_fuel (addr / page_size) (addr % page_size) h
