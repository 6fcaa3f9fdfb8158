-- ===== src/Alloc/Setup.antt =====
-- The start-up of the page allocator of lib/malloc.c: `page_init`, `memory_reserve` and
-- `simple_malloc_`. The addresses that the linker and other parts give are arguments.
use bare_metal_os_kernel.Base.{
  ℕ, zero, suc, ◌+◌, ◌-◌, ◌*◌, ◌/◌, ◌%◌, ◌^◌, true, false, Run, ok, fault, out_of_fuel, ◌>>=◌, ltb,
  ◌==◌, if◌then◌else◌,
}
use bare_metal_os_kernel.Base.{ℤ, negsuc, int_eq, int_pred}
use bare_metal_os_kernel.Alloc.Sizes.{page_size, page_max_entry, log2, power2}
use bare_metal_os_kernel.Alloc.Pages.{
  Pages, frame_at, set_frame, add_page_item, page_free_mark, mark_frames,
}

abbrev pub page_reserved : ℤ
page_reserved = negsuc 2

-- The block and the new `heap_top`.
unfoldable pub simple_malloc_ : (heap_top size : ℕ) → ℕ × ℕ
simple_malloc_ heap_top size = (heap_top, heap_top + (0x10 + size - size % 0x10))

-- `while ((frame+head)->index == -1) head--;`
unfoldable pub block_head : (fuel head : ℕ) → Pages → Run ℕ
block_head zero head s = out_of_fuel
block_head (suc fuel) zero s = do
  f ← frame_at s 0
  if int_eq f.index page_free_mark then fault else ok 0
block_head (suc fuel) (suc head) s = do
  f ← frame_at s (suc head)
  let rest = block_head fuel head s
  if int_eq f.index page_free_mark then rest else ok (suc head)

-- A block becomes two free blocks of the order below; the size of each is returned too.
unfoldable pub halve : (head : ℕ) → Pages → Run (ℕ × Pages)
halve head s = do
  f ← frame_at s head
  let order = int_pred f.index
  s1 ← set_frame head (record { index = order; status = 0 }) s
  s2 ← set_frame (head + power2 order) (record { index = order; status = 0 }) s1
  ok (power2 order, s2)

unfoldable pub narrow : (fuel start_index head : ℕ) → Pages → Run (ℕ × Pages)
narrow zero start_index head s = out_of_fuel
narrow (suc fuel) start_index head s = elim (head == start_index) [
  | true ↦ ok (head, s)
  | false ↦ do
    (size, s1) ← halve head s
    narrow fuel start_index (if ltb start_index (head + size) then head else head + size) s1
]

-- The whole block is reserved; its size is returned too.
unfoldable pub reserve_block : (head : ℕ) → Pages → Run (ℕ × Pages)
reserve_block head s = do
  f ← frame_at s head
  s1 ← set_frame head (record f { status = 1 }) s
  s2 ← mark_frames (power2 f.index - 1) head 1 page_reserved s1
  ok (power2 f.index, s2)

unfoldable pub reserve_whole : (fuel end_index head : ℕ) → Pages → Run (ℕ × Pages)
reserve_whole zero end_index head s = out_of_fuel
reserve_whole (suc fuel) end_index head s = do
  f ← frame_at s head
  elim (ltb (head + power2 f.index) end_index) [
    | false ↦ ok (head, s)
    | true ↦ do (size, s1) ← reserve_block head s; reserve_whole fuel end_index (head + size) s1
  ]

unfoldable pub reserve_rest : (fuel end_index head : ℕ) → Pages → Run (ℕ × Pages)
reserve_rest zero end_index head s = out_of_fuel
reserve_rest (suc fuel) end_index head s = do
  f ← frame_at s head
  elim ((head + power2 f.index) == (end_index + 1)) [
    | true ↦ ok (head, s)
    | false ↦ do
      (size, s1) ← halve head s
      elim (ltb end_index (head + size)) [
        | true ↦ reserve_rest fuel end_index head s1
        | false ↦ do
          (whole, s2) ← reserve_block head s1
          reserve_rest fuel end_index (head + whole) s2
      ]
  ]

unfoldable pub memory_reserve : (fuel start end_ : ℕ) → Pages → Run Pages
memory_reserve fuel start end_ s = do
  let start_index = start / page_size % 2 ^ 32
  let end_index = end_ / page_size % 2 ^ 32
  head ← block_head fuel start_index s
  (first, s1) ← narrow fuel start_index head s
  (next, s2) ← reserve_whole fuel end_index first s1
  (last_head, s3) ← reserve_rest fuel end_index next s2
  (size, s4) ← reserve_block last_head s3
  ok s4

-- The rounds of `for (i = …; i < head; i++)` that mark the inner frames of a block.
unfoldable pub clear_frames : (n i : ℕ) → Pages → Run Pages
clear_frames zero i s = ok s
clear_frames (suc n) i s = do
  s1 ← set_frame i (record { index = page_free_mark; status = 0 }) s
  clear_frames n (i + 1) s1

unfoldable pub init_frames : (fuel head non_init : ℕ) → Pages → Run Pages
init_frames zero head non_init s = out_of_fuel
init_frames (suc fuel) head non_init s = elim (ltb head page_max_entry) [
  | false ↦ ok s
  | true ↦ do
    order ← log2 non_init
    s1 ← set_frame head (record { index = order; status = 0 }) s
    let next = head + power2 order
    let first = page_max_entry - non_init + 1
    s2 ← clear_frames (next - first) first s1
    init_frames fuel next ((non_init + 2 ^ 32 - power2 order) % 2 ^ 32) s2
]

unfoldable pub list_free : (fuel head : ℕ) → Pages → Run Pages
list_free zero head s = out_of_fuel
list_free (suc fuel) head s = elim (ltb head page_max_entry) [
  | false ↦ ok s
  | true ↦ do
    f ← frame_at s head
    s1 ← (if f.status == 0 then add_page_item head s else ok s)
    g ← frame_at s1 head
    list_free fuel (head + power2 g.index) s1
]

-- The addresses of what `page_init` keeps out of the free lists.
pub record Layout : Type 0 where
  pub heap_top : ℕ
  pub kernel_start : ℕ
  pub kernel_end : ℕ
  pub cpio_default_place : ℕ
  pub cpio_default_place_end : ℕ
  pub dtb_place : ℕ
  pub dtb_size : ℕ

abbrev pub user_program_space : ℕ
user_program_space = 0x900000

abbrev pub user_program_max_size : ℕ
user_program_max_size = 0x500000

-- `sizeof(frame_info)`.
abbrev pub sizeof_frame_info : ℕ
sizeof_frame_info = 8

unfoldable pub page_init : (fuel : ℕ) → Layout → Pages → Run Pages
page_init fuel at s = do
  let (sim_alloc_start, heap_top) = simple_malloc_ at.heap_top (page_max_entry * sizeof_frame_info)
  s1 ← init_frames fuel 0 page_max_entry s
  s2 ← memory_reserve fuel sim_alloc_start (sim_alloc_start + page_max_entry * sizeof_frame_info) s1
  s3 ← memory_reserve fuel 0 0x1000 s2
  s4 ← memory_reserve fuel at.kernel_start at.kernel_end s3
  s5 ← memory_reserve fuel (at.kernel_start - 0x2000) (at.kernel_start - 0x1000) s4
  s6 ← memory_reserve fuel at.cpio_default_place (at.cpio_default_place_end + 0x1000) s5
  s7 ← memory_reserve fuel at.dtb_place (at.dtb_place + at.dtb_size) s6
  s8 ← memory_reserve fuel user_program_space (user_program_space + user_program_max_size) s7
  list_free fuel 0 s8
