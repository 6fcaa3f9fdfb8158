-- ===== src/Alloc/Pages.antt =====
-- The page allocator of lib/malloc.c. A `page_item` stands at the end of the page that it is for,
-- so a pointer to one is the page's index, and NULL is `none`.
use bare_metal_os_kernel.Base.{
  ℕ, zero, suc, ◌+◌, ◌-◌, ◌*◌, ◌%◌, Bool, ◌&&◌, Option, none, some, Run, ok, fault, out_of_fuel,
  ◌>>=◌, ℤ, pos, negsuc, int_eq, int_suc, int_pred, ltb, ◌==◌, if◌then◌else◌, update,
}
use bare_metal_os_kernel.Alloc.Sizes.{page_max_order, page_max_entry, power2, page_level}

pub record FrameInfo : Type 0 where
  pub status : ℕ
  pub index : ℤ

pub record PageItem : Type 0 where
  pub index : ℕ
  pub previous : Option ℕ
  pub next : Option ℕ

pub record Pages : Type 0 where
  pub frame : ℕ → FrameInfo
  pub items : ℕ → PageItem
  pub page_list : ℕ → Option ℕ

abbrev pub page_free_mark : ℤ
page_free_mark = negsuc 0

abbrev pub page_allocated : ℤ
page_allocated = negsuc 1

-- `(frame+i)->…`: an access outside the table is a fault.
unfoldable pub frame_at : Pages → ℕ → Run FrameInfo
frame_at s i = if ltb i page_max_entry then ok (s.frame i) else fault

unfoldable pub set_frame : ℕ → FrameInfo → Pages → Run Pages
set_frame i v s =
    if ltb i page_max_entry then ok (record s { frame = update s.frame i v }) else fault

abbrev pub set_item : ℕ → PageItem → Pages → Pages
set_item i v s = record s { items = update s.items i v }

-- `page_list[level]`: the array has the orders up to `PAGE_MAX_ORDER`.
unfoldable pub list_index : ℤ → Run ℕ
list_index (pos l) = if ltb page_max_order l then fault else ok l
list_index (negsuc l) = fault

abbrev pub set_list : ℕ → Option ℕ → Pages → Pages
set_list l v s = record s { page_list = update s.page_list l v }

abbrev pub put_front : ℕ → ℕ → Option ℕ → Pages → Pages
put_front index level none s =
    set_list level (some index)
      (set_item index (record { index = index; previous = none; next = none }) s)
put_front index level (some current) s =
    let s' = set_item index (record { index = index; previous = none; next = some current }) s in
    set_list level (some index)
      (set_item current (record (s'.items current) { previous = some index }) s')

unfoldable pub add_page_item : ℕ → Pages → Run Pages
add_page_item index s = do
  f ← frame_at s index
  level ← list_index f.index
  ok (put_front index level (s.page_list level) s)

-- The four cases of `next` and `previous`.
abbrev pub unlink : ℕ → (previous next : Option ℕ) → Pages → Pages
unlink level (some p) (some n) s =
    let s' = set_item p (record (s.items p) { next = some n }) s in
    set_item n (record (s'.items n) { previous = some p }) s'
unlink level none (some n) s =
    set_list level (some n) (set_item n (record (s.items n) { previous = none }) s)
unlink level (some p) none s = set_item p (record (s.items p) { next = none }) s
unlink level none none s = set_list level none s

unfoldable pub delete_page_item : ℕ → Pages → Run Pages
delete_page_item index s = do
  f ← frame_at s index
  level ← list_index f.index
  ok (unlink level (s.items index).previous (s.items index).next s)

-- The body of `page_divide` where the list of the order has a head.
unfoldable pub divide_head : ℕ → ℕ → Pages → Run Pages
divide_head level current s = do
  let index = (s.items current).index
  let s1 = set_list level (s.items current).next s
  f ← frame_at s1 index
  s2 ← set_frame index (record f { index = int_pred f.index }) s1
  s3 ← add_page_item index s2
  let half = index + power2 (int_pred (pos level))
  g ← frame_at s3 half
  s4 ← set_frame half (record g { index = int_pred (pos level) }) s3
  add_page_item half s4

unfoldable pub page_divide : ℕ → ℕ → Pages → Run Pages
page_divide zero level s = out_of_fuel
page_divide (suc fuel) level s = do
  l ← list_index (pos level)
  elim (s.page_list l) [
    | some current ↦ divide_head level current s
    | none ↦
        if ltb level 5
        then (page_divide fuel (level + 1) s >>= λ s'. page_divide fuel level s')
        else ok s
  ]

-- `for (i = …) (frame+base+i)->index = mark`, with `n` rounds left.
unfoldable pub mark_frames : ℕ → (base i : ℕ) → ℤ → Pages → Run Pages
mark_frames zero base i mark s = ok s
mark_frames (suc n) base i mark s = do
  f ← frame_at s (base + i)
  s' ← set_frame (base + i) (record f { index = mark }) s
  mark_frames n base (i + 1) mark s'

-- `page_allocate` from the line that reads the head of the list on: with no head it reads NULL.
unfoldable pub take_head : ℕ → Pages → Run (ℤ × Pages)
take_head level s = elim (s.page_list level) [
  | none ↦ fault
  | some current ↦ do
    let item = s.items current
    f ← frame_at s item.index
    s1 ← set_frame item.index (record f { status = 1 }) s
    s2 ← mark_frames (power2 (pos level) - 1) item.index 1 page_allocated s1
    ok (pos item.index, set_list level item.next s2)
]

unfoldable pub page_allocate : ℕ → ℕ → Pages → Run (ℤ × Pages)
page_allocate fuel size s = do
  order ← page_level size
  level ← list_index order
  elim (s.page_list level) [
    | some current ↦ take_head level s
    | none ↦
        if ltb level page_max_order
        then (page_divide fuel (level + 1) s >>= λ s'. take_head level s')
        else ok (negsuc 0, s)
  ]

-- The block that `merge` joins `index` to: the one above, or the one below if `index` is the upper
-- half. Below page 0 there is no frame.
unfoldable pub buddy : ℕ → ℕ → Run ℕ
buddy index size =
    if (index % (2 * size)) == 0
    then ok (index + size)
    else if ltb index size
    then fault
    else ok (index - size)

-- The two blocks leave their list, and the lower one enters the next list as the whole.
unfoldable pub join : (lower upper index other : ℕ) → Pages → Run Pages
join lower upper index other s = do
  s1 ← delete_page_item index s
  s2 ← delete_page_item other s1
  u ← frame_at s2 upper
  s3 ← set_frame upper (record u { index = page_free_mark }) s2
  l ← frame_at s3 lower
  s4 ← set_frame lower (record l { index = int_suc l.index }) s3
  add_page_item lower s4

unfoldable pub mergeable : FrameInfo → FrameInfo → Bool
mergeable f g = int_eq f.index g.index && ((f.status == 0) && (g.status == 0))

unfoldable pub merge : ℕ → ℕ → Pages → Run Pages
merge zero index s = out_of_fuel
merge (suc fuel) index s = do
  f ← frame_at s index
  if int_eq f.index (pos page_max_order) then ok s else do
    other ← buddy index (power2 f.index)
    g ← frame_at s other
    let lower = if ltb index other then index else other
    let upper = if ltb index other then other else index
    if mergeable f g then (join lower upper index other s >>= λ s'. merge fuel lower s') else ok s

unfoldable pub page_free : ℕ → ℕ → Pages → Run Pages
page_free fuel index s = do
  f ← frame_at s index
  s1 ← add_page_item index s
  g ← frame_at s1 index
  s2 ← set_frame index (record g { status = 0 }) s1
  s3 ← mark_frames (power2 f.index - 1) index 1 page_free_mark s2
  merge fuel index s3
