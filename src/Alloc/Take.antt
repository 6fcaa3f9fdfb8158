-- ===== src/Alloc/Take.antt =====
-- `page_allocate` of lib/malloc.c where the list of the order has a block: the block that it hands
-- out, the frames that it marks, and the pointer that it leaves behind.
use mathlib.Core.Option.{some-injective}
use mathlib.Core.Path.{fun_ext}
use bare_metal_os_kernel.Base.{
  ℕ, zero, suc, ◌+◌, ◌-◌, ◌&&◌, Option, none, some, List, ◌∷◌, ◌≡◌, ◌≢◌, ◌≤◌, ◌<◌, refl, sym, ap,
  subst, ◌∙◌, ok, ℤ, pos, ltb, leb, if◌then◌else◌, update, arith, lt→ltb, eq→==, Returns,
}
use bare_metal_os_kernel.Alloc.Sizes.{page_max_order, page_max_entry, power2, page_level}
use bare_metal_os_kernel.Alloc.Bounds.{power2-pow, pow_mono}
use bare_metal_os_kernel.Alloc.Pages.{
  FrameInfo, Pages, frame_at, set_frame, mark_frames, take_head, page_allocate, page_allocated,
  delete_page_item, unlink,
}
use bare_metal_os_kernel.Alloc.Frames.{frame_at-ok, set_frame-ok, list_index-ok}
use bare_metal_os_kernel.Alloc.FreeList.{IsFree}
use bare_metal_os_kernel.Alloc.Lists.{IsBlock, delete_page_item-unlink}

-- The table after a loop that marks the `n` frames from `base + i` on.
abbrev pub marked : ℕ → (base i : ℕ) → ℤ → (ℕ → FrameInfo) → ℕ → FrameInfo
marked n base i mark fr j =
    if leb (base + i) j && ltb j (base + i + n) then record (fr j) { index = mark } else fr j

marked_none :
    (base i : ℕ) (mark : ℤ) (fr : ℕ → FrameInfo) (j : ℕ) → fr j ≡ marked 0 base i mark fr j
marked_none base i mark fr j = ground arith

marked_more :
    (n base i : ℕ) (mark : ℤ) (fr : ℕ → FrameInfo) (j : ℕ)
    → marked n base (i + 1) mark (update fr (base + i) (record (fr (base + i)) { index = mark })) j
      ≡ marked (suc n) base i mark fr j
marked_more n base i mark fr j = ground arith

pub mark_frames-marked :
    (n base i : ℕ) (mark : ℤ) (s : Pages)
    → base + i + n ≤ page_max_entry
    → mark_frames n base i mark s ≡ ok (record s { frame = marked n base i mark s.frame })
unfolding mark_frames frame_at set_frame
mark_frames-marked zero base i mark s h =
    ap (λ f. ok (record s { frame = f })) (fun_ext (marked_none base i mark s.frame))
mark_frames-marked (suc n) base i mark s h =
    rw
      (
        lt→ltb (base + i) page_max_entry (omega arith),
        mark_frames-marked n base (i + 1) mark _ (omega arith),
      )
      (ap (λ f. ok (record s { frame = f })) (fun_ext (marked_more n base i mark s.frame)))

-- What `page_allocate` leaves behind when it takes block `a` of order `level` off its list.
pub record Taken (s : Pages) (level a : ℕ) (s' : Pages) : Type 0 where
  pub first : s'.frame a ≡ record (s.frame a) { status = 1 }
  pub rest :
      (j : ℕ)
      → a < j
      → j < a + power2 (pos level)
      → s'.frame j ≡ record (s.frame j) { index = page_allocated }
  pub below : (j : ℕ) → j < a → s'.frame j ≡ s.frame j
  pub above : (j : ℕ) → a + power2 (pos level) ≤ j → s'.frame j ≡ s.frame j
  pub head : s'.page_list level ≡ (s.items a).next
  pub lists : (j : ℕ) → level ≢ j → s'.page_list j ≡ s.page_list j
  pub items : s'.items ≡ s.items

abbrev taken : Pages → ℕ → ℕ → Pages
taken s level a = record s {
  frame =
      marked (power2 (pos level) - 1) a 1 page_allocated
        (update s.frame a (record (s.frame a) { status = 1 }));
  page_list = update s.page_list level (s.items a).next;
}

taken-Taken : (s : Pages) (level a : ℕ) → 1 ≤ power2 (pos level) → Taken s level a (taken s level a)
taken-Taken s level a h = record {
  first = ground arith;
  rest = λ j lo hi. ground arith;
  below = λ j lo. ground arith;
  above = λ j hi. ground arith;
  head = ground arith;
  lists = λ j ne. ground arith;
  items = refl;
}

take_head-taken :
    (s : Pages) (level a : ℕ)
    → s.page_list level ≡ some a
    → (s.items a).index ≡ a
    → 1 ≤ power2 (pos level)
    → a + power2 (pos level) ≤ page_max_entry
    → take_head level s ≡ ok (pos a, taken s level a)
unfolding take_head
take_head-taken s level a e i one fits = rw (
  e,
  take_head,
  i,
  frame_at-ok s a (omega arith),
  set_frame-ok s a _ (omega arith),
  mark_frames-marked (power2 (pos level) - 1) a 1 page_allocated _ (omega arith),
)

power2_pos : (level : ℕ) → level ≤ page_max_order → 1 ≤ power2 (pos level)
power2_pos level h = omega (arith, power2-pow level (omega arith), pow_mono 0 level (omega arith))

-- Where the list of the order of `size` is well-formed and starts with block `a`, and the block
-- lies inside the table, `page_allocate` returns `a`: it marks the block's frames, no others, and
-- takes it off the list.
pub page_allocate-Taken :
    (fuel size level a : ℕ) (xs : List ℕ) (s : Pages)
    → page_level size ≡ ok (pos level)
    → level ≤ page_max_order
    → IsFree s level (a ∷ xs)
    → a + power2 (pos level) ≤ page_max_entry
    → (s' : Pages) × (page_allocate fuel size s ≡ ok (pos a, s')) × Taken s level a s'
unfolding page_allocate
page_allocate-Taken fuel size level a xs s order small l fits = (
  taken s level a,
  rw (order, list_index-ok level small, l.0)
      (take_head-taken s level a l.0 l.1 (power2_pos level small) fits),
  taken-Taken s level a (power2_pos level small),
)

-- `delete_page_item` has treated block `b` as one behind block `p`: the list starts as before, and
-- `p` and the block behind `b` are linked.
pub record Bypassed (p b level : ℕ) (s s' : Pages) : Type 0 where
  pub still_head : s'.page_list level ≡ s.page_list level
  pub forward : (s'.items p).next ≡ (s.items b).next
  pub backward : (n : ℕ) → (s.items b).next ≡ some n → (s'.items n).previous ≡ some p
  pub frames : s'.frame ≡ s.frame

unlink-forward : (s : Pages) (p n : ℕ) → ((unlink 0 (some p) (some n) s).items p).next ≡ some n
unlink-forward s p n = ground arith

unlink-Bypassed :
    (level p b : ℕ) (nx : Option ℕ) (s : Pages)
    → (s.items b).next ≡ nx
    → Bypassed p b level s (unlink level (some p) nx s)
unlink-Bypassed level p b none s e = record {
  still_head = refl;
  forward = rw (eq→== p p refl) (sym e);
  backward = λ n f. absurd (ground (arith, e, f));
  frames = refl;
}
unlink-Bypassed level p b (some n) s e = record {
  still_head = refl;
  forward = unlink-forward s p n ∙ sym e;
  backward = λ m f. rw (eq→== n m (some-injective n m (sym e ∙ f))) refl;
  frames = refl;
}

-- After `page_allocate` took the head `a` of a well-formed list, the next block `b` heads the list,
-- but its pointer to the previous block still leads to `a`. When `b` is to leave the list in its
-- turn, `delete_page_item` links `a`, which was given out, with the block behind `b`, and the list
-- goes on to start with `b`.
pub page_allocate_stale :
    (fuel size level a b : ℕ) (xs : List ℕ) (s s' : Pages)
    → page_level size ≡ ok (pos level)
    → level ≤ page_max_order
    → IsFree s level (a ∷ b ∷ xs)
    → a + power2 (pos level) ≤ page_max_entry
    → page_allocate fuel size s ≡ ok (pos a, s')
    → IsBlock s' b level
    → (s'.page_list level ≡ some b)
      × ((s'.items b).previous ≡ some a)
      × Returns
          (λ s''. (s''.page_list level ≡ some b) × Bypassed a b level s' s'')
          (delete_page_item b s')
page_allocate_stale fuel size level a b xs s s' order small l fits run block = (
  head,
  behind,
  (
    unlink level (s'.items b).previous (s'.items b).next s',
    delete_page_item-unlink s' b level block,
    rw behind (bypassed.still_head ∙ head, bypassed),
  ),
)
  where
    outcome : (t : Pages) × (page_allocate fuel size s ≡ ok (pos a, t)) × Taken s level a t
    outcome = page_allocate-Taken fuel size level a (b ∷ xs) s order small l fits

    same : outcome.0 ≡ s'
    same = cc (outcome.1)

    after : Taken s level a s'
    after = subst (Taken s level a) same outcome.2

    head : s'.page_list level ≡ some b
    head = after.head ∙ l.3.0

    behind : (s'.items b).previous ≡ some a
    behind = ap (λ it. (it b).previous) after.items ∙ l.3.2

    bypassed : Bypassed a b level s' (unlink level (some a) (s'.items b).next s')
    bypassed = unlink-Bypassed level a b (s'.items b).next s' refl
