-- ===== src/Alloc/Frames.antt =====
-- Accesses inside the frame table and the array of lists of lib/malloc.c succeed.
use bare_metal_os_kernel.Base.{ℕ, ◌≤◌, ◌<◌, ◌≡◌, ok, pos, update, lt→ltb, le→ltb}
use bare_metal_os_kernel.Alloc.Sizes.{page_max_order, page_max_entry}
use bare_metal_os_kernel.Alloc.Pages.{FrameInfo, Pages, frame_at, set_frame, list_index}

pub frame_at-ok : (s : Pages) (i : ℕ) → i < page_max_entry → frame_at s i ≡ ok (s.frame i)
unfolding frame_at
frame_at-ok s i h = rw (lt→ltb i page_max_entry h)

pub set_frame-ok :
    (s : Pages) (i : ℕ) (v : FrameInfo)
    → i < page_max_entry
    → set_frame i v s ≡ ok (record s { frame = update s.frame i v })
unfolding set_frame
set_frame-ok s i v h = rw (lt→ltb i page_max_entry h)

pub list_index-ok : (l : ℕ) → l ≤ page_max_order → list_index (pos l) ≡ ok l
unfolding list_index
list_index-ok l h = rw (le→ltb page_max_order l h)
