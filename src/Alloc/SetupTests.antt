-- ===== src/Alloc/SetupTests.antt =====
-- Runs of `memory_reserve` of lib/malloc.c on a block of 16 pages.
use bare_metal_os_kernel.Base.{◌≡◌, refl, none, Returns, update}
use bare_metal_os_kernel.Base.{pos, negsuc}
use bare_metal_os_kernel.Alloc.Pages.{Pages, frame_at, set_frame, mark_frames}
use bare_metal_os_kernel.Alloc.Setup.{
  memory_reserve, block_head, narrow, halve, reserve_whole, reserve_rest, reserve_block,
}
use bare_metal_os_kernel.Alloc.Sizes.{power2, power2_loop}

abbrev sixteen_pages : Pages
sixteen_pages = record {
  frame =
      update (λ _. record { status = 0; index = negsuc 0 }) 0
        (record { status = 0; index = pos 4 });
  items = λ _. record { index = 0; previous = none; next = none };
  page_list = λ _. none;
}

-- Pages 4 to 6 of the block are reserved, and page 7 stays free.
memory_reserve-three :
    Returns
      (λ s.
        (s.frame 4 ≡ record { status = 1; index = pos 1 })
        × (s.frame 5 ≡ record { status = 0; index = negsuc 2 })
        × (s.frame 6 ≡ record { status = 1; index = pos 0 })
        × (s.frame 7 ≡ record { status = 0; index = pos 0 }))
      (memory_reserve 20 0x4000 0x6000 sixteen_pages)
unfolding memory_reserve block_head narrow halve reserve_whole reserve_rest reserve_block frame_at
    set_frame mark_frames power2 power2_loop
memory_reserve-three = (_, refl, (refl, refl, refl, refl))

-- With pages 5 and 6, page 5 is a block of order 0 that ends before page 6: it is halved once more,
-- and both pages get order -1.
memory_reserve-two :
    Returns
      (λ s.
        (s.frame 5 ≡ record { status = 1; index = negsuc 0 })
        × (s.frame 6 ≡ record { status = 1; index = negsuc 0 }))
      (memory_reserve 20 0x5000 0x6000 sixteen_pages)
unfolding memory_reserve block_head narrow halve reserve_whole reserve_rest reserve_block frame_at
    set_frame mark_frames power2 power2_loop
memory_reserve-two = (_, refl, (refl, refl))
