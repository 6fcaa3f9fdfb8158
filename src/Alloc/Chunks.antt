-- ===== src/Alloc/Chunks.antt =====
-- The layout of the chunks of a page, and `free` of lib/malloc.c as the inverse of `malloc_`.
use mathlib.Core.Path.{fun_ext}
use native.Mathlib.Nat.{div-mul-le_self, div-eq_of_eq-mul_right}
use bare_metal_os_kernel.Base.{
  update_self, ℕ, zero, suc, ◌+◌, ◌-◌, ◌*◌, ◌/◌, ◌%◌, ◌^◌, ◌≤◌, ◌<◌, ◌≡◌, refl, sym, ap, ne→==, ◌∙◌,
  true, false, Option, some, ok, List, [], ◌∷◌, length, update, arith,
}
use bare_metal_os_kernel.Alloc.Sizes.{page_size, aling8, chunk_size}
use bare_metal_os_kernel.Alloc.Pool.{
  PoolHeader, Heap, sizeof_pool_header, chunks_in_page, chunk_offset, set_header, set_info,
  first_free, unfit, malloc_loop, malloc_, chunk_index, free_at, free,
}

aling8_bounds : (v : ℕ) → (v ≤ aling8 v) × (aling8 v ≤ v + 7)
unfolding aling8
aling8_bounds v = ground arith

header_aligned : aling8 32 ≡ 32
unfolding aling8
header_aligned = refl

chunks_fit : (size : ℕ) → chunks_in_page size * size + chunks_in_page size ≤ 4048
unfolding chunks_in_page aling8
chunks_fit size =
    let fit : chunks_in_page size * (size + 1) ≤ 4048 = div-mul-le_self 4048 (size + 1) in
    omega arith

inside : (size i total : ℕ) → i < total → size * i + size ≤ total * size
inside size i total h = grind arith

chunk_index-chunk_offset :
    (size i total : ℕ)
    → 1 ≤ size
    → size * i < 2 ^ 64
    → chunk_index total size (chunk_offset total size i) ≡ i
unfolding chunk_index chunk_offset
chunk_index-chunk_offset size i total h small =
    ap (λ k. k / size) (omega arith) ∙ div-eq_of_eq-mul_right {n = size} {k = i} h refl

chunk_offset-above : (total size i : ℕ) → sizeof_pool_header + total ≤ chunk_offset total size i
unfolding chunk_offset
chunk_offset-above total size i = omega (arith, aling8_bounds 32, aling8_bounds total)

chunk_offset-below :
    (size i : ℕ)
    → i < chunks_in_page size
    → chunk_offset (chunks_in_page size) size i + size ≤ page_size
unfolding chunk_offset
chunk_offset-below size i lt = omega (
  arith,
  header_aligned,
  aling8_bounds (chunks_in_page size),
  chunks_fit size,
  inside size i (chunks_in_page size) lt,
)

-- The chunks of a page of any chunk size from 8 bytes on start behind the header and the bytes of
-- `page_info`, end inside the page, and `free` finds their position again.
pub chunk_layout :
    (size i : ℕ)
    → 8 ≤ size
    → i < chunks_in_page size
    → let total = chunks_in_page size in
      (sizeof_pool_header + total ≤ chunk_offset total size i)
      × (chunk_offset total size i + size ≤ page_size)
      × (chunk_index total size (chunk_offset total size i) ≡ i)
chunk_layout size i h lt = (
  chunk_offset-above total size i,
  chunk_offset-below size i lt,
  chunk_index-chunk_offset size i total (omega arith)
      (omega (arith, inside size i total lt, chunks_fit size)),
)
  where
    total : ℕ
    total = chunks_in_page size

first_free_lem :
    (n i k : ℕ) (info : ℕ → ℕ) → first_free n i info ≡ some k → (info k ≡ 0) × (k < i + n)
unfolding first_free
first_free_lem zero i k info e = cc
first_free_lem (suc n) i k info e = ground (arith, first_free_lem n (i + 1) k info)

-- From `cur` the pool leads through the pages `qs`, which do not serve a chunk of `size`, to `p`.
abbrev pub Reaches : Heap → (size : ℕ) → (cur : Option ℕ) → List ℕ → ℕ → Type 0
Reaches h size cur [] p = cur ≡ some p
Reaches h size cur (q ∷ qs) p =
    (cur ≡ some q) × (unfit size (h.header q) ≡ true) × Reaches h size (h.header q).next qs p

-- Page `p` serves a chunk of `size`, and position `i` is its first that is free.
pub record Serves (h : Heap) (size p i : ℕ) : Type 0 where
  pub fits : unfit size (h.header p) ≡ false
  pub free : first_free (h.header p).total 0 (h.page_info p) ≡ some i
  pub laid_out : (h.header p).total ≡ chunks_in_page (h.header p).size
  pub least : 8 ≤ (h.header p).size
  pub in_use : 1 ≤ (h.header p).used
  pub bounded : (h.header p).used < 2 ^ 64

-- The heap after position `i` of page `p` was given out.
abbrev pub given : Heap → ℕ → ℕ → Heap
given h p i = set_info p i 1 (set_header p (record (h.header p) { used = (h.header p).used + 1 }) h)

abbrev pub address : Heap → ℕ → ℕ → ℕ
address h p i = page_size * p + chunk_offset (h.header p).total (h.header p).size i

malloc_loop-given :
    (fuel page_fuel size p i : ℕ) (qs : List ℕ) (cur : Option ℕ) (h : Heap)
    → length qs < fuel
    → Reaches h size cur qs p
    → Serves h size p i
    → malloc_loop fuel page_fuel size cur h ≡ ok (address h p i, given h p i)
unfolding malloc_loop
malloc_loop-given zero page_fuel size p i qs cur h lt r v = absurd (omega arith)
malloc_loop-given (suc fuel) page_fuel size p i [] cur h lt r v =
    rw (r, malloc_loop, v.fits, v.free)
malloc_loop-given (suc fuel) page_fuel size p i (q ∷ qs) cur h lt r v =
    rw (r.0, malloc_loop, r.1)
      (malloc_loop-given fuel page_fuel size p i qs (h.header q).next h (omega arith) r.2 v)

-- `malloc_` gives out the first free chunk of the first page of the pool that serves the size.
malloc_-given :
    (fuel page_fuel asked size p i : ℕ) (qs : List ℕ) (h : Heap)
    → chunk_size asked ≡ ok size
    → length qs < fuel
    → Reaches h size h.pool qs p
    → Serves h size p i
    → malloc_ fuel page_fuel asked h ≡ ok (address h p i, given h p i)
unfolding malloc_
malloc_-given fuel page_fuel asked size p i qs h e lt r v =
    rw e (malloc_loop-given fuel page_fuel size p i qs h.pool h lt r v)

update_restore {ℓ} :
    {A : Type ℓ} (f : ℕ → A) (p : ℕ) (v w : A) → w ≡ f p → update (update f p v) p w ≡ f
update_restore f p v w e = fun_ext (λ q. ground arith)

restored :
    (h : Heap) (p i : ℕ)
    → h.page_info p i ≡ 0
    → set_info p i 0 (set_header p (record (h.header p) { used = (h.header p).used }) (given h p i))
      ≡ h
restored h p i z = λ k. record h { header = headers k; page_info = infos k }
  where
    bytes : ℕ → ℕ
    bytes = update (h.page_info p) i 1

    headers :
        update
          (update h.header p (record (h.header p) { used = (h.header p).used + 1 }))
          p
          (h.header p)
        ≡ h.header
    headers = update_restore h.header p _ (h.header p) refl

    again : update (update h.page_info p bytes p) i 0 ≡ h.page_info p
    again =
        ap (λ f. update f i 0) (update_self h.page_info p bytes)
        ∙ update_restore (h.page_info p) i 1 0 (sym z)

    infos :
        update (update h.page_info p bytes) p (update (update h.page_info p bytes p) i 0)
        ≡ h.page_info
    infos = update_restore h.page_info p bytes _ again

address_parts :
    (p off : ℕ)
    → off < page_size
    → ((page_size * p + off) / page_size ≡ p) × ((page_size * p + off) % page_size ≡ off)
address_parts p off h = omega arith

Serves-layout :
    (h : Heap) (size p i : ℕ)
    → Serves h size p i
    → let hd = h.header p in
      let off = chunk_offset hd.total hd.size i in
      (off + hd.size ≤ page_size) × (chunk_index hd.total hd.size off ≡ i)
Serves-layout h size p i v = rw v.laid_out (layout.1, layout.2)
  where
    hd : PoolHeader
    hd = h.header p

    found : (h.page_info p i ≡ 0) × (i < 0 + hd.total)
    found = first_free_lem hd.total 0 i (h.page_info p) v.free

    layout :
        (sizeof_pool_header + chunks_in_page hd.size
          ≤ chunk_offset (chunks_in_page hd.size) hd.size i)
        × (chunk_offset (chunks_in_page hd.size) hd.size i + hd.size ≤ page_size)
        × (chunk_index
              (chunks_in_page hd.size)
              hd.size
              (chunk_offset (chunks_in_page hd.size) hd.size i)
            ≡ i)
    layout = chunk_layout hd.size i v.least (omega (arith, v.laid_out, found))

free-given :
    (fuel page_fuel size p i : ℕ) (h : Heap)
    → Serves h size p i
    → free fuel page_fuel (address h p i) (given h p i) ≡ ok h
unfolding free free_at
free-given fuel page_fuel size p i h v =
    rw
      (
        parts.0,
        parts.1,
        free_at,
        update_self h.header p (record hd { used = hd.used + 1 }),
        index,
        ne→== (hd.used + 1) 1 (omega arith),
        back,
      )
      (ap ok (restored h p i found.0))
  where
    hd : PoolHeader
    hd = h.header p

    off : ℕ
    off = chunk_offset hd.total hd.size i

    found : (h.page_info p i ≡ 0) × (i < 0 + hd.total)
    found = first_free_lem hd.total 0 i (h.page_info p) v.free

    layout :
        (chunk_offset hd.total hd.size i + hd.size ≤ page_size)
        × (chunk_index hd.total hd.size off ≡ i)
    layout = Serves-layout h size p i v

    parts : ((page_size * p + off) / page_size ≡ p) × ((page_size * p + off) % page_size ≡ off)
    parts = address_parts p off (omega (arith, layout, v.least))

    index : chunk_index hd.total hd.size off ≡ i
    index = layout.1

    back : (hd.used + 1 + 2 ^ 64 - 1) % 2 ^ 64 ≡ hd.used
    back = omega arith

-- Where page `p` is the first page of the pool that serves `asked` bytes, `malloc_` gives out a
-- chunk of that page, and `free` of its address gives the heap back as it was.
pub free-malloc_ :
    (fuel page_fuel asked size p i : ℕ) (qs : List ℕ) (h : Heap)
    → chunk_size asked ≡ ok size
    → length qs < fuel
    → Reaches h size h.pool qs p
    → Serves h size p i
    → (malloc_ fuel page_fuel asked h ≡ ok (address h p i, given h p i))
      × (free fuel page_fuel (address h p i) (given h p i) ≡ ok h)
free-malloc_ fuel page_fuel asked size p i qs h e lt r v = (
  malloc_-given fuel page_fuel asked size p i qs h e lt r v,
  free-given fuel page_fuel size p i h v,
)
