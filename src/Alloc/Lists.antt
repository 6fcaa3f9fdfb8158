-- ===== src/Alloc/Lists.antt =====
-- `add_page_item` and `delete_page_item` of lib/malloc.c as wholes.
use bare_metal_os_kernel.Base.{
  has, Distinct, ℕ, true, false, Option, none, some, List, [], ◌∷◌, ◌++◌, ◌≡◌, ◌≢◌, ◌≤◌, ◌<◌, refl,
  ok, pos, arith, ne→==, Returns,
}
use bare_metal_os_kernel.Alloc.Sizes.{page_max_order, page_max_entry}
use bare_metal_os_kernel.Alloc.Pages.{Pages, put_front, unlink, add_page_item, delete_page_item}
use bare_metal_os_kernel.Alloc.Frames.{frame_at-ok, list_index-ok}
use bare_metal_os_kernel.Alloc.FreeList.{IsFree, Linked-frame, put_front-Linked}
use bare_metal_os_kernel.Alloc.Unlink.{unlink-IsFree, unlink-kept}

-- No item of `ys` is in `xs`.
abbrev pub Apart : List ℕ → List ℕ → Type 0
Apart xs ys = (a : ℕ) → has a ys ≡ true → has a xs ≡ false

-- The block is one of the table, and its frame says that it is of this order.
pub record IsBlock (s : Pages) (index level : ℕ) : Type 0 where
  pub inside : index < page_max_entry
  pub order : level ≤ page_max_order
  pub recorded : (s.frame index).index ≡ pos level

put_front-kept :
    (s : Pages) (index level : ℕ) (xs ys : List ℕ)
    → IsFree s level xs
    → Apart (index ∷ xs) ys
    → (a : ℕ) → has a ys ≡ true
    → (put_front index level (s.page_list level) s).items a ≡ s.items a
put_front-kept s index level [] ys l apart a m = rw (l, put_front) (ground (arith, apart a m))
put_front-kept s index level (x ∷ xs) ys l apart a m =
    rw (l.0, put_front) (ground (arith, apart a m))

put_front-list :
    (s : Pages) (index level j : ℕ) (head : Option ℕ)
    → level ≢ j
    → (put_front index level head s).page_list j ≡ s.page_list j
put_front-list s index level j none ne = rw (ne→== level j ne)
put_front-list s index level j (some x) ne = rw (ne→== level j ne)

put_front-frame :
    (s : Pages) (index level : ℕ) (head : Option ℕ) → (put_front index level head s).frame ≡ s.frame
put_front-frame s index level none = refl
put_front-frame s index level (some x) = refl

add_page_item-put_front :
    (s : Pages) (index level : ℕ)
    → IsBlock s index level
    → add_page_item index s ≡ ok (put_front index level (s.page_list level) s)
unfolding add_page_item
add_page_item-put_front s index level b =
    rw (frame_at-ok s index b.inside, b.recorded, list_index-ok level b.order)

unlink-list :
    (level j : ℕ) (pr nx : Option ℕ) (s : Pages)
    → level ≢ j
    → (unlink level pr nx s).page_list j ≡ s.page_list j
unlink-list level j none none s ne = rw (ne→== level j ne)
unlink-list level j none (some n) s ne = rw (ne→== level j ne)
unlink-list level j (some p) none s ne = refl
unlink-list level j (some p) (some n) s ne = refl

unlink-frame : (level : ℕ) (pr nx : Option ℕ) (s : Pages) → (unlink level pr nx s).frame ≡ s.frame
unlink-frame level none none s = refl
unlink-frame level none (some n) s = refl
unlink-frame level (some p) none s = refl
unlink-frame level (some p) (some n) s = refl

pub delete_page_item-unlink :
    (s : Pages) (index level : ℕ)
    → IsBlock s index level
    → delete_page_item index s ≡ ok (unlink level (s.items index).previous (s.items index).next s)
unfolding delete_page_item
delete_page_item-unlink s index level b =
    rw (frame_at-ok s index b.inside, b.recorded, list_index-ok level b.order)

-- What an operation on the list of `level`, whose items were `xs`, leaves behind: that list holds
-- `ys`, the lists of other orders that share no item with it are as before, and so is the table.
pub record Relisted (s : Pages) (level : ℕ) (xs ys : List ℕ) (s' : Pages) : Type 0 where
  pub held : IsFree s' level ys
  pub others : (j : ℕ) (zs : List ℕ) → level ≢ j → Apart xs zs → IsFree s j zs → IsFree s' j zs
  pub table : s'.frame ≡ s.frame

-- `add_page_item` on a block of an order whose list is well-formed and does not hold it returns,
-- and puts the block in front of that list.
pub add_page_item-Relisted :
    (s : Pages) (index level : ℕ) (xs : List ℕ)
    → IsBlock s index level
    → Distinct (index ∷ xs)
    → IsFree s level xs
    → Returns (Relisted s level (index ∷ xs) (index ∷ xs)) (add_page_item index s)
add_page_item-Relisted s index level xs b d l = (
  put_front index level head s,
  add_page_item-put_front s index level b,
  record {
    held = put_front-Linked s index level xs d l;
    others = λ j zs ne apart k. rw (put_front-list s index level j head ne) (
        Linked-frame s.items _ none (s.page_list j) zs (put_front-kept s index level xs zs l apart)
          k);
    table = put_front-frame s index level head;
  },
)
  where
    head : Option ℕ
    head = s.page_list level

-- `delete_page_item` on a block anywhere in the well-formed list of its order returns, and takes
-- the block, and no other, out of that list.
pub delete_page_item-Relisted :
    (s : Pages) (index level : ℕ) (ys zs : List ℕ)
    → IsBlock s index level
    → Distinct (ys ++ index ∷ zs)
    → IsFree s level (ys ++ index ∷ zs)
    → Returns (Relisted s level (ys ++ index ∷ zs) (ys ++ zs)) (delete_page_item index s)
delete_page_item-Relisted s index level ys zs b d l = (
  unlink level (s.items index).previous (s.items index).next s,
  delete_page_item-unlink s index level b,
  record {
    held = unlink-IsFree s level ys index zs d l;
    others = λ j us ne apart k.
        rw (unlink-list level j (s.items index).previous (s.items index).next s ne) (
          Linked-frame s.items _ none (s.page_list j) us
            (λ a m. unlink-kept s level ys index zs a l (apart a m)) k);
    table = unlink-frame level (s.items index).previous (s.items index).next s;
  },
)
