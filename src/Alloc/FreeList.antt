-- ===== src/Alloc/FreeList.antt =====
-- The doubly linked free lists of lib/malloc.c: what `add_page_item` and `delete_page_item` do to
-- a well-formed list.
use bare_metal_os_kernel.Base.{
  ℕ, true, false, Option, none, some, List, [], ◌∷◌, ◌≡◌, refl, sym, subst, ap, update, arith,
  eq→==, has, Distinct, update_self, update_out,
}
use bare_metal_os_kernel.Alloc.Pages.{PageItem, Pages, put_front}

-- From `head`, with `before` in front of it, the pointers of the items lead through the list.
abbrev pub Linked : (ℕ → PageItem) → (before head : Option ℕ) → List ℕ → Type 0
Linked it before head [] = head ≡ none
Linked it before head (x ∷ xs) =
    (head ≡ some x)
    × ((it x).index ≡ x)
    × ((it x).previous ≡ before)
    × Linked it (some x) (it x).next xs

-- The free list of an order.
abbrev pub IsFree : Pages → ℕ → List ℕ → Type 0
IsFree s level xs = Linked s.items none (s.page_list level) xs

-- A change of items that are not in the list keeps it.
pub Linked-frame :
    (it it' : ℕ → PageItem) (before head : Option ℕ) (xs : List ℕ)
    → ((x : ℕ) → has x xs ≡ true → it' x ≡ it x)
    → Linked it before head xs
    → Linked it' before head xs
Linked-frame it it' before head [] same l = l
Linked-frame it it' before head (x ∷ xs) same (h, i, p, l) =
    let e : it' x ≡ it x = same x (ground arith) in
    rw e
      (h, i, p, Linked-frame it it' (some x) (it x).next xs (λ y m. same y (ground (arith, m))) l)

-- A new `previous` of the first item is the only change that the rest does not see.
pub Linked-before :
    (it : ℕ → PageItem) (before after head : Option ℕ) (x : ℕ) (xs : List ℕ)
    → has x xs ≡ false
    → Linked it before head (x ∷ xs)
    → Linked (update it x (record (it x) { previous = after })) after head (x ∷ xs)
Linked-before it before after head x xs out (h, i, p, l) =
    rw (update_self it x (record (it x) { previous = after }))
      (h, i, refl, Linked-frame it _ (some x) (it x).next xs (update_out it x _ xs out) l)

-- `put_front` on a list that does not have the item puts it in front.
pub put_front-Linked :
    (s : Pages) (index level : ℕ) (xs : List ℕ)
    → Distinct (index ∷ xs)
    → IsFree s level xs
    → IsFree (put_front index level (s.page_list level) s) level (index ∷ xs)
put_front-Linked s index level [] d l =
    rw (l, put_front, eq→== level level refl, eq→== index index refl) (refl, refl, refl, refl)
put_front-Linked s index level (x ∷ xs) (out, (inner, d)) l =
    subst (λ o. IsFree (put_front index level o s) level (index ∷ x ∷ xs)) (sym l.0)
      (rw (eq→== level level refl)
        (refl, ap (λ q. q.index) front, ap (λ q. q.previous) front, after))
  where
    item : PageItem
    item = record { index = index; previous = none; next = some x }

    it1 : ℕ → PageItem
    it1 = update s.items index item

    it2 : ℕ → PageItem
    it2 = update it1 x (record (it1 x) { previous = some index })

    kept : Linked it1 none (some x) (x ∷ xs)
    kept =
        Linked-frame s.items it1 none (some x) (x ∷ xs) (update_out s.items index item (x ∷ xs) out)
          (refl, l.1, l.2, l.3)

    moved : Linked it2 (some index) (some x) (x ∷ xs)
    moved = Linked-before it1 none (some index) (some x) x xs inner kept

    front : it2 index ≡ item
    front = ground arith

    after : Linked it2 (some index) (it2 index).next (x ∷ xs)
    after = subst (λ q. Linked it2 (some index) q.next (x ∷ xs)) (sym front) moved
