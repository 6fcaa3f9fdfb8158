-- ===== src/Alloc/Unlink.antt =====
-- `delete_page_item` of lib/malloc.c on a well-formed list, at any place of it.
use bare_metal_os_kernel.Base.{
  ℕ, true, false, Option, none, some, List, [], ◌∷◌, ◌++◌, ◌≡◌, refl, sym, subst, ap, ◌∙◌, ◌==◌,
  update, arith, eq→==, has, Distinct, has-ne, has-append_right, last, has-last, update_self,
  update_out,
}
use bare_metal_os_kernel.Alloc.Pages.{PageItem, Pages, unlink}
use bare_metal_os_kernel.Alloc.FreeList.{Linked, IsFree, Linked-frame, Linked-before}

-- `previous->next = next; next->previous = previous;`
abbrev relink : ℕ → Option ℕ → (ℕ → PageItem) → ℕ → PageItem
relink p none it = update it p (record (it p) { next = none })
relink p (some n) it =
    let it' = update it p (record (it p) { next = some n }) in
    update it' n (record (it' n) { previous = some p })

unlink-relink :
    (level p : ℕ) (nx : Option ℕ) (s : Pages)
    → unlink level (some p) nx s ≡ record s { items = relink p nx s.items }
unlink-relink level p none s = refl
unlink-relink level p (some n) s = refl

relink-out :
    (p y : ℕ) (nx : Option ℕ) (it : ℕ → PageItem)
    → (p == y) ≡ false
    → ((n : ℕ) → nx ≡ some n → (n == y) ≡ false)
    → relink p nx it y ≡ it y
relink-out p y none it h k = rw h
relink-out p y (some n) it h k = rw (k n refl, h)

head-has :
    (it : ℕ → PageItem) (before head : Option ℕ) (xs : List ℕ) (n : ℕ)
    → Linked it before head xs
    → head ≡ some n
    → has n xs ≡ true
head-has it before head [] n l e = cc
head-has it before head (x ∷ xs) n l e = ground (arith, l.0)

-- Behind the first item: `y` takes over the rest of `x`.
relink_second :
    (it : ℕ → PageItem) (before head : Option ℕ) (y x : ℕ) (zs : List ℕ)
    → Distinct (y ∷ x ∷ zs)
    → Linked it before head (y ∷ x ∷ zs)
    → Linked (relink y (it x).next it) before head (y ∷ zs)
relink_second it before head y x [] d (h, i, p, l) =
    subst (λ nx. Linked (relink y nx it) before head (y ∷ [])) (sym l.3)
      (rw (eq→== y y refl) (h, i, p, refl))
relink_second it before head y x (z ∷ zs) (out, d) (h, i, p, l) =
    subst (λ nx. Linked (relink y nx it) before head (y ∷ z ∷ zs)) (sym l.3.0)
      (h, ap (λ q. q.index) front ∙ i, ap (λ q. q.previous) front ∙ p, rest)
  where
    item : PageItem
    item = record (it y) { next = some z }

    it1 : ℕ → PageItem
    it1 = update it y item

    front : relink y (some z) it y ≡ item
    front = ground arith

    apart : has y (z ∷ zs) ≡ false
    apart = ground arith

    kept : Linked it1 (some x) (some z) (z ∷ zs)
    kept =
        Linked-frame it it1 (some x) (some z) (z ∷ zs) (update_out it y item (z ∷ zs) apart)
          (refl, l.3.1, l.3.2, l.3.3)

    moved : Linked (relink y (some z) it) (some y) (some z) (z ∷ zs)
    moved = Linked-before it1 (some x) (some y) (some z) z zs (d.1).0 kept

    rest : Linked (relink y (some z) it) (some y) (relink y (some z) it y).next (z ∷ zs)
    rest = subst (λ q. Linked (relink y (some z) it) (some y) q.next (z ∷ zs)) (sym front) moved

Linked-after :
    (it : ℕ → PageItem) (before head : Option ℕ) (ys : List ℕ) (x : ℕ) (zs : List ℕ)
    → Linked it before head (ys ++ x ∷ zs)
    → Linked it (some x) (it x).next zs
Linked-after it before head [] x zs l = l.3
Linked-after it before head (y ∷ ys) x zs l = Linked-after it (some y) (it y).next ys x zs l.3

==_comm : (a b : ℕ) → (a == b) ≡ false → (b == a) ≡ false
==_comm a b h = ground arith

-- Deeper in the list: the last item before `x` takes over the rest of `x`.
relink_inner :
    (it : ℕ → PageItem) (before head : Option ℕ) (y : ℕ) (ys : List ℕ) (x : ℕ) (zs : List ℕ)
    → Distinct (y ∷ ys ++ x ∷ zs)
    → Linked it before head (y ∷ ys ++ x ∷ zs)
    → Linked (relink (last y ys) (it x).next it) before head (y ∷ ys ++ zs)
relink_inner it before head y [] x zs d l = relink_second it before head y x zs d l
relink_inner it before head y (w ∷ ws) x zs (out, d) (h, i, p, l) =
    rw same (h, i, p, relink_inner it (some y) (it y).next w ws x zs d l)
  where
    next_in : (n : ℕ) → (it x).next ≡ some n → has n (w ∷ ws ++ x ∷ zs) ≡ true
    next_in n e =
        let after = Linked-after it (some y) (it y).next (w ∷ ws) x zs l in
        has-append_right n (w ∷ ws) (x ∷ zs)
          (ground (arith, head-has it (some x) (it x).next zs n after e))

    same : relink (last w ws) (it x).next it y ≡ it y
    same =
        relink-out (last w ws) y (it x).next it
          (==_comm y (last w ws) (has-ne y _ (w ∷ ws ++ x ∷ zs) out (has-last w ws (x ∷ zs))))
          (λ n e. ==_comm y n (has-ne y n (w ∷ ws ++ x ∷ zs) out (next_in n e)))

previous-last :
    (it : ℕ → PageItem) (before head : Option ℕ) (y : ℕ) (ys : List ℕ) (x : ℕ) (zs : List ℕ)
    → Linked it before head (y ∷ ys ++ x ∷ zs)
    → (it x).previous ≡ some (last y ys)
previous-last it before head y [] x zs l = l.3.2
previous-last it before head y (w ∷ ws) x zs l = previous-last it (some y) (it y).next w ws x zs l.3

unlink_front :
    (s : Pages) (level x : ℕ) (zs : List ℕ)
    → Distinct (x ∷ zs)
    → IsFree s level (x ∷ zs)
    → IsFree (unlink level none (s.items x).next s) level zs
unlink_front s level x [] d l =
    subst (λ nx. IsFree (unlink level none nx s) level []) (sym l.3)
      (update_self s.page_list level none)
unlink_front s level x (z ∷ zs) d l =
    subst (λ nx. IsFree (unlink level none nx s) level (z ∷ zs)) (sym l.3.0)
      (rw (update_self s.page_list level (some z))
        (Linked-before s.items (some x) none (some z) z zs (d.1).0 (refl, l.3.1, l.3.2, l.3.3)))

-- `unlink` with the item's own pointers takes it out of a well-formed list.
pub unlink-IsFree :
    (s : Pages) (level : ℕ) (ys : List ℕ) (x : ℕ) (zs : List ℕ)
    → Distinct (ys ++ x ∷ zs)
    → IsFree s level (ys ++ x ∷ zs)
    → IsFree (unlink level (s.items x).previous (s.items x).next s) level (ys ++ zs)
unlink-IsFree s level [] x zs d l =
    subst (λ pr. IsFree (unlink level pr (s.items x).next s) level zs) (sym l.2)
      (unlink_front s level x zs d l)
unlink-IsFree s level (y ∷ ys) x zs d l =
    subst (λ pr. IsFree (unlink level pr (s.items x).next s) level (y ∷ ys ++ zs))
      (sym (previous-last s.items none (s.page_list level) y ys x zs l))
      (subst (λ t. IsFree t level (y ∷ ys ++ zs))
        (sym (unlink-relink level (last y ys) (s.items x).next s))
        (relink_inner s.items none (s.page_list level) y ys x zs d l))

unlink_out :
    (level : ℕ) (pr nx : Option ℕ) (s : Pages) (a : ℕ)
    → ((p : ℕ) → pr ≡ some p → (p == a) ≡ false)
    → ((n : ℕ) → nx ≡ some n → (n == a) ≡ false)
    → (unlink level pr nx s).items a ≡ s.items a
unlink_out level none none s a h k = refl
unlink_out level none (some n) s a h k = rw (k n refl)
unlink_out level (some p) none s a h k = rw (h p refl)
unlink_out level (some p) (some n) s a h k = rw (k n refl, h p refl)

next_has :
    (it : ℕ → PageItem) (before head : Option ℕ) (ys : List ℕ) (x : ℕ) (zs : List ℕ)
    → Linked it before head (ys ++ x ∷ zs)
    → (n : ℕ) → (it x).next ≡ some n
    → has n (ys ++ x ∷ zs) ≡ true
next_has it before head ys x zs l n e =
    let found = head-has it (some x) (it x).next zs n (Linked-after it before head ys x zs l) e in
    has-append_right n ys (x ∷ zs) (ground arith)

previous_has :
    (it : ℕ → PageItem) (head : Option ℕ) (ys : List ℕ) (x : ℕ) (zs : List ℕ)
    → Linked it none head (ys ++ x ∷ zs)
    → (p : ℕ) → (it x).previous ≡ some p
    → has p (ys ++ x ∷ zs) ≡ true
previous_has it head [] x zs l p e = cc (l.2)
previous_has it head (y ∷ ys) x zs l p e =
    let last_in = has-last y ys (x ∷ zs) in
    let behind = previous-last it none head y ys x zs l in
    let same : p ≡ last y ys = cc in subst (λ q. has q (y ∷ ys ++ x ∷ zs) ≡ true) (sym same) last_in

-- It changes no item outside the list.
pub unlink-kept :
    (s : Pages) (level : ℕ) (ys : List ℕ) (x : ℕ) (zs : List ℕ) (a : ℕ)
    → IsFree s level (ys ++ x ∷ zs)
    → has a (ys ++ x ∷ zs) ≡ false
    → (unlink level (s.items x).previous (s.items x).next s).items a ≡ s.items a
unlink-kept s level ys x zs a l out =
    unlink_out level (s.items x).previous (s.items x).next s a
      (λ p e. ==_comm a p (has-ne a p whole out (previous_has s.items head ys x zs l p e)))
      (λ n e. ==_comm a n (has-ne a n whole out (next_has s.items none head ys x zs l n e)))
  where
    whole : List ℕ
    whole = ys ++ x ∷ zs

    head : Option ℕ
    head = s.page_list level
