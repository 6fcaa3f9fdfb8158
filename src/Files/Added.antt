-- ===== src/Files/Added.antt =====
-- The store after `tmpfs_create` of lib/tmpfs.c has made a node and put it into a directory.
use bare_metal_os_kernel.Base.{
  ℕ, ◌+◌, ◌≤◌, ◌<◌, ◌≡◌, refl, sym, subst, ap, ◌∙◌, Option, none, some, List, [], ◌∷◌, ◌++◌, length,
  length-append, ◌==◌, eq→==, ne→==, Bool-cases, update, update_self, arith, inl, inr,
}
use bare_metal_os_kernel.Files.{Store, VnodeComponent}
use bare_metal_os_kernel.Files.Directory.{
  root_or, mounted, array_at, next_after, new_node, add_entry,
}
use bare_metal_os_kernel.Files.Entries.{Entry, Lists, Array, IsDirectory}

-- Entries stay where the store below `next`, the roots and the array up to their end stay.
pub Lists-frame :
    (s s' : Store) (entries entries' : ℕ → ℕ) (i : ℕ) (es : List Entry)
    → s.next ≤ s'.next
    → ((a : ℕ) → a < s.next → s'.vnodes a ≡ s.vnodes a)
    → ((a : ℕ) → a < s.next → (s'.components a).name ≡ (s.components a).name)
    → s'.roots ≡ s.roots
    → ((j : ℕ) → i ≤ j → j < i + length es → entries' j ≡ entries j)
    → Lists s entries i es
    → Lists s' entries' i es
Lists-frame s s' entries entries' i [] more vs cs rs same l = tt
Lists-frame s s' entries entries' i (e ∷ es) more vs cs rs same (used, (c, lt, node, named), m, l) =
    let here : entries' i ≡ entries i = same i (omega arith) (omega arith) in
    rw here (
      omega (arith, used, more),
      (
        c,
        omega (arith, lt, more),
        ap (λ v. v.component) (vs (entries i) used) ∙ node,
        cs c lt ∙ named,
      ),
      ap (λ v. root_or v.mount (entries i) s'.roots) (vs (entries i) used)
          ∙ ap (λ r. root_or (s.vnodes (entries i)).mount (entries i) r) rs
          ∙ m,
      Lists-frame s s' entries entries' (i + 1) es more vs cs rs
          (λ j le u. same j (omega (arith, le)) (omega (arith, u))) l,
    )

-- Two entries more: the new one behind the others.
Lists-snoc :
    (s : Store) (entries : ℕ → ℕ) (i : ℕ) (es : List Entry) (e : Entry)
    → Lists s entries i es
    → Lists s entries (i + length es) (e ∷ [])
    → Lists s entries i (es ++ e ∷ [])
Lists-snoc s entries i [] e l new = subst (λ j. Lists s entries j (e ∷ [])) (omega arith) new
Lists-snoc s entries i (x ∷ es) e (used, c, m, l) new = (
  used,
  c,
  m,
  Lists-snoc s entries (i + 1) es e l (subst (λ j. Lists s entries j (e ∷ [])) (omega arith) new),
)

abbrev pub after_create : (d c : ℕ) → (name : List ℕ) → Store → Store
after_create d c name s = add_entry c s.next (new_node d name s)

abbrev array_of : (c : ℕ) → Store → ℕ
array_of c s = array_at (s.components c).content (s.next + 3)

-- The array after one more entry, where the directory had the entries `es`.
array_at-Lists :
    (s : Store) (content : Option ℕ) (es : List Entry) (next : ℕ)
    → Array s content es
    → Lists s (s.entries (array_at content next)) 0 es
array_at-Lists s none [] next a = tt
array_at-Lists s none (e ∷ es) next a = ground (arith, a)
array_at-Lists s (some p) es next a = a.1

array_at-used :
    (s : Store) (content : Option ℕ) (es : List Entry) (next : ℕ)
    → s.next ≤ next
    → Array s content es
    → (array_at content next < next_after content next) × (next ≤ next_after content next)
array_at-used s none es next le a = (omega arith, omega arith)
array_at-used s (some p) es next le a = (omega (arith, a.0, le), omega arith)

-- The component of the directory is not the new one.
kept_component :
    (s : Store) (d c : ℕ) (name : List ℕ)
    → c < s.next
    → (new_node d name s).components c ≡ s.components c
kept_component s d c name lt = rw (ne→== (s.next + 1) c (omega (arith, lt))) refl

pub after_create-component :
    (s : Store) (d c : ℕ) (name : List ℕ)
    → c < s.next
    → (after_create d c name s).components c ≡ record (s.components c) {
      len = (s.components c).len + 1;
      content = some (array_at (s.components c).content (s.next + 3));
    }
unfolding add_entry
after_create-component s d c name lt =
    update_self (new_node d name s).components c _
    ∙ ap {A = VnodeComponent}
        (λ v. record v { len = v.len + 1; content = some (array_at v.content (s.next + 3)) })
        (kept_component s d c name lt)

pub after_create-next :
    (s : Store) (d c : ℕ) (name : List ℕ)
    → c < s.next
    → (after_create d c name s).next ≡ next_after (s.components c).content (s.next + 3)
unfolding add_entry
after_create-next s d c name lt =
    ap (λ v. next_after v.content (s.next + 3)) (kept_component s d c name lt)

-- What stood below `next` stays, but for the directory's component, and that keeps its name.
after_create-vnodes :
    (s : Store) (d c : ℕ) (name : List ℕ) (a : ℕ)
    → a < s.next
    → (after_create d c name s).vnodes a ≡ s.vnodes a
unfolding add_entry
after_create-vnodes s d c name a lt = rw (ne→== s.next a (omega (arith, lt))) refl

after_create-names :
    (s : Store) (d c : ℕ) (name : List ℕ) (a : ℕ)
    → c < s.next
    → a < s.next
    → ((after_create d c name s).components a).name ≡ (s.components a).name
unfolding add_entry
after_create-names s d c name a used lt = elim (Bool-cases (c == a)) [
  | inl same ↦ rw same (
      ap (λ v. v.name) (kept_component s d c name used)
      ∙ ap (λ x. (s.components x).name) (ground arith))
  | inr other ↦ rw (other, ne→== (s.next + 1) a (omega (arith, lt))) refl
]

after_create-entries :
    (s : Store) (d c : ℕ) (name : List ℕ) (j : ℕ)
    → c < s.next
    → (after_create d c name s).entries (array_of c s) j
      ≡ update (s.entries (array_of c s)) (s.components c).len s.next j
unfolding add_entry
after_create-entries s d c name j lt =
    ap {A = VnodeComponent}
      (λ v.
        update s.entries (array_at v.content (s.next + 3))
          (update (s.entries (array_at v.content (s.next + 3))) v.len s.next) (array_of c s) j)
      (kept_component s d c name lt)
    ∙ ap (λ g. g j)
        (update_self s.entries (array_of c s)
          (update (s.entries (array_of c s)) (s.components c).len s.next))

after_create-roots :
    (s : Store) (d c : ℕ) (name : List ℕ) → (after_create d c name s).roots ≡ s.roots
unfolding add_entry
after_create-roots s d c name = refl

pub new_vnode :
    (s : Store) (d c : ℕ) (name : List ℕ)
    → ((after_create d c name s).vnodes s.next).component ≡ some (s.next + 1)
unfolding add_entry
new_vnode s d c name = rw (eq→== s.next s.next refl) refl

new_mounted :
    (s : Store) (d c : ℕ) (name : List ℕ) → mounted s.next (after_create d c name s) ≡ s.next
unfolding add_entry
new_mounted s d c name = rw (eq→== s.next s.next refl) refl

new_name :
    (s : Store) (d c : ℕ) (name : List ℕ)
    → c < s.next
    → ((after_create d c name s).components (s.next + 1)).name ≡ name
unfolding add_entry
new_name s d c name lt =
    rw (ne→== c (s.next + 1) (omega (arith, lt)), eq→== (s.next + 1) (s.next + 1) refl) refl

new_entry :
    (s : Store) (d c k : ℕ) (name : List ℕ)
    → c < s.next
    → (s.components c).len ≡ k
    → s.next + 3 ≤ (after_create d c name s).next
    → Lists
        (after_create d c name s)
        ((after_create d c name s).entries (array_of c s))
        (0 + k)
        ((name, s.next) ∷ [])
new_entry s d c k name lt e more =
    let here : (after_create d c name s).entries (array_of c s) (0 + k) ≡ s.next =
      after_create-entries s d c name (0 + k) lt
      ∙ rw (eq→== (s.components c).len (0 + k) (omega (arith, e))) refl in
    rw here (
      omega (arith, more),
      (s.next + 1, omega (arith, more), new_vnode s d c name, new_name s d c name lt),
      new_mounted s d c name,
      tt,
    )

pub after_create-IsDirectory :
    (s : Store) (d c : ℕ) (es : List Entry) (name : List ℕ)
    → IsDirectory s d c es
    → IsDirectory (after_create d c name s) d c (es ++ (name, s.next) ∷ [])
after_create-IsDirectory s d c es name dir =
    let comp = after_create-component s d c name dir.component_used in
    let (inside, more) =
      array_at-used s (s.components c).content es (s.next + 3) (omega arith) dir.array in
    let next = after_create-next s d c name dir.component_used in
    record {
      node_used = omega (arith, dir.node_used, next, more);
      component_used = omega (arith, dir.component_used, next, more);
      node = ap (λ v. v.component) (after_create-vnodes s d c name d dir.node_used) ∙ dir.node;
      regular = ap (λ v. v.type) comp ∙ dir.regular;
      count =
          ap (λ v. v.len) comp ∙ omega (arith, dir.count, length-append es ((name, s.next) ∷ []));
      array =
          subst (λ k. Array (after_create d c name s) k (es ++ (name, s.next) ∷ []))
            (sym (ap (λ v. v.content) comp))
            (
              omega (arith, inside, next),
              Lists-snoc (after_create d c name s) _ 0 es (name, s.next)
                  (Lists-frame s (after_create d c name s) _ _ 0 es (omega (arith, next, more))
                    (after_create-vnodes s d c name)
                    (λ a lt. after_create-names s d c name a dir.component_used lt)
                    (after_create-roots s d c name)
                    (λ j le u.
                      after_create-entries s d c name j dir.component_used
                      ∙ rw (ne→== (s.components c).len j (omega (arith, u, dir.count))) refl)
                    (array_at-Lists s (s.components c).content es (s.next + 3) dir.array))
                  (new_entry s d c (length es) name dir.component_used dir.count
                    (omega (arith, next, more))),
            );
    }
