-- ===== src/Timer/Insert.antt =====
-- `add_timer` of lib/timer.c on a well-formed queue, against the placing on lists.
use bare_metal_os_kernel.Base.{
  ℕ, zero, suc, ◌+◌, ◌%◌, ◌^◌, ◌<◌, ◌≡◌, ◌≢◌, refl, sym, subst, ap, ◌∙◌, Bool, true, false, ◌||◌,
  Option, none, some, List, [], ◌∷◌, length, ok, ltb, ◌==◌, update, arith, lt→ltb, Bool-cases, inl,
  inr, Returns,
}
use bare_metal_os_kernel.Timer.{
  Timer, Timers, extend_sign, insert_loop, make_head, new_timer, add_node, add_timer,
}
use bare_metal_os_kernel.Timer.Place.{Entry, place_after, place}

abbrev pub holds : ℕ → List Entry → Bool
holds a [] = false
holds a (x ∷ xs) = (a == x.0) || holds a xs

-- From `head` the nodes lead through the entries, at their addresses and with their expiries.
abbrev pub Queued : (ℕ → Timer) → (head : Option ℕ) → List Entry → Type 0
Queued node head [] = head ≡ none
Queued node head (x ∷ xs) =
    (head ≡ some x.0) × ((node x.0).expired_time ≡ x.1) × Queued node (node x.0).next xs

abbrev pub DistinctNodes : List Entry → Type 0
DistinctNodes [] = Unit {0}
DistinctNodes (x ∷ xs) = (holds x.0 xs ≡ false) × DistinctNodes xs

Queued-frame :
    (node node' : ℕ → Timer) (head : Option ℕ) (xs : List Entry)
    → ((a : ℕ) → holds a xs ≡ true → node' a ≡ node a)
    → Queued node head xs
    → Queued node' head xs
Queued-frame node node' head [] same q = q
Queued-frame node node' head (x ∷ xs) same (h, t, q) =
    let e : node' x.0 ≡ node x.0 = same x.0 (ground arith) in
    rw e (h, t, Queued-frame node node' (node x.0).next xs (λ a m. same a (ground (arith, m))) q)

holds-ne : (a b : ℕ) (xs : List Entry) → holds a xs ≡ false → holds b xs ≡ true → (a == b) ≡ false
holds-ne a b [] out h = cc
holds-ne a b (x ∷ xs) out h = ground (arith, holds-ne a b xs)

-- The two writes that put node `fresh` behind node `pre`, in front of `next`.
abbrev linked_in : (fresh pre : ℕ) → (next : Option ℕ) → (ℕ → Timer) → ℕ → Timer
linked_in fresh pre next node =
    let node' = update node pre (record (node pre) { next = some fresh }) in
    update node' fresh (record (node' fresh) { next = next })

-- Put behind the first node, in front of the rest.
linked_in-Queued :
    (fresh t : ℕ) (node : ℕ → Timer) (head : Option ℕ) (x : Entry) (xs : List Entry)
    → holds fresh (x ∷ xs) ≡ false
    → DistinctNodes (x ∷ xs)
    → (node fresh).expired_time ≡ t
    → Queued node head (x ∷ xs)
    → Queued (linked_in fresh x.0 (node x.0).next node) head (x ∷ (fresh, t) ∷ xs)
linked_in-Queued fresh t node head x xs out d e (h, p, q) = (
  h,
  ap (λ n. n.expired_time) front ∙ p,
  (ap (λ n. n.next) front, ap (λ n. n.expired_time) new ∙ e, rest),
)
  where
    next : Option ℕ
    next = (node x.0).next

    front : linked_in fresh x.0 next node x.0 ≡ record (node x.0) { next = some fresh }
    front = ground arith

    new : linked_in fresh x.0 next node fresh ≡ record (node fresh) { next = next }
    new = ground arith

    spared : (a : ℕ) → holds a xs ≡ true → linked_in fresh x.0 next node a ≡ node a
    spared a m = ground (arith, holds-ne fresh a xs, holds-ne x.0 a xs)

    rest : Queued (linked_in fresh x.0 next node) (linked_in fresh x.0 next node fresh).next xs
    rest =
        subst (λ n. Queued (linked_in fresh x.0 next node) n.next xs) (sym new)
          (Queued-frame node _ next xs spared q)

-- The node that the loop stops at is one of the queue, and putting `fresh` behind it is the placing.
record Found (node : ℕ → Timer) (fresh t : ℕ) (head : Option ℕ) (x : Entry) (xs : List Entry)
    (r : ℕ × Option ℕ) : Type 0 where
  within : holds r.0 (x ∷ xs) ≡ true
  queued : Queued (linked_in fresh r.0 r.1 node) head (x ∷ place_after (fresh, t) x.1 xs)

Found-cons :
    (node : ℕ → Timer) (fresh t : ℕ) (head : Option ℕ) (x y : Entry) (ys : List Entry)
    (r : ℕ × Option ℕ)
    → holds fresh (x ∷ y ∷ ys) ≡ false
    → DistinctNodes (x ∷ y ∷ ys)
    → Queued node head (x ∷ y ∷ ys)
    → ltb x.1 t ≡ true
    → Found node fresh t (node x.0).next y ys r
    → Found node fresh t head x (y ∷ ys) r
unfolding place_after
Found-cons node fresh t head x y ys r out d q later f = record {
  within = ground (arith, f.within);
  queued = rw later (
    q.0,
    ap (λ n. n.expired_time) front ∙ q.1,
    subst (λ n. Queued (linked_in fresh r.0 r.1 node) n.next (y ∷ place_after (fresh, t) y.1 ys))
        (sym front) f.queued,
  );
}
  where
    front : linked_in fresh r.0 r.1 node x.0 ≡ node x.0
    front = ground (arith, holds-ne x.0 r.0 (y ∷ ys) d.0 f.within)

-- The loop stops at once: the queue ends, or its next timer does not come before.
Found-here :
    (node : ℕ → Timer) (fresh t : ℕ) (head : Option ℕ) (x : Entry) (xs : List Entry) (nx : Option ℕ)
    → holds fresh (x ∷ xs) ≡ false
    → DistinctNodes (x ∷ xs)
    → (node fresh).expired_time ≡ t
    → Queued node head (x ∷ xs)
    → (node x.0).next ≡ nx
    → place_after (fresh, t) x.1 xs ≡ (fresh, t) ∷ xs
    → Found node fresh t head x xs (x.0, nx)
Found-here node fresh t head x xs nx out d e q same here = record {
  within = ground arith;
  queued =
      subst (λ l. Queued (linked_in fresh x.0 nx node) head (x ∷ l)) (sym here)
        (subst (λ n. Queued (linked_in fresh x.0 n node) head (x ∷ (fresh, t) ∷ xs)) same
          (linked_in-Queued fresh t node head x xs out d e q));
}

insert_loop-Found :
    (fuel : ℕ) (node : ℕ → Timer) (fresh t : ℕ) (head : Option ℕ) (x : Entry) (xs : List Entry)
    → length xs < fuel
    → holds fresh (x ∷ xs) ≡ false
    → DistinctNodes (x ∷ xs)
    → (node fresh).expired_time ≡ t
    → Queued node head (x ∷ xs)
    → Returns (Found node fresh t head x xs) (insert_loop fuel node t x.0 (node x.0).next)
unfolding insert_loop place_after
insert_loop-Found zero node fresh t head x xs lt out d e q = absurd (omega arith)
insert_loop-Found (suc fuel) node fresh t head x [] lt out d e q =
    subst (λ nx. Returns (Found node fresh t head x []) (insert_loop (suc fuel) node t x.0 nx))
      (sym q.2) ((x.0, none), refl, Found-here node fresh t head x [] none out d e q q.2 refl)
insert_loop-Found (suc fuel) node fresh t head x (y ∷ ys) lt out d e q =
    subst (λ nx. Returns P (insert_loop (suc fuel) node t x.0 nx)) (sym q.2.0)
      (rw (q.1, insert_loop)
        (elim (Bool-cases (ltb x.1 t)) [
          | inl later ↦ rw later (
              let (r, run, f) =
                insert_loop-Found fuel node fresh t (node x.0).next y ys (omega arith)
                  (ground arith) d.1 e q.2 in
              (r, run, Found-cons node fresh t head x y ys r out d q later f))
          | inr here ↦ rw here (
            (x.0, some y.0),
            refl,
            Found-here node fresh t head x (y ∷ ys) (some y.0) out d e q q.2.0 (rw here),
          )
        ]))
  where
    P : ℕ × Option ℕ → Type 0
    P = Found node fresh t head x (y ∷ ys)

-- What `add_timer` with delay `time` leaves behind when the queue held `xs` and the new timer is
-- `e`: the queue is what the placing gives, and the interrupt is armed for the new timer if that
-- heads the queue, and left as it was otherwise.
pub record Added (s : Timers) (e : Entry) (time : ℕ) (xs : List Entry) (s' : Timers) : Type 0 where
  pub queued : Queued s'.node s'.timer_queue (place e xs)
  pub armed : s'.timer_queue ≡ some e.0 → (s'.expires_in ≡ extend_sign time) × (s'.interrupt ≡ true)
  pub unarmed :
      s'.timer_queue ≢ some e.0 → (s'.expires_in ≡ s.expires_in) × (s'.interrupt ≡ s.interrupt)

-- In front of the queue.
make_head-Added :
    (fresh t time : ℕ) (s : Timers) (xs : List Entry)
    → (s.node fresh).expired_time ≡ t
    → holds fresh xs ≡ false
    → Queued s.node s.timer_queue xs
    → place (fresh, t) xs ≡ (fresh, t) ∷ xs
    → Added s (fresh, t) time xs (make_head fresh time s.timer_queue s)
unfolding make_head
make_head-Added fresh t time s xs e out q front = record {
  queued = subst (Queued node' (some fresh)) (sym front) (
    refl,
    ap (λ n. n.expired_time) self ∙ e,
    subst (λ n. Queued node' n.next xs) (sym self)
        (Queued-frame s.node node' s.timer_queue xs spared q),
  );
  armed = λ _. (refl, refl);
  unarmed = λ ne. absurd (ne refl);
}
  where
    timer : Timer
    timer = record (s.node fresh) { next = s.timer_queue }

    node' : ℕ → Timer
    node' = update s.node fresh timer

    self : node' fresh ≡ timer
    self = ground arith

    spared : (a : ℕ) → holds a xs ≡ true → node' a ≡ s.node a
    spared a m = ground (arith, holds-ne fresh a xs)

add_node-Added :
    (fuel fresh t time : ℕ) (s : Timers) (xs : List Entry)
    → (s.node fresh).expired_time ≡ t
    → length xs < fuel
    → holds fresh xs ≡ false
    → DistinctNodes xs
    → Queued s.node s.timer_queue xs
    → Returns (Added s (fresh, t) time xs) (add_node fuel fresh time s.timer_queue s)
unfolding add_node place
add_node-Added fuel fresh t time s [] e lt out d q = (
  make_head fresh time s.timer_queue s,
  subst (λ h. add_node fuel fresh time h s ≡ ok (make_head fresh time h s)) (sym q) refl,
  make_head-Added fresh t time s [] e out q refl,
)
add_node-Added fuel fresh t time s (x ∷ xs) e lt out d q = elim (Bool-cases (ltb t x.1)) [
  | inl first ↦ (
    make_head fresh time s.timer_queue s,
    subst (λ h. add_node fuel fresh time h s ≡ ok (make_head fresh time h s)) (sym q.0)
        (rw (add_node, e, q.1, first)),
    make_head-Added fresh t time s (x ∷ xs) e out q (rw first),
  )
  | inr later ↦
      (let (r, run, f) =
          insert_loop-Found fuel s.node fresh t s.timer_queue x xs (omega arith) out d e q in
        (
          record s { node = linked_in fresh r.0 r.1 s.node },
          subst
              (λ h.
                add_node fuel fresh time h s
                ≡ ok (record s { node = linked_in fresh r.0 r.1 s.node }))
              (sym q.0) (rw (add_node, e, q.1, later, run)),
          record {
            queued = rw later f.queued;
            armed = λ h. absurd (ground arith);
            unarmed = λ _. (refl, refl);
          },
        ))
]

-- `add_timer` with a node that the queue does not use and a message that fits, on a well-formed
-- queue `xs`, returns. The queue then holds `xs` with the new timer put where `place` puts it, and
-- the interrupt is armed with the delay if the new timer heads the queue, and as it was otherwise.
pub add_timer-Added :
    (fuel fresh call_back : ℕ) (msg : List ℕ) (time now : ℕ) (s : Timers) (xs : List Entry)
    → length msg < 100
    → length xs < fuel
    → holds fresh xs ≡ false
    → DistinctNodes xs
    → Queued s.node s.timer_queue xs
    → Returns
        (Added s (fresh, (extend_sign time + now) % 2 ^ 64) time xs)
        (add_timer fuel fresh call_back msg time now s)
unfolding add_timer new_timer
add_timer-Added fuel fresh call_back msg time now s xs short lt out d q =
    let (r, run, a) = add_node-Added fuel fresh t time s' xs self lt out d queued in
    (
      r,
      rw (lt→ltb (length msg) 100 short) run,
      record { queued = a.queued; armed = a.armed; unarmed = a.unarmed },
    )
  where
    t : ℕ
    t = (extend_sign time + now) % 2 ^ 64

    timer : Timer
    timer = new_timer call_back msg time now

    s' : Timers
    s' = record s { node = update s.node fresh timer }

    self : (s'.node fresh).expired_time ≡ t
    self = ground arith

    queued : Queued s'.node s'.timer_queue xs
    queued =
        Queued-frame s.node s'.node s.timer_queue xs (λ a m. ground (arith, holds-ne fresh a xs)) q
