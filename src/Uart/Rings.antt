-- ===== src/Uart/Rings.antt =====
-- The rings of lib/uart.c as queues of characters.
use bare_metal_os_kernel.Base.{
  ℕ, ◌+◌, ◌-◌, ◌%◌, ◌^◌, ◌≤◌, ◌<◌, ◌≡◌, refl, sym, true, false, List, [], ◌∷◌, ◌++◌, length,
  length-append, ok, ◌==◌, lt→ltb, eq→==, ne→==, update, update_self, arith,
}
use bare_metal_os_kernel.Uart.{Ring, max_buf_size, wrap, put_char, take_char}

-- The characters from position `r` up to `w`.
abbrev pub Between : (buffer : ℕ → ℕ) → (r w : ℕ) → List ℕ → Type 0
Between buffer r w [] = r ≡ w
Between buffer r w (x ∷ xs) = (buffer r ≡ x) × Between buffer (wrap (r + 1)) w xs

-- The ring holds the characters `xs`, oldest first.
pub record Holds (q : Ring) (xs : List ℕ) : Type 0 where
  pub inside : q.ridx < max_buf_size
  pub room : length xs < max_buf_size
  pub chars : Between q.buffer q.ridx q.widx xs

pub Between-end :
    (buffer : ℕ → ℕ) (r w : ℕ) (xs : List ℕ)
    → r < max_buf_size
    → Between buffer r w xs
    → (r + length xs) % max_buf_size ≡ w
Between-end buffer r w [] lt b = omega (arith, b)
Between-end buffer r w (x ∷ xs) lt b =
    ground (arith, Between-end buffer (wrap (r + 1)) w xs (ground arith) b.1)

-- A write `d` places behind the start of the ring keeps the fewer characters before it.
pub Between-write :
    (buffer : ℕ → ℕ) (r w p : ℕ) (xs : List ℕ) (d c : ℕ)
    → r < max_buf_size
    → length xs ≤ d
    → d < max_buf_size
    → p ≡ (r + d) % max_buf_size
    → Between buffer r w xs
    → Between (update buffer p c) r w xs
Between-write buffer r w p [] d c lt le room e b = b
Between-write buffer r w p (x ∷ xs) d c lt le room e b = (
  ground (arith, b.0),
  Between-write buffer (wrap (r + 1)) w p xs (d - 1) c (ground arith) (omega arith) (omega arith)
      (ground arith) b.1,
)

Between-snoc :
    (buffer : ℕ → ℕ) (r w c : ℕ) (xs : List ℕ)
    → w < max_buf_size
    → buffer w ≡ c
    → Between buffer r w xs
    → Between buffer r (wrap (w + 1)) (xs ++ c ∷ [])
Between-snoc buffer r w c [] lt e b = rw b (e, refl)
Between-snoc buffer r w c (x ∷ xs) lt e b =
    (b.0, Between-snoc buffer (wrap (r + 1)) w c xs lt e b.1)

Between-put :
    (buffer : ℕ → ℕ) (r w c : ℕ) (xs : List ℕ)
    → r < max_buf_size
    → length xs < max_buf_size
    → Between buffer r w xs
    → Between (update buffer w c) r (wrap (w + 1)) (xs ++ c ∷ [])
Between-put buffer r w c xs lt room b =
    Between-snoc (update buffer w c) r w c xs (omega (arith, Between-end buffer r w xs lt b))
      (update_self buffer w c)
      (Between-write buffer r w w xs (length xs) c lt (omega arith) room
        (sym (Between-end buffer r w xs lt b)) b)

-- The ring with `c` behind what it holds.
abbrev pub with_char : ℕ → Ring → Ring
with_char c q = record q { buffer = update q.buffer q.widx c; widx = wrap (q.widx + 1) }

-- The ring without the character that it starts with.
abbrev pub without_char : Ring → Ring
without_char q = record q { ridx = wrap (q.ridx + 1) }

-- The write index of a ring that holds `xs`.
pub Holds-widx :
    (q : Ring) (xs : List ℕ) → Holds q xs → q.widx ≡ (q.ridx + length xs) % max_buf_size
Holds-widx q xs h = sym (Between-end q.buffer q.ridx q.widx xs h.inside h.chars)

pub put_char-ok : (c : ℕ) (q : Ring) (xs : List ℕ) → Holds q xs → put_char c q ≡ ok (with_char c q)
unfolding put_char
put_char-ok c q xs h = rw (lt→ltb q.widx max_buf_size (omega (arith, Holds-widx q xs h)))

pub take_char-ok :
    (q : Ring) (x : ℕ) (xs : List ℕ) → Holds q (x ∷ xs) → take_char q ≡ ok (x, without_char q)
unfolding take_char
take_char-ok q x xs h = rw (lt→ltb q.ridx max_buf_size h.inside, h.chars.0)

-- A ring with room for one more keeps one place free.
pub with_char-Holds :
    (c : ℕ) (q : Ring) (xs : List ℕ)
    → length xs + 1 < max_buf_size
    → Holds q xs
    → Holds (with_char c q) (xs ++ c ∷ [])
with_char-Holds c q xs lt h = record {
  inside = h.inside;
  room = omega (arith, lt, length-append xs (c ∷ []));
  chars = Between-put q.buffer q.ridx q.widx c xs h.inside h.room h.chars;
}

pub without_char-Holds :
    (q : Ring) (x : ℕ) (xs : List ℕ) → Holds q (x ∷ xs) → Holds (without_char q) xs
without_char-Holds q x xs h = record {
  inside = ground (arith, h.inside);
  room = omega (arith, h.room);
  chars = h.chars.1;
}

-- Equal indices are an empty ring.
pub Holds-empty : (q : Ring) → Holds q [] → (q.ridx == q.widx) ≡ true
Holds-empty q h = eq→== q.ridx q.widx h.chars

pub Holds-more : (q : Ring) (x : ℕ) (xs : List ℕ) → Holds q (x ∷ xs) → (q.ridx == q.widx) ≡ false
Holds-more q x xs h =
    ne→== q.ridx q.widx (λ e. omega (arith, e, Holds-widx q (x ∷ xs) h, h.inside, h.room))

-- A ring with one place free counts as full.
pub Holds-full :
    (q : Ring) (xs : List ℕ)
    → length xs + 1 ≡ max_buf_size
    → Holds q xs
    → (((q.widx + 1) % 2 ^ 32 % max_buf_size) == q.ridx) ≡ true
Holds-full q xs e h = eq→== _ q.ridx (omega (arith, e, Holds-widx q xs h, h.inside))

pub Holds-room :
    (q : Ring) (xs : List ℕ)
    → length xs + 1 < max_buf_size
    → Holds q xs
    → (((q.widx + 1) % 2 ^ 32 % max_buf_size) == q.ridx) ≡ false
Holds-room q xs lt h = ne→== _ q.ridx (λ e. omega (arith, lt, e, Holds-widx q xs h, h.inside))
