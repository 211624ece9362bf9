-- ===== src/Lottery/Linked/Draw.antt =====
-- What the draw of the linked-list policy picks, and how often.
use linux_kernel_programming.Prelude.{
  ℕ, zero, suc, ◌+◌, ◌*◌, ◌≤◌, ◌<◌, ◌≡◌, refl, ap, add-zero, add-suc, Option, none, some, List, [],
  ◌∷◌, ◌++◌, arith, leb, ◌==◌, if◌then◌else◌, Bool-cases, inl, inr, ◌%◌,
}
use linux_kernel_programming.Prelude.Words.{u64_mod}
use linux_kernel_programming.Prelude.Sums.{sum, count}
use linux_kernel_programming.Lottery.Linked.{pick_from}

-- One round of the loop, where the running total does not wrap.
pub pick_from-cons :
    (ticket : ℕ → ℕ) (lucky s t : ℕ) (ts : List ℕ)
    → s + ticket t < u64_mod
    → pick_from ticket lucky s (t ∷ ts)
      ≡ (if leb lucky (s + ticket t) then some t else pick_from ticket lucky (s + ticket t) ts)
unfolding pick_from
pick_from-cons ticket lucky s t ts h =
    let e : (s + ticket t) % u64_mod ≡ s + ticket t = omega arith in rw e

-- The draw over two parts of a queue.
pub pick_from-append :
    (ticket : ℕ → ℕ) (lucky s : ℕ) (xs ys : List ℕ)
    → s + sum ticket xs < u64_mod
    → s < lucky
    → pick_from ticket lucky s (xs ++ ys) ≡ (
        if leb lucky (s + sum ticket xs)
        then pick_from ticket lucky s xs
        else pick_from ticket lucky (s + sum ticket xs) ys)
pick_from-append ticket lucky s [] ys h p = ground arith
pick_from-append ticket lucky s (x ∷ xs) ys h p =
    simp
      (
        pick_from-cons ticket lucky s x (xs ++ ys) (omega arith),
        pick_from-cons ticket lucky s x xs (omega arith),
      )
      (elim (Bool-cases (leb lucky (s + ticket x))) [
        | inl e ↦ rw e (ground arith)
        | inr e ↦ rw e (ground (arith, pick_from-append ticket lucky (s + ticket x) xs ys))
      ])

-- The winner holds the lucky ticket.
pub record Holds (ticket : ℕ → ℕ) (lucky s : ℕ) (queue : List ℕ) : Type 0 where
  pub before : List ℕ
  pub holder : ℕ
  pub after : List ℕ
  pub split : queue ≡ before ++ holder ∷ after
  pub above : s + sum ticket before < lucky
  pub within : lucky ≤ s + sum ticket before + ticket holder

-- Where the sum of the tickets fits 64 bits and the lucky ticket lies above the start and within the
-- sum, the loop stops, and at the task whose range of tickets holds the lucky ticket.
pub pick_from-Holds :
    (ticket : ℕ → ℕ) (lucky s : ℕ) (queue : List ℕ)
    → s + sum ticket queue < u64_mod
    → s < lucky
    → lucky ≤ s + sum ticket queue
    → (h : Holds ticket lucky s queue) × (pick_from ticket lucky s queue ≡ some h.holder)
pick_from-Holds ticket lucky s [] h p q = absurd (omega arith)
pick_from-Holds ticket lucky s (x ∷ xs) h p q = elim (Bool-cases (leb lucky (s + ticket x))) [
  | inl e ↦ (
    record {
      before = [];
      holder = x;
      after = xs;
      split = refl;
      above = omega arith;
      within = ground arith;
    },
    rw (pick_from-cons ticket lucky s x xs (omega arith), e),
  )
  | inr e ↦
      let (r, found) =
        pick_from-Holds ticket lucky (s + ticket x) xs (omega arith) (ground arith) (omega arith) in
      (
        record {
          before = x ∷ r.before;
          holder = r.holder;
          after = r.after;
          split = ap (λ q. x ∷ q) r.split;
          above = omega (arith, r.above);
          within = omega (arith, r.within);
        },
        rw (pick_from-cons ticket lucky s x xs (omega arith), e) found,
      )
]

wins_by : Option ℕ → ℕ → ℕ
wins_by none w = 0
wins_by (some t) w = if t == w then 1 else 0

-- How many of the lucky tickets `a + 1 .. a + n` the task `w` wins, with `s` tickets before the queue.
unfoldable pub wins : (ℕ → ℕ) → ℕ → List ℕ → ℕ → ℕ → ℕ → ℕ
unfolding wins_by
wins ticket s queue w a zero = 0
wins ticket s queue w a (suc n) =
    wins_by (pick_from ticket (a + suc n) s queue) w + wins ticket s queue w a n

module _ (ticket : ℕ → ℕ) (w : ℕ) where
  wins-add :
      (s : ℕ) (queue : List ℕ) (a n m : ℕ)
      → wins ticket s queue w a (n + m)
        ≡ wins ticket s queue w a n + wins ticket s queue w (a + n) m
  unfolding wins
  wins-add s queue a n zero = rw add-zero (omega arith)
  wins-add s queue a n (suc m) =
      let e : a + suc (n + m) ≡ a + n + suc m = omega arith in
      rw (add-suc, e) (omega (arith, wins-add s queue a n m))

  wins_head :
      (s x : ℕ) (xs : List ℕ) (n : ℕ)
      → s + ticket x < u64_mod
      → n ≤ ticket x
      → wins ticket s (x ∷ xs) w s n ≡ (if x == w then n else 0)
  unfolding wins
  wins_head s x xs zero h p = ground arith
  wins_head s x xs (suc n) h p =
      rw (pick_from-cons ticket (s + suc n) s x xs h) (ground (arith, wins_head s x xs n))

  wins_tail :
      (s x : ℕ) (xs : List ℕ) (n : ℕ)
      → s + ticket x < u64_mod
      → wins ticket s (x ∷ xs) w (s + ticket x) n ≡ wins ticket (s + ticket x) xs w (s + ticket x) n
  unfolding wins
  wins_tail s x xs zero h = refl
  wins_tail s x xs (suc n) h =
      rw (pick_from-cons ticket (s + ticket x + suc n) s x xs h)
        (ground (arith, wins_tail s x xs n h))

  -- Where the sum of the tickets fits 64 bits: over all lucky tickets a task wins as often as it
  -- holds tickets, once for each of its places in the queue.
  pub wins_fair :
      (s : ℕ) (queue : List ℕ)
      → s + sum ticket queue < u64_mod
      → wins ticket s queue w s (sum ticket queue) ≡ count w queue * ticket w
  wins_fair s [] h = unfold wins in omega arith
  wins_fair s (x ∷ xs) h =
      rw
        (
          wins-add s (x ∷ xs) s (ticket x) (sum ticket xs),
          wins_tail s x xs (sum ticket xs) (omega arith),
          wins_fair (s + ticket x) xs (omega arith),
          wins_head s x xs (ticket x) (omega arith) (omega arith),
        )
        (ground arith)
