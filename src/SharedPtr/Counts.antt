-- ===== src/SharedPtr/Counts.antt =====
-- The counts are the numbers of handles, and an object lives as long as it has a handle.
use linux_cpp_learn.Prelude.{
  update, ℕ, zero, suc, ◌+◌, ◌<◌, true, false, List, [], ◌∷◌, Option, none, some, arith, ◌≡◌, refl,
  ◌==◌, if◌then◌else◌, ltb, All, Option-cases, inl, inr, ◌⊎◌,
}
use linux_cpp_learn.SharedPtr.{Handle, make, copy, release}
use linux_cpp_learn.SharedPtr.System.{
  Sys, Action, makes, copies, drops, pick, copy_picked, drop_picked, step, run, empty_sys,
}

-- How many handles share the count number k.
abbrev pub sharers : ℕ → List Handle → ℕ
sharers k [] = 0
sharers k (x ∷ xs) = if x.count == k then suc (sharers k xs) else sharers k xs

-- The handles belong to objects that were made.
abbrev IsMade : ℕ → Handle → Type 0
IsMade n x = (x.ptr ≡ x.count) × (x.count < n)

-- A count holds the number of its handles, and is gone when there are none.
abbrev pub tally : ℕ → Option ℕ
tally zero = none
tally (suc n) = some (suc n)

pub record Inv (s : Sys) : Type 0 where
  pub made : All (IsMade s.heap.next) s.handles
  pub counted : (k : ℕ) → s.heap.counts k ≡ tally (sharers k s.handles)
  pub living : (k : ℕ) → s.heap.alive k ≡ ltb 0 (sharers k s.handles)

sharers-pick :
    (i k : ℕ) (xs rest : List Handle) (x : Handle)
    → pick i xs ≡ some (x, rest)
    → sharers k xs ≡ sharers k (x ∷ rest)
unfolding pick
sharers-pick i k [] rest x e = cc
sharers-pick zero k (y ∷ ys) rest x e =
    let same : y ≡ x = ground arith in let tail : ys ≡ rest = ground arith in rw (same, tail) refl
sharers-pick (suc i) k (y ∷ ys) rest x e = elim (Option-cases (pick i ys)) [
  | inl missing ↦ absurd (ground arith)
  | inr ((z, others), found) ↦
      let same : z ≡ x = ground arith in
      let tail : y ∷ others ≡ rest = ground arith in
      rw (← same, ← tail) (ground (arith, sharers-pick i k ys others z found))
]

All-pick :
    (n i : ℕ) (xs rest : List Handle) (x : Handle)
    → pick i xs ≡ some (x, rest)
    → All (IsMade n) xs
    → All (IsMade n) (x ∷ rest)
unfolding pick
All-pick n i [] rest x e h = cc
All-pick n zero (y ∷ ys) rest x e h =
    let same : y ≡ x = ground arith in let tail : ys ≡ rest = ground arith in rw (← same, ← tail) h
All-pick n (suc i) (y ∷ ys) rest x e h = elim (Option-cases (pick i ys)) [
  | inl missing ↦ absurd (ground arith)
  | inr ((z, others), found) ↦
      let same : z ≡ x = ground arith in
      let tail : y ∷ others ≡ rest = ground arith in
      let ih = All-pick n i ys others z found h.1 in rw (← same, ← tail) (ih.0, (h.0, ih.1))
]

sharers-above : (n : ℕ) (xs : List Handle) → All (IsMade n) xs → sharers n xs ≡ 0
sharers-above n [] h = refl
sharers-above n (x ∷ xs) h = ground (arith, sharers-above n xs h.1)

IsMade-suc : (n : ℕ) (xs : List Handle) → All (IsMade n) xs → All (IsMade (suc n)) xs
IsMade-suc n [] h = h
IsMade-suc n (x ∷ xs) h = ((h.0.0, omega arith), IsMade-suc n xs h.1)

ℕ-cases : (n : ℕ) → (n ≡ 0) ⊎ ((m : ℕ) × (n ≡ suc m))
ℕ-cases zero = inl refl
ℕ-cases (suc m) = inr (m, refl)

makes-Inv : (s : Sys) → Inv s → (t : Sys) × (step makes s ≡ some t) × Inv t
unfolding step
makes-Inv s v = (
  record {
    heap = (make s.heap).0;
    handles = record { ptr = s.heap.next; count = s.heap.next } ∷ s.handles;
  },
  refl,
  record {
    made = ((refl, omega arith), IsMade-suc s.heap.next s.handles v.made);
    counted = λ k. ground (arith, v.counted k, sharers-above s.heap.next s.handles v.made);
    living = λ k. ground (arith, v.living k, sharers-above s.heap.next s.handles v.made);
  },
)

module _ (s : Sys) (v : Inv s) (i : ℕ) (x : Handle) (rest : List Handle)
    (e : pick i s.handles ≡ some (x, rest)) where
  picked_count : s.heap.counts x.count ≡ some (suc (sharers x.count rest))
  picked_count = ground (arith, v.counted x.count, sharers-pick i x.count s.handles rest x e)

  picked_alive : s.heap.alive x.ptr ≡ true
  picked_alive =
      let own = All-pick s.heap.next i s.handles rest x e v.made in
      ground (arith, v.living x.count, sharers-pick i x.count s.handles rest x e, own.0)

  copied-Inv : Inv (record {
    heap = record s.heap {
      counts = λ k. if x.count == k then some (suc (sharers x.count rest) + 1) else s.heap.counts k;
    };
    handles = x ∷ s.handles;
  })
  copied-Inv = record {
    made = ((All-pick s.heap.next i s.handles rest x e v.made).0, v.made);
    counted = λ k. ground (arith, v.counted k, sharers-pick i k s.handles rest x e);
    living = λ k. ground (arith, v.living k, sharers-pick i k s.handles rest x e);
  }

  copies_picked : (t : Sys) × (copy_picked s (some (x, rest)) ≡ some t) × Inv t
  unfolding copy_picked copy
  copies_picked = (_, ground (arith, picked_count), copied-Inv)

  -- Other handles share the count.
  drops_shared :
      (m : ℕ)
      → sharers x.count rest ≡ suc m
      → (t : Sys) × (drop_picked s (some (x, rest)) ≡ some t) × Inv t
  unfolding drop_picked release
  drops_shared m more = (
    record {
      heap = record s.heap { counts = update s.heap.counts x.count (some (suc m)) };
      handles = rest;
    },
    ground (arith, picked_count),
    record {
      made = (All-pick s.heap.next i s.handles rest x e v.made).1;
      counted = λ k. ground (arith, v.counted k, sharers-pick i k s.handles rest x e);
      living = λ k. ground (arith, v.living k, sharers-pick i k s.handles rest x e);
    },
  )

  drops_last :
      sharers x.count rest ≡ 0 → (t : Sys) × (drop_picked s (some (x, rest)) ≡ some t) × Inv t
  unfolding drop_picked release
  drops_last last = (
    record {
      heap = record s.heap {
        counts = update s.heap.counts x.count none;
        alive = update s.heap.alive x.ptr false;
      };
      handles = rest;
    },
    ground (arith, picked_count, picked_alive),
    record {
      made = (All-pick s.heap.next i s.handles rest x e v.made).1;
      counted = λ k. ground (arith, v.counted k, sharers-pick i k s.handles rest x e);
      living = λ k. ground (
        arith,
        v.living k,
        sharers-pick i k s.handles rest x e,
        All-pick s.heap.next i s.handles rest x e v.made,
      );
    },
  )

  drops_picked : (t : Sys) × (drop_picked s (some (x, rest)) ≡ some t) × Inv t
  drops_picked = elim (ℕ-cases (sharers x.count rest)) [
    | inl last ↦ drops_last last
    | inr (m, more) ↦ drops_shared m more
  ]

copies-Inv :
    (s : Sys) (i : ℕ) (r : Option (Handle × List Handle))
    → pick i s.handles ≡ r
    → Inv s
    → (t : Sys) × (copy_picked s r ≡ some t) × Inv t
unfolding copy_picked
copies-Inv s i none e v = (s, refl, v)
copies-Inv s i (some (x, rest)) e v = copies_picked s v i x rest e

drops-Inv :
    (s : Sys) (i : ℕ) (r : Option (Handle × List Handle))
    → pick i s.handles ≡ r
    → Inv s
    → (t : Sys) × (drop_picked s r ≡ some t) × Inv t
unfolding drop_picked
drops-Inv s i none e v = (s, refl, v)
drops-Inv s i (some (x, rest)) e v = drops_picked s v i x rest e

step-Inv : (a : Action) (s : Sys) → Inv s → (t : Sys) × (step a s ≡ some t) × Inv t
unfolding step
step-Inv makes s v = makes-Inv s v
step-Inv (copies i) s v = copies-Inv s i (pick i s.handles) refl v
step-Inv (drops i) s v = drops-Inv s i (pick i s.handles) refl v

run-Inv : (acts : List Action) (s : Sys) → Inv s → (t : Sys) × (run acts s ≡ some t) × Inv t
unfolding run
run-Inv [] s v = (s, refl, v)
run-Inv (a ∷ rest) s v =
    let (t, e, w) = step-Inv a s v in let (u, f, z) = run-Inv rest t w in (u, rw (e, run) f, z)

empty-Inv : Inv empty_sys
empty-Inv = record { made = tt; counted = λ k. refl; living = λ k. refl }

-- A program that makes, copies and drops counted pointers, in any order and each handle on an
-- object of its own or a copy, meets no fault: no count is read after its delete, and no object is
-- deleted twice. At its end each count holds the number of the handles that share it and is gone
-- when there are none, and an object is alive exactly if it has a handle.
pub run_without_fault :
    (acts : List Action)
    → (t : Sys) × (run acts empty_sys ≡ some t)
      × ((k : ℕ) → t.heap.counts k ≡ tally (sharers k t.handles))
      × ((k : ℕ) → t.heap.alive k ≡ ltb 0 (sharers k t.handles))
run_without_fault acts =
    let (t, e, v) = run-Inv acts empty_sys empty-Inv in (t, e, v.counted, v.living)
