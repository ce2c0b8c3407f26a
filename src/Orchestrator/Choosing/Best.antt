-- ===== src/Orchestrator/Choosing/Best.antt =====
-- Which bid `selectWinnersOnChain` of orchestrator/src/orchestrator.js chooses.
use Prim.Native.String.{[] as end, ◌∷◌ as cons, ◌++◌ as append}
use Prim.Native.Char.{Char}
use Prim.Native.String.append.{cons as cons_append}
use audit_guard.Prelude.{
  ℕ, ◌+◌, ◌≤◌, ◌<◌, ◌≡◌, refl, String, false, Option, none, some, List, [], ◌∷◌, ◌++◌, lower, leb,
  is_empty, truthy, length, All, Bool-cases, inl, inr, arith, ◌∙◌, ap,
}
use audit_guard.Orchestrator.Choosing.{
  Bid, max_bid, max_time, Scored, score_all, insert_scored, sort_scored, dedupe_key, pick,
  choose_winners,
}

-- In the list, all before the element score less and all after it no more.
pub record IsFirstBest (w : Scored) (xs : List Scored) : Type 0 where
  pub front : List Scored
  pub back : List Scored
  pub placed : xs ≡ front ++ w ∷ back
  pub before : All (λ (x : Scored). x.points < w.points) front
  pub after : All (λ (x : Scored). x.points ≤ w.points) back

All-le :
    (n m : ℕ) (xs : List Scored)
    → n ≤ m
    → All (λ (x : Scored). x.points ≤ n) xs
    → All (λ (x : Scored). x.points ≤ m) xs
All-le n m [] le h = tt
All-le n m (x ∷ xs) le h = (omega (arith, h.0), All-le n m xs le h.1)

-- The best is at least as good as all.
best-le :
    (n : ℕ) (w : Scored) (front back : List Scored)
    → w.points ≤ n
    → All (λ (x : Scored). x.points < w.points) front
    → All (λ (x : Scored). x.points ≤ w.points) back
    → All (λ (x : Scored). x.points ≤ n) (front ++ w ∷ back)
best-le n w [] back le before after = (le, All-le w.points n back le after)
best-le n w (x ∷ front) back le before after =
    (omega (arith, before.0), best-le n w front back le before.1 after)

pub record Sorted (xs : List Scored) : Type 0 where
  pub head : Scored
  pub rest : List Scored
  pub sorted : sort_scored xs ≡ head ∷ rest
  pub best : IsFirstBest head xs

insert-Sorted : (x : Scored) (xs : List Scored) (s : Sorted xs) → Sorted (x ∷ xs)
unfolding sort_scored insert_scored
insert-Sorted x xs s =
    let y = s.head in
    let b = s.best in
    elim (Bool-cases (leb y.points x.points)) [
      | inl first ↦ record {
        head = x;
        rest = y ∷ s.rest;
        sorted = simp (s.sorted, first) refl;
        best = record {
          front = [];
          back = xs;
          placed = refl;
          before = tt;
          after = rw b.placed (best-le x.points y b.front b.back (ground arith) b.before b.after);
        };
      }
      | inr later ↦ record {
        head = y;
        rest = insert_scored x s.rest;
        sorted = simp (s.sorted, later) refl;
        best = record {
          front = x ∷ b.front;
          back = b.back;
          placed = ap (λ l. x ∷ l) b.placed;
          before = (ground arith, b.before);
          after = b.after;
        };
      }
    ]

sort-Sorted : (x : Scored) (xs : List Scored) → Sorted (x ∷ xs)
unfolding sort_scored insert_scored
sort-Sorted x [] = record {
  head = x;
  rest = [];
  sorted = refl;
  best = record { front = []; back = []; placed = refl; before = tt; after = tt };
}
sort-Sorted x (y ∷ ys) = insert-Sorted x (y ∷ ys) (sort-Sorted y ys)

is_empty-lower : (s : String) → is_empty (lower s) ≡ is_empty s
unfolding lower
is_empty-lower end = refl
is_empty-lower (cons c s) = refl

prefix_full : (c : Char) (s t : String) → is_empty (append (cons c s) t) ≡ false
prefix_full c s t = rw (cons_append c s t) refl

agent_full : (s : String) → is_empty (append "agent:" s) ≡ false
agent_full s = prefix_full "a" "gent:" s

-- No key is empty.
dedupe_key-full :
    (b : Bid) (address : Option String) → is_empty (dedupe_key b (truthy address)) ≡ false
unfolding dedupe_key
dedupe_key-full b none = agent_full (lower b.agent_id)
dedupe_key-full b (some s) = elim (Bool-cases (is_empty s)) [
  | inl blank ↦ simp blank (agent_full (lower b.agent_id))
  | inr full ↦ simp full (is_empty-lower s ∙ full)
]

-- The first of the sorted bids is taken, and no other
pick_first : (x : Scored) (xs : List Scored) → pick [] 1 (x ∷ xs) ≡ x ∷ []
unfolding pick
pick_first x xs = simp (dedupe_key-full x.bid x.bid.evm_address) refl

-- The index of a scored bid is its place.
score_all-place :
    (unit most_bid most_time i : ℕ) (bids : List Bid) (front back : List Scored) (w : Scored)
    → score_all unit most_bid most_time i bids ≡ front ++ w ∷ back
    → w.bid_index ≡ i + length front
unfolding score_all
score_all-place unit most_bid most_time i [] [] back w e = cc
score_all-place unit most_bid most_time i [] (x ∷ front) back w e = cc
score_all-place unit most_bid most_time i (b ∷ bids) [] back w e = ground arith
score_all-place unit most_bid most_time i (b ∷ bids) (x ∷ front) back w e =
    omega (arith, score_all-place unit most_bid most_time (i + 1) bids front back w (ground arith))

pub record IsBest (unit : ℕ) (bids : List Bid) (w : Scored) : Type 0 where
  pub best : IsFirstBest w (score_all unit (max_bid unit bids) (max_time bids) 0 bids)
  pub index : w.bid_index ≡ length best.front

choose_from :
    (x : Scored) (xs : List Scored)
    → (w : Scored) × (pick [] 1 (sort_scored (x ∷ xs)) ≡ w ∷ []) × IsFirstBest w (x ∷ xs)
choose_from x xs =
    let s = sort-Sorted x xs in (s.head, rw s.sorted (pick_first s.head s.rest), s.best)

choose_scored :
    (unit most_bid most_time : ℕ) (b : Bid) (bids : List Bid)
    → (w : Scored) × (pick [] 1 (sort_scored (score_all unit most_bid most_time 0 (b ∷ bids)))
        ≡ w ∷ [])
      × IsFirstBest w (score_all unit most_bid most_time 0 (b ∷ bids))
unfolding score_all
choose_scored unit most_bid most_time b bids =
    choose_from _ (score_all unit most_bid most_time 1 bids)

-- Of the bids that are there, one is chosen: all before it score less and all after it score no more,
-- and the index that it carries is its place among the bids.
pub choose_winners-IsBest :
    (unit : ℕ) (b : Bid) (bids : List Bid)
    → (w : Scored) × (choose_winners unit (b ∷ bids) ≡ w ∷ []) × IsBest unit (b ∷ bids) w
unfolding choose_winners
choose_winners-IsBest unit b bids =
    let all = b ∷ bids in
    let most_bid = max_bid unit all in
    let most_time = max_time all in
    let (w, one, best) = choose_scored unit most_bid most_time b bids in
    let place = score_all-place unit most_bid most_time 0 all best.front best.back w best.placed in
    (w, one, record { best = best; index = omega (arith, place) })
