-- ===== src/Orchestrator/Reconcile/Window.antt =====
-- Which active jobs the passes of `reconcileExpiredActiveAuctions` of orchestrator/src/orchestrator.js
-- look at, by the cursor that they leave.
use native.Mathlib.Nat.{
  mod-mod, mod-eq_of_lt, add-mod_right, mod-add-mod, add-mod-mod, div-add-mod, mod-lt,
}
use audit_guard.Prelude.{
  ℕ, zero, suc, ◌+◌, ◌-◌, ◌*◌, ◌/◌, ◌%◌, ◌<◌, ◌≡◌, refl, String, List, [], ◌∷◌, ◌++◌, length, arith,
  true, member, eq_refl, ◌∙◌, sym, ap,
}
use audit_guard.Orchestrator.Reconcile.{
  Limits, at_index, start_index, window, inspect_count, next_cursor,
}

-- The cursor after some passes over a list of `n` active jobs.
abbrev pub cursor_after : Limits → ℕ → ℕ → ℕ → ℕ
cursor_after limits n cursor zero = cursor
cursor_after limits n cursor (suc k) = next_cursor limits (cursor_after limits n cursor k) n

start_index-mod : (c n : ℕ) → start_index c n ≡ c % n
unfolding start_index
start_index-mod c n = add-mod_right (c % n) n ∙ mod-mod c n

start_index-next_cursor :
    (limits : Limits) (c n : ℕ)
    → start_index (next_cursor limits c n) n ≡ (start_index c n + inspect_count limits n) % n
unfolding next_cursor
start_index-next_cursor limits c n =
    start_index-mod ((start_index c n + inspect_count limits n) % n) n
    ∙ mod-mod (start_index c n + inspect_count limits n) n

-- The start of a pass, after so many passes.
start-cursor_after :
    (limits : Limits) (n k c : ℕ)
    → start_index (cursor_after limits n c k) n ≡ (c + k * inspect_count limits n) % n
start-cursor_after limits n zero c = start_index-mod c n ∙ ap (λ x. x % n) (omega arith)
start-cursor_after limits n (suc k) c =
    let m = inspect_count limits n in
    start_index-next_cursor limits (cursor_after limits n c k) n
    ∙ ap (λ x. (x + m) % n) (start-cursor_after limits n k c)
    ∙ mod-add-mod (c + k * m) n m
    ∙ ap (λ x. x % n) (omega arith)

-- From `c` around `n` places to the place `j`.
pub distance : ℕ → ℕ → ℕ → ℕ
distance c n j = (j + (n - c % n)) % n

pub distance-lt : (c n j : ℕ) → 0 < n → distance c n j < n
unfolding distance
distance-lt c n j h = mod-lt (j + (n - c % n)) h

distance_lem : (c n j : ℕ) → j < n → (c + distance c n j) % n ≡ j
unfolding distance
distance_lem c n j h =
    sym (mod-add-mod c n ((j + (n - c % n)) % n))
    ∙ add-mod-mod (c % n) (j + (n - c % n)) n
    ∙ ap (λ x. x % n) (omega (arith, mod-lt c {m = n} (omega arith)))
    ∙ add-mod_right j n
    ∙ mod-eq_of_lt h

-- Places `d` further on are in the window of the pass number `d / m`, at the offset `d % m`.
pub pass_reaches :
    (limits : Limits) (c n j : ℕ)
    → j < n
    → 0 < inspect_count limits n
    → (start_index (cursor_after limits n c (distance c n j / inspect_count limits n)) n
          + distance c n j % inspect_count limits n)
        % n
      ≡ j
pass_reaches limits c n j h pos =
    let m = inspect_count limits n in
    let d = distance c n j in
    ap (λ x. (x + d % m) % n) (start-cursor_after limits n (d / m) c)
    ∙ mod-add-mod (c + d / m * m) n (d % m)
    ∙ ap (λ x. x % n) (omega (arith, div-add-mod d m))
    ∙ distance_lem c n j h

member-append_right :
    (k : String) (xs ys : List String) → member k ys ≡ true → member k (xs ++ ys) ≡ true
member-append_right k [] ys h = h
member-append_right k (x ∷ xs) ys h = ground (arith, member-append_right k xs ys h)

pub member-window :
    (ids : List String) (key : String) (start count offset o : ℕ)
    → o < count
    → at_index ids ((start + (offset + o)) % length ids) ≡ key ∷ []
    → member key (window ids start count offset) ≡ true
unfolding window
member-window ids key start zero offset o h e = absurd (omega arith)
member-window ids key start (suc count) offset zero h e =
    let e' : at_index ids ((start + offset) % length ids) ≡ key ∷ [] =
      ap (λ x. at_index ids ((start + x) % length ids)) (omega arith) ∙ e in
    simp (e', eq_refl key) refl
member-window ids key start (suc count) offset (suc o) h e = member-append_right key _ _ (
    member-window ids key start count (offset + 1) o (omega (arith, h))
      (ap (λ x. at_index ids ((start + x) % length ids)) (omega arith) ∙ e))
