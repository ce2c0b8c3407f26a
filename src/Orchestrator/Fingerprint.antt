-- ===== src/Orchestrator/Fingerprint.antt =====
-- The fingerprint of winners (`buildWinnerFingerprint` of orchestrator/src/orchestrator.js) does not
-- depend on their order or case.
use Prim.Native.Nat.{Ordering, compare as compare_ℕ, lt, eq, gt}
use Prim.Native.Char.{code}
use Prim.Native.String.{[] as blank, ◌∷◌ as cons, compare, then as and_then}
use Prim.Native.String.compare.{nil-nil, nil-cons, cons-nil, cons-cons}
use mathlib.Core.Bool.{false≢true}
use text.Mathlib.TextEquality.{Char-path}
use audit_guard.Prelude.{
  ◌≡◌, refl, String, Bool, true, false, List, [], ◌∷◌, map, lower, ltb, ◌==◌, ◌&&◌, ◌||◌, ap, ◌∙◌,
  sym, arith, Bool-cases, inl, inr, ◌⊎◌, if◌then◌else◌,
}
use audit_guard.Orchestrator.Winners.{text_leb, insert_sorted, sort, join, fingerprint}

-- The order of texts, letter by letter.
abbrev before : String → String → Bool
before blank t = true
before (cons c s) blank = false
before (cons c s) (cons d t) = ltb (code c) (code d) || (code c == code d && before s t)

abbrev at_most : Ordering → Bool
at_most lt = true
at_most eq = true
at_most gt = false

then-at_most :
    (o p : Ordering) (b : Bool)
    → at_most p ≡ b
    → at_most (and_then o p) ≡ (
        elim o [ lt ↦ true | eq ↦ false | gt ↦ false ]
        || (elim o [ lt ↦ false | eq ↦ true | gt ↦ false ] && b))
then-at_most lt p b h = refl
then-at_most eq p b h = h
then-at_most gt p b h = refl

compare-before : (s t : String) → at_most (compare s t) ≡ before s t
compare-before blank blank = ap at_most (λ i. nil-nil i)
compare-before blank (cons d t) = ap at_most (λ i. nil-cons d t i)
compare-before (cons c s) blank = ap at_most (λ i. cons-nil c s i)
compare-before (cons c s) (cons d t) =
    ap at_most (λ i. cons-cons c d s t i)
    ∙ then-at_most (compare_ℕ (code c) (code d)) (compare s t) (before s t) (compare-before s t)

text_leb-before : (s t : String) → text_leb s t ≡ before s t
unfolding text_leb
text_leb-before s t = of_order (compare s t) ∙ compare-before s t
  where
    of_order : (o : Ordering) → (elim o [ lt ↦ true | eq ↦ true | gt ↦ false ]) ≡ at_most o
    of_order lt = refl
    of_order eq = refl
    of_order gt = refl

before_antisym : (s t : String) → before s t ≡ true → before t s ≡ true → s ≡ t
before_antisym blank blank h k = refl
before_antisym blank (cons d t) h k = cc
before_antisym (cons c s) blank h k = cc
before_antisym (cons c s) (cons d t) h k =
    let same : code c ≡ code d = ground (arith, h, k) in
    let rest = before_antisym s t (ground (arith, h, k)) (ground (arith, h, k)) in
    ap (λ e. cons e s) (Char-path c d same) ∙ ap (cons d) rest

before_total : (s t : String) → before s t ≡ false → before t s ≡ true
before_total blank t h = cc
before_total (cons c s) blank h = refl
before_total (cons c s) (cons d t) h = ground (arith, h, before_total s t)

before_trans : (s t u : String) → before s t ≡ true → before t u ≡ true → before s u ≡ true
before_trans blank t u h k = refl
before_trans (cons c s) blank u h k = cc
before_trans (cons c s) (cons d t) blank h k = cc
before_trans (cons c s) (cons d t) (cons e u) h k = ground (arith, h, k, before_trans s t u)

-- The same texts in another order.
pub data Same : List String → List String → Type 0 where
  done : Same [] []
  keep : (x : String) {xs ys : List String} → Same xs ys → Same (x ∷ xs) (x ∷ ys)
  swap : (x y : String) (xs : List String) → Same (x ∷ y ∷ xs) (y ∷ x ∷ xs)
  join_two : {xs ys zs : List String} → Same xs ys → Same ys zs → Same xs zs

not-before : (b a z : String) → before a z ≡ true → before b z ≡ false → before b a ≡ false
not-before b a z az bz = elim (Bool-cases (before b a)) [
  | inl ba ↦ absurd (false≢true (sym bz ∙ before_trans b a z ba az))
  | inr other ↦ other
]

-- The insertion by this order.
abbrev place : String → List String → List String
place x [] = x ∷ []
place x (y ∷ ys) = let rest = place x ys in if before x y then x ∷ y ∷ ys else y ∷ rest

insert_sorted-place : (x : String) (ys : List String) → insert_sorted x ys ≡ place x ys
unfolding insert_sorted
insert_sorted-place x [] = refl
insert_sorted-place x (y ∷ ys) =
    ap (λ b. if b then x ∷ y ∷ ys else y ∷ insert_sorted x ys)
      (unfold text_leb in text_leb-before x y)
    ∙ ap (λ (zs : List String). if before x y then x ∷ y ∷ ys else y ∷ zs)
        (insert_sorted-place x ys)

place-front : (x y : String) (zs : List String) → before x y ≡ true → place x (y ∷ zs) ≡ x ∷ y ∷ zs
place-front x y zs h = simp h refl

place-behind :
    (x y : String) (zs : List String) → before x y ≡ false → place x (y ∷ zs) ≡ y ∷ place x zs
place-behind x y zs h = simp h refl

-- Two before a list, of which the first comes first.
place-pair :
    (x y : String) (zs : List String)
    → before x y ≡ true
    → place y zs ≡ y ∷ zs
    → place x zs ≡ x ∷ zs
    → place x (place y zs) ≡ place y (place x zs)
place-pair x y zs first h k =
    ap (place x) h
    ∙ place-front x y zs first
    ∙ sym (ap (place y) k ∙ back (Bool-cases (before y x)))
  where
    back : (before y x ≡ true) ⊎ (before y x ≡ false) → place y (x ∷ zs) ≡ x ∷ y ∷ zs
    back (inl also) =
        let same = before_antisym x y first also in
        place-front y x zs also
        ∙ ap (λ (s : String). s ∷ x ∷ zs) (sym same)
        ∙ ap (λ (s : String). x ∷ s ∷ zs) same
    back (inr not_before) = place-behind y x zs not_before ∙ ap (λ (ws : List String). x ∷ ws) h

place-place : (x y : String) (zs : List String) → place x (place y zs) ≡ place y (place x zs)
place-place x y [] = elim (Bool-cases (before x y)) [
  | inl first ↦ place-pair x y [] first refl refl
  | inr second ↦ sym (place-pair y x [] (before_total x y second) refl refl)
]
place-place x y (z ∷ zs) = elim (Bool-cases (before x z)) [
  | inl xz ↦ elim (Bool-cases (before y z)) [
    | inl yz ↦ elim (Bool-cases (before x y)) [
      | inl first ↦ place-pair x y (z ∷ zs) first (place-front y z zs yz) (place-front x z zs xz)
      | inr second ↦ sym (
          place-pair y x (z ∷ zs) (before_total x y second) (place-front x z zs xz)
            (place-front y z zs yz))
    ]
    | inr zy ↦ outer x y xz zy
  ]
  | inr zx ↦ elim (Bool-cases (before y z)) [
    | inl yz ↦ sym (outer y x yz zx)
    | inr zy ↦
        ap (place x) (place-behind y z zs zy)
        ∙ place-behind x z (place y zs) zx
        ∙ ap (λ (ws : List String). z ∷ ws) (place-place x y zs)
        ∙ sym (ap (place y) (place-behind x z zs zx) ∙ place-behind y z (place x zs) zy)
  ]
]
  where
    outer :
        (a b : String)
        → before a z ≡ true
        → before b z ≡ false
        → place a (place b (z ∷ zs)) ≡ place b (place a (z ∷ zs))
    outer a b az bz =
        let ba : before b a ≡ false = not-before b a z az bz in
        ap (place a) (place-behind b z zs bz)
        ∙ place-front a z (place b zs) az
        ∙ sym (
            ap (place b) (place-front a z zs az)
            ∙ place-behind b a (z ∷ zs) ba
            ∙ ap (λ (ws : List String). a ∷ ws) (place-behind b z zs bz))

sort-Same : (xs ys : List String) → Same xs ys → sort xs ≡ sort ys
unfolding sort
sort-Same _ _ done = refl
sort-Same _ _ (keep x {xs} {ys} same) = ap (insert_sorted x) (sort-Same xs ys same)
sort-Same _ _ (swap x y xs) =
    insert_sorted-place x (insert_sorted y (sort xs))
    ∙ ap (place x) (insert_sorted-place y (sort xs))
    ∙ place-place x y (sort xs)
    ∙ sym (
        insert_sorted-place y (insert_sorted x (sort xs))
        ∙ ap (place y) (insert_sorted-place x (sort xs)))
sort-Same _ _ (join_two {xs} {ys} {zs} a b) = sort-Same xs ys a ∙ sort-Same ys zs b

-- Addresses that differ in order and case only have one fingerprint.
pub fingerprint-Same :
    (xs ys : List String) → Same (map lower xs) (map lower ys) → fingerprint xs ≡ fingerprint ys
unfolding fingerprint
fingerprint-Same xs ys same = ap join (sort-Same (map lower xs) (map lower ys) same)
