-- ===== src/Prelude/Map.antt =====
-- A JavaScript `Map` or plain object with text keys: an association list in insertion order.
use Prim.Native.String.{String}
use mathlib.Core.Path.{◌≡◌, refl, subst₂}
use mathlib.Core.Option.{Option, none, some, some-injective}
use mathlib.Core.Bool.{Bool, true, false}
use mathlib.Core.Logic.{inl, inr}
use mathlib.Core.List.{List, [], ◌∷◌}
use native.Mathlib.Omega.{arith}
use audit_guard.Prelude.Tests.{◌===◌, eq_iff, eq_refl, if◌then◌else◌, is_some, Bool-cases}

abbrev pub Map {ℓ} : Type ℓ → Type ℓ
Map V = List (String × V)

module _ {ℓ} {V : Type ℓ} where
  unfoldable pub get : String → Map V → Option V
  get k [] = none
  get k ((j, v) ∷ m) = if j === k then some v else get k m

  -- `m.set(k, v)`: a key that is there keeps its place.
  unfoldable pub set : String → V → Map V → Map V
  set k v [] = (k, v) ∷ []
  set k v ((j, w) ∷ m) = if j === k then (k, v) ∷ m else (j, w) ∷ set k v m

  -- `{...m, ...n}`
  unfoldable pub merge : Map V → Map V → Map V
  unfolding set
  merge m [] = m
  merge m ((k, v) ∷ n) = merge (set k v m) n

  unfoldable pub has : String → Map V → Bool
  unfolding get
  has k m = is_some (get k m)

  unfoldable pub delete : String → Map V → Map V
  delete k [] = []
  delete k ((j, v) ∷ m) = let rest = delete k m in if j === k then rest else (j, v) ∷ rest

  pub get-set :
      (k j : String) (v : V) (m : Map V) → get j (set k v m) ≡ (if k === j then some v else get j m)
  unfolding get set
  get-set k j v [] = refl
  get-set k j v ((i, w) ∷ m) = ground (arith, eq_iff k j, eq_iff i k, eq_iff i j, get-set k j v m)

  pub get-set_self : (k : String) (v : V) (m : Map V) → get k (set k v m) ≡ some v
  get-set_self k v m = simp (get-set, eq_refl)

  pub get-delete :
      (k j : String) (m : Map V) → get j (delete k m) ≡ (if k === j then none else get j m)
  unfolding get delete
  get-delete k j [] = ground arith
  get-delete k j ((i, v) ∷ m) = ground (arith, get-delete k j m, eq_iff i k, eq_iff i j, eq_iff k j)

  pub get-delete_self : (k : String) (m : Map V) → get k (delete k m) ≡ none
  get-delete_self k m = simp (get-delete, eq_refl)

  pub delete-absent : (k : String) (m : Map V) → get k m ≡ none → delete k m ≡ m
  unfolding get delete
  delete-absent k [] h = refl
  delete-absent k ((j, v) ∷ m) h = ground (arith, delete-absent k m)

  has-set :
      (k j : String) (v : V) (m : Map V) → has j (set k v m) ≡ (if k === j then true else has j m)
  unfolding has
  has-set k j v m = ground (arith, get-set k j v m)

  pub absent-cons :
      (k j : String) (v : V) (m : Map V)
      → has k ((j, v) ∷ m) ≡ false
      → ((j === k) ≡ false) × (has k m ≡ false)
  unfolding has get
  absent-cons k j v m e = elim (Bool-cases (j === k)) [
    | inl same ↦ ground (arith, same)
    | inr other ↦ (other, rw other at e)
  ]

  -- No key stands twice, which `set` keeps.
  abbrev pub IsUnique : Map V → Type 0
  IsUnique [] = Unit
  IsUnique ((k, v) ∷ m) = (has k m ≡ false) × IsUnique m

  pub set-IsUnique : (k : String) (v : V) (m : Map V) → IsUnique m → IsUnique (set k v m)
  unfolding set
  set-IsUnique k v [] h = (unfold get has in refl, tt)
  set-IsUnique k v ((j, w) ∷ m) h = elim (Bool-cases (j === k)) [
    | inl same ↦ rw same (rw ((eq_iff j k).0 same) at h)
    | inr other ↦
        rw other
          (ground (arith, has-set k j v m, eq_iff k j, eq_iff j k, h.0), set-IsUnique k v m h.1)
  ]

module _ {ℓ κ} {V : Type ℓ} (P : String → V → Type κ) where
  -- A predicate of every entry.
  abbrev pub AllEntries : Map V → Type κ
  AllEntries [] = Unit
  AllEntries ((k, v) ∷ m) = P k v × AllEntries m

  pub set-AllEntries :
      (k : String) (v : V) (m : Map V) → P k v → AllEntries m → AllEntries (set k v m)
  unfolding set
  set-AllEntries k v [] p h = (p, tt)
  set-AllEntries k v ((j, w) ∷ m) p h = elim (Bool-cases (j === k)) [
    | inl same ↦ rw same (p, h.1)
    | inr other ↦ rw other (h.0, set-AllEntries k v m p h.1)
  ]

  pub get-AllEntries : (k : String) (v : V) (m : Map V) → AllEntries m → get k m ≡ some v → P k v
  unfolding get
  get-AllEntries k v [] h e = cc
  get-AllEntries k v ((j, w) ∷ m) h e = elim (Bool-cases (j === k)) [
    | inl same ↦ subst₂ P ((eq_iff j k).0 same) (some-injective w v (rw same at e)) h.0
    | inr other ↦ get-AllEntries k v m h.1 (rw other at e)
  ]
