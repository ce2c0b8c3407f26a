-- ===== src/Prelude/Words.antt =====
-- Texts: `toLowerCase` on the ASCII letters and `trim` of JavaScript.
use Prim.Native.Nat.{ℕ}
use mathlib.Core.Path.{◌≡◌, refl}
use mathlib.Core.Logic.{inl, inr}
use native.Mathlib.Omega.{arith}
use Prim.Native.Char.{Char, code}
use Prim.Native.String.{String, [], ◌∷◌}
use mathlib.Core.Bool.{Bool, true, false, ◌&&◌, ◌||◌}
use mathlib.Core.Option.{Option, none, some}
use package.audit_guard.Prelude.Tests.{leb, ◌==◌, if◌then◌else◌, Bool-cases}

abbrev lower_in : String → String → Char → Char
lower_in (u ∷ us) (l ∷ ls) c = if code u == code c then l else lower_in us ls c
lower_in _ _ c = c

pub lower_char : Char → Char
lower_char = lower_in "ABCDEFGHIJKLMNOPQRSTUVWXYZ" "abcdefghijklmnopqrstuvwxyz"

unfoldable pub lower : String → String
unfolding lower_char
lower [] = []
lower (c ∷ s) = lower_char c ∷ lower s

-- The white space and line ends of ECMAScript.
pub is_space : ℕ → Bool
is_space n =
    (leb 9 n && leb n 13)
    || n == 32
    || n == 160
    || n == 5760
    || (leb 8192 n && leb n 8202)
    || n == 8232
    || n == 8233
    || n == 8239
    || n == 8287
    || n == 12288
    || n == 65279

abbrev pub is_empty : String → Bool
is_empty [] = true
is_empty (c ∷ s) = false

trim_start : String → String
trim_start [] = []
trim_start (c ∷ s) = if is_space (code c) then trim_start s else c ∷ s

trim_end : String → String
trim_end [] = []
trim_end (c ∷ s) =
    let rest = trim_end s in if is_space (code c) && is_empty rest then [] else c ∷ rest

unfoldable pub trim : String → String
unfolding is_space trim_start trim_end
trim s = trim_end (trim_start s)

-- A text that `if` takes for true: there, and not empty.
abbrev pub truthy : Option String → Option String
truthy none = none
truthy (some s) = if is_empty s then none else some s

-- Each of the characters is its own lower case.
abbrev IsLower : String → Type 0
IsLower [] = Unit
IsLower (l ∷ ls) = (lower_char l ≡ l) × IsLower ls

lower_char-lower_in :
    (us ls : String) (c : Char)
    → IsLower ls
    → lower_char c ≡ lower_in us ls c
    → lower_char (lower_in us ls c) ≡ lower_in us ls c
lower_char-lower_in [] ls c h e = e
lower_char-lower_in (u ∷ us) [] c h e = e
lower_char-lower_in (u ∷ us) (l ∷ ls) c h e = elim (Bool-cases (code u == code c)) [
  | inl same ↦ simp same h.0
  | inr other ↦ simp other (lower_char-lower_in us ls c h.1 (rw other at e))
]

letters-IsLower : IsLower "abcdefghijklmnopqrstuvwxyz"
unfolding lower_char
letters-IsLower = ground arith

lower_char-lower_char : (c : Char) → lower_char (lower_char c) ≡ lower_char c
unfolding lower_char
lower_char-lower_char c =
    lower_char-lower_in "ABCDEFGHIJKLMNOPQRSTUVWXYZ" "abcdefghijklmnopqrstuvwxyz" c letters-IsLower
      refl

pub lower-lower : (s : String) → lower (lower s) ≡ lower s
unfolding lower
lower-lower [] = refl
lower-lower (c ∷ s) = rw (lower_char-lower_char c, lower-lower s) refl
