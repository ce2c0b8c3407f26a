-- ===== src/Orchestrator/Doubles.antt =====
-- The arithmetic of JavaScript's numbers, as far as the scores of orchestrator/src/orchestrator.js use
-- it: doubles that are not negative. The natural number n stands for n / 2^1074, of which each such
-- double is a multiple, and a result is the nearest double, the even one of two that are as near.
use audit_guard.Prelude.{ℕ, zero, suc, ◌+◌, ◌-◌, ◌*◌, ◌/◌, ◌%◌, ◌^◌, ltb, if◌then◌else◌}

abbrev pub Double : Type 0
Double = ℕ

-- The nearest natural number to p / q.
unfoldable pub nearest : ℕ → ℕ → ℕ
nearest p q =
    let k = p / q in
    let r = 2 * (p % q) in if ltb r q then k else if ltb q r then k + 1 else k + k % 2

-- How many binary digits; a finite double has at most 2098.
unfoldable pub digits : ℕ → ℕ → ℕ
digits zero n = 0
digits (suc fuel) zero = 0
digits (suc fuel) (suc n) = suc (digits fuel (suc n / 2))

-- The double nearest to p / q / 2^1074: 53 digits are kept.
unfoldable pub round : ℕ → ℕ → Double
unfolding nearest digits
round p q = let size = digits 2098 (p / q) in let cut = 2 ^ (size - 53) in nearest p (q * cut) * cut

abbrev pub scale : ℕ
scale = 2 ^ 1074

unfoldable pub of_ratio : ℕ → ℕ → Double
unfolding round
of_ratio p q = round (p * scale) q

unfoldable pub add : Double → Double → Double
unfolding round
add x y = round (x + y) 1

-- Where y is no more than x.
unfoldable pub subtract : Double → Double → Double
unfolding round
subtract x y = round (x - y) 1

unfoldable pub multiply : Double → Double → Double
unfolding round
multiply x y = round (x * y) scale

unfoldable pub divide : Double → Double → Double
unfolding round
divide x y = round (x * scale) y
