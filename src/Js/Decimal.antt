-- ===== src/Js/Decimal.antt =====
-- The decimal text of an index, as `String(i)` gives it.
use Prim.Native.Nat.{◌/◌, ◌%◌, compare, Ordering}
use agience.Base.{ℕ, zero, suc, String, Bool, true, false, ◌≡◌, refl, ◌<>◌, if◌then◌else◌}

abbrev is_small : ℕ → Bool
is_small n = elim (compare n 10) [ Ordering.lt ↦ true | _ ↦ false ]

digit : ℕ → String
digit zero = "0"
digit (suc zero) = "1"
digit (suc (suc zero)) = "2"
digit (suc (suc (suc zero))) = "3"
digit (suc (suc (suc (suc zero)))) = "4"
digit (suc (suc (suc (suc (suc zero))))) = "5"
digit (suc (suc (suc (suc (suc (suc zero)))))) = "6"
digit (suc (suc (suc (suc (suc (suc (suc zero))))))) = "7"
digit (suc (suc (suc (suc (suc (suc (suc (suc zero)))))))) = "8"
digit _ = "9"

-- A number has no more digits than the number itself, or one.
digits : ℕ → ℕ → String
digits zero n = digit n
digits (suc fuel) n =
    let rest = digits fuel (n / 10) <> digit (n % 10) in if is_small n then digit n else rest

unfoldable pub decimal : ℕ → String
unfolding digit digits
decimal n = digits n n

decimal_test : decimal 1205 ≡ "1205"
unfolding decimal
decimal_test = refl
