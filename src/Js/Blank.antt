-- ===== src/Js/Blank.antt =====
-- `!v.trim()`: whether nothing is left of a text without the white space at its ends.
use Prim.Native.Char.{code}
use agience.Base.{ℕ, String, Bool, none, true, false, ◌≡◌, refl, ◌&&◌, ◌||◌}
use Prim.Native.Nat.{compare, Ordering}
use agience.Js.Value.{Value, undefined, null, bool, num, str, arr, obj, cannot_read}
use agience.Js.Exec.{Exn, Result, ok, thrown}

abbrev is_equal : ℕ → ℕ → Bool
is_equal n k = elim (compare n k) [ Ordering.eq ↦ true | _ ↦ false ]

abbrev at_most : ℕ → ℕ → Bool
at_most n k = elim (compare n k) [ Ordering.gt ↦ false | _ ↦ true ]

abbrev is_between : ℕ → ℕ → ℕ → Bool
is_between low n high = at_most low n && at_most n high

-- The white space and line ends of ECMAScript.
is_space : ℕ → Bool
is_space n =
    is_between 9 n 13
    || is_equal n 32
    || is_equal n 160
    || is_equal n 5760
    || is_between 8192 n 8202
    || is_between 8232 n 8233
    || is_equal n 8239
    || is_equal n 8287
    || is_equal n 12288
    || is_equal n 65279

unfoldable pub is_blank : String → Bool
unfolding is_space
is_blank String.[] = true
is_blank (String.◌∷◌ c s) = is_space (code c) && is_blank s

abbrev no_trim : Exn
no_trim = record { name = "TypeError"; message = "trim is not a function"; status = none }

-- `!v.trim()`, which only a text has.
unfoldable pub lacks_text : Value → Result Bool
unfolding is_blank
lacks_text undefined = thrown (cannot_read "undefined" "trim")
lacks_text null = thrown (cannot_read "null" "trim")
lacks_text (str s) = ok (is_blank s)
lacks_text (bool _) = thrown no_trim
lacks_text (num _) = thrown no_trim
lacks_text (arr _) = thrown no_trim
lacks_text (obj _) = thrown no_trim

is_blank_test : is_blank "  " ≡ true
unfolding is_blank
is_blank_test = refl

is_blank_letter : is_blank " a " ≡ false
unfolding is_blank
is_blank_letter = refl
