-- ===== src/Js/Text.antt =====
-- Strings as UTF-16 sees them, and the search of one string in another.
use Prim.Native.Char.{code}
use Prim.Native.Nat.{◌-◌, ◌/◌, ◌%◌}
use agience.Base.{
  find?, none, some, ℕ, ◌+◌, List, [], ◌∷◌, ◌++◌, ltb, if◌then◌else◌, String, Bool, true, false,
  ◌≡◌, refl, length,
}
use agience.Js.Decimal.{decimal}
use agience.Js.Value.{
  Value, undefined, null, bool, num, str, arr, obj, elements, lookup, or_undefined, text,
  cannot_read,
}
use agience.Js.Exec.{Result, ok, thrown}

-- `s.includes(t)`, with `t` first
unfoldable pub includes : String → String → Bool
includes t s = elim (find? s t) [ none ↦ false | some _ ↦ true ]

-- The code units of a character: two surrogates for one beyond the basic plane.
abbrev unit_list : ℕ → List ℕ
unit_list n =
    if ltb n 65536 then n ∷ [] else (55296 + (n - 65536) / 1024) ∷ (56320 + (n - 65536) % 1024) ∷ []

-- The code units of a string
unfoldable pub utf_units : String → List ℕ
utf_units String.[] = []
utf_units (String.◌∷◌ c s) = unit_list (code c) ++ utf_units s

-- `s.length`
unfoldable pub units : String → ℕ
unfolding utf_units
units s = length (utf_units s)

-- The text of `v.length`
unfoldable pub length_text : Value → Result String
unfolding units decimal lookup text
length_text undefined = thrown (cannot_read "undefined" "length")
length_text null = thrown (cannot_read "null" "length")
length_text (str s) = ok (decimal (units s))
length_text (arr vs) = ok (decimal (length (elements vs)))
length_text (obj fs) = ok (text (or_undefined (lookup "length" fs)))
length_text (bool _) = ok "undefined"
length_text (num _) = ok "undefined"

includes_test : includes "exists" "it already exists." ≡ true
unfolding includes
includes_test = refl

includes_other : includes "exit" "it already exists." ≡ false
unfolding includes
includes_other = refl

units_test : units "a😀" ≡ 3
unfolding units
units_test = refl
