-- ===== src/Js/Same.antt =====
-- `===`
use agience.Base.{Bool, true, false, not, ◌&&◌, ◌==◌}
use agience.Js.Value.{Value, undefined, null, bool, num, str}

-- `v === w`. An array and an object are taken for the same as nothing, since a value does not say
-- which one it is.
unfoldable pub is_same : Value → Value → Bool
is_same undefined undefined = true
is_same null null = true
is_same (bool true) (bool true) = true
is_same (bool false) (bool false) = true
is_same (num s) (num t) = (s == t) && not (s == "NaN")
is_same (str s) (str t) = s == t
is_same v w = false
