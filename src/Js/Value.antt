-- ===== src/Js/Value.antt =====
-- JavaScript values as the program meets them: what JSON carries, and `undefined`.
-- A number stands by the text that `String(n)` gives. Functions, dates and files do not occur.
use agience.Base.{
  ◌≡◌, arith, ℕ, ◌+◌, String, Bool, true, false, not, ◌||◌, Option, none, some, List, [], ◌∷◌, ◌==◌,
  ◌<>◌, if◌then◌else◌,
}
use agience.Js.Decimal.{decimal}
use agience.Js.Exec.{Exn, Result, ok, thrown}

mutual
  pub data Value : Type 0 where
    undefined null : Value
    bool : Bool → Value
    num : String → Value
    str : String → Value
    arr : Items → Value
    obj : Fields → Value

  pub data Items : Type 0 where
    nil : Items
    item : Value → Items → Items

  pub data Fields : Type 0 where
    end : Fields
    field : String → Value → Fields → Fields

abbrev pub elements : Items → List Value
elements nil = []
elements (item v vs) = v ∷ elements vs

abbrev pub items : List Value → Items
items [] = nil
items (v ∷ vs) = item v (items vs)

-- An array literal, and an array that a library function returns.
abbrev pub array : List Value → Value
array vs = arr (items vs)

abbrev fields : List (String × Value) → Fields
fields [] = end
fields ((k, v) ∷ rest) = field k v (fields rest)

-- An object literal whose names are distinct.
abbrev pub object : List (String × Value) → Value
object kvs = obj (fields kvs)

-- `fields[k] = v`: the field keeps its place, a new one comes last.
unfoldable pub assign : String → Value → Fields → Fields
assign k v end = field k v end
assign k v (field j w fs) = if j == k then field j v fs else field j w (assign k v fs)

-- The later field of one name wins.
unfoldable pub merge : Fields → Fields → Fields
unfolding assign
merge fs end = fs
merge fs (field k v gs) = merge (assign k v fs) gs

unfoldable pub lookup : String → Fields → Option Value
lookup k end = none
lookup k (field j v fs) = if j == k then some v else lookup k fs

abbrev pub or_undefined : Option Value → Value
or_undefined none = undefined
or_undefined (some v) = v

abbrev pub cannot_read : String → String → Exn
cannot_read base k = record {
  name = "TypeError";
  message = "Cannot read properties of " <> base <> " (reading '" <> k <> "')";
  status = none;
}

-- `v.k`, for a `k` that the prototypes do not have.
unfoldable pub get : String → Value → Result Value
unfolding lookup
get k undefined = thrown (cannot_read "undefined" k)
get k null = thrown (cannot_read "null" k)
get k (obj fs) = ok (or_undefined (lookup k fs))
get k v = ok undefined

-- `v?.k`
unfoldable pub get? : String → Value → Value
unfolding lookup
get? k (obj fs) = or_undefined (lookup k fs)
get? k v = undefined

-- `!!v`
unfoldable pub truthy : Value → Bool
truthy undefined = false
truthy null = false
truthy (bool b) = b
truthy (num t) = not (t == "0" || t == "NaN")
truthy (str s) = not (s == "")
truthy v = true

-- `v || w`
abbrev pub or_else : Value → Value → Value
or_else v w = if truthy v then v else w

-- `v === s`, for a string `s`
unfoldable pub is_text : Value → String → Bool
is_text (str t) s = t == s
is_text v s = false

-- `Array.isArray(v) ? v : []`, as the array's elements
unfoldable pub array_or_empty : Value → List Value
array_or_empty (arr vs) = elements vs
array_or_empty v = []

chars : String → List Value
chars String.[] = []
chars (String.◌∷◌ c s) = str (String.◌∷◌ c String.[]) ∷ chars s

-- `v && v.length > 0 ? [...v] : []`, for a `v` that is no object with a `length` of its own.
unfoldable pub iterated : Value → List Value
unfolding chars
iterated (arr vs) = elements vs
iterated (str s) = chars s
iterated v = []

-- `Map` compares keys so, if no object is shared between them.
unfoldable pub same_key : Value → Value → Bool
same_key undefined undefined = true
same_key null null = true
same_key (bool a) (bool b) = if a then b else not b
same_key (num s) (num t) = s == t
same_key (str s) (str t) = s == t
same_key v w = false

-- The properties of a string and of an array are their elements.
char_fields : ℕ → String → Fields
char_fields i String.[] = end
char_fields i (String.◌∷◌ c s) =
    field (decimal i) (str (String.◌∷◌ c String.[])) (char_fields (i + 1) s)

item_fields : ℕ → Items → Fields
item_fields i nil = end
item_fields i (item v vs) = field (decimal i) v (item_fields (i + 1) vs)

-- The own enumerable properties of a value, which `...v` copies.
unfoldable pub own_fields : Value → Fields
unfolding char_fields item_fields decimal
own_fields (obj fs) = fs
own_fields (str s) = char_fields 0 s
own_fields (arr vs) = item_fields 0 vs
own_fields v = end

-- `{ ...v, k: w, … }`
unfoldable pub spread : Value → Fields → Value
unfolding own_fields merge
spread v fs = obj (merge (own_fields v) fs)

-- `Array.prototype.join` prints `undefined` and `null` as nothing.
abbrev element_text : Value → String → String
element_text undefined t = ""
element_text null t = ""
element_text v t = t

abbrev after_comma : Items → String → String
after_comma nil t = ""
after_comma (item _ _) t = "," <> t

unfoldable mutual
  -- `String(v)`
  pub text : Value → String
  text undefined = "undefined"
  text null = "null"
  text (bool true) = "true"
  text (bool false) = "false"
  text (num t) = t
  text (str s) = s
  text (arr vs) = joined vs
  text (obj fs) = "[object Object]"

  pub joined : Items → String
  joined nil = ""
  joined (item v vs) = element_text v (text v) <> after_comma vs (joined vs)

-- What is read without an error is what `?.` reads.
pub get-eq-get? : (k : String) (v x : Value) → get k v ≡ ok x → x ≡ get? k v
unfolding get get?
get-eq-get? k undefined x h = cc
get-eq-get? k null x h = cc
get-eq-get? k v x h = ground arith
