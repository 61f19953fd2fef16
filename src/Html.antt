-- ===== src/Html.antt =====
-- What a component returns: a tree of elements, and what the user can do in it. React takes the tree
-- that the JSX of a component writes; class names, icons, keys and layout are left out of it, save
-- where a class marks an item. An `A` is what a handler does, such as a callback of the component's
-- props.
pub mod Events
pub mod Contains
use agience.Base.{ℕ, String, Bool, true, false, none, List, [], ◌∷◌, ◌++◌, ◌==◌, if◌then◌else◌}
use agience.Js.Value.{
  Value, Items, undefined, null, bool, num, str, arr, obj, nil, item, truthy, get,
}
use agience.Js.Exec.{Exn, Result, ok, thrown, map_ok}

-- The attributes of an element. `on_click stops a` has a handler that does `a`, after the call of
-- `e.stopPropagation()` if `stops`. `value` and `marked` have the value of an input and whether a
-- class marks the element as the chosen or active one.
pub data Attr (A : Type 0) : Type 0 where
  attr : String → String → Attr A
  value : Value → Attr A
  marked : Bool → Attr A
  disabled : Bool → Attr A
  on_click : Bool → A → Attr A
  on_change : (Value → A) → Attr A
  on_submit : A → Attr A

-- A text stands by itself, or by its UTF-16 units where it is cut.
mutual
  pub data Node (A : Type 0) : Type 0 where
    text : String → Node A
    utf : List ℕ → Node A
    element : String → List (Attr A) → Nodes A → Node A

  pub data Nodes (A : Type 0) : Type 0 where
    end : Nodes A
    node : Node A → Nodes A → Nodes A

-- A render may throw.
abbrev pub Html : Type 0 → Type 0
Html A = Result (Nodes A)

abbrev pub invalid_child : Exn
invalid_child = record {
  name = "Error";
  message = "Objects are not valid as a React child";
  status = none;
}

module _ {A : Type 0} where
  unfoldable pub join : Nodes A → Nodes A → Nodes A
  join end ns = ns
  join (node n ms) ns = node n (join ms ns)

  abbrev pub both_nodes : Html A → Html A → Html A
  both_nodes (ok ms) (ok ns) = ok (join ms ns)
  both_nodes (ok ms) (thrown e) = thrown e
  both_nodes (thrown e) _ = thrown e

  -- Children side by side
  infixr 60 ◌&◌
  unfoldable pub ◌&◌ : Html A → Html A → Html A
  unfolding join
  h & k = both_nodes h k

  -- `null`, or a condition that is false, renders nothing.
  unfoldable pub nothing : Html A
  nothing = ok end

  unfoldable pub txt : String → Html A
  txt s = ok (node (text s) end)

  unfoldable pub cut : List ℕ → Html A
  cut us = ok (node (utf us) end)

  -- `<tag attrs>kids</tag>`
  unfoldable pub el : String → List (Attr A) → Html A → Html A
  el tag attrs kids = map_ok (λ ns. node (element tag attrs ns) end) kids

  -- `{b && h}`
  unfoldable pub show_if : Bool → Html A → Html A
  unfolding nothing
  show_if b h = if b then h else nothing

  -- `{xs.map(f)}`
  unfoldable pub each : {B : Type 0} → (B → Html A) → List B → Html A
  unfolding ◌&◌ nothing
  each f [] = nothing
  each f (x ∷ xs) = f x & each f xs

  -- `f(r)`, for an `r` that may throw
  unfoldable pub of_result : {B : Type 0} → Result B → (B → Html A) → Html A
  of_result (ok b) f = f b
  of_result (thrown e) f = thrown e

  -- `f(v.k)`
  unfoldable pub of_field : String → Value → (Value → Html A) → Html A
  unfolding get of_result
  of_field k v f = of_result (get k v) f

-- `{v}`: an object is no child.
unfoldable mutual
  unfolding nothing txt ◌&◌

  pub child : {A : Type 0} → Value → Html A
  child undefined = nothing
  child null = nothing
  child (bool b) = nothing
  child (num t) = txt t
  child (str s) = txt s
  child (arr vs) = children vs
  child (obj fs) = thrown invalid_child

  pub children : {A : Type 0} → Items → Html A
  children nil = nothing
  children (item v vs) = child v & children vs

module _ {A : Type 0} where
  -- `{v && h}`, which shows a `v` that counts as false
  unfoldable pub show_where : Value → Html A → Html A
  unfolding child
  show_where v h = if truthy v then h else child v

  -- The handlers that a click runs: those of the element, then those around it.
  abbrev pub bubble : List (Attr A) → List A → List A
  bubble [] around = around
  bubble (on_click stops a ∷ attrs) around = a ∷ (if stops then [] else around)
  bubble (_ ∷ attrs) around = bubble attrs around

  abbrev pub is_disabled : List (Attr A) → Bool
  is_disabled [] = false
  is_disabled (disabled b ∷ attrs) = b
  is_disabled (_ ∷ attrs) = is_disabled attrs

  -- What the user can do at the element itself besides a click. An input hands its new value on.
  abbrev pub inputs : List (Attr A) → List (Value → List A)
  inputs [] = []
  inputs (on_change f ∷ attrs) = (λ v. f v ∷ []) ∷ inputs attrs
  inputs (on_submit a ∷ attrs) = (λ v. a ∷ []) ∷ inputs attrs
  inputs (_ ∷ attrs) = inputs attrs

-- The events of a tree that stands within handlers `around`: for each, the handlers that it runs,
-- in their order, given the value that is put in. Nothing in a disabled element has an event.
unfoldable mutual
  pub events_at : {A : Type 0} → List A → Node A → List (Value → List A)
  events_at around (text s) = []
  events_at around (utf us) = []
  events_at around (element tag attrs kids) =
      let inner = events_in (bubble attrs around) kids in
      if is_disabled attrs then [] else (λ v. bubble attrs around) ∷ (inputs attrs ++ inner)

  pub events_in : {A : Type 0} → List A → Nodes A → List (Value → List A)
  events_in around end = []
  events_in around (node n ns) = events_at around n ++ events_in around ns

-- The events of what is shown. If the render throws, React takes the whole page away.
unfoldable pub events : {A : Type 0} → Html A → List (Value → List A)
unfolding events_in
events (ok ns) = events_in [] ns
events (thrown e) = []
