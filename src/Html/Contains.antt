-- ===== src/Html/Contains.antt =====
-- Which events a tree has: a rule for each way to an element. No code of its own.
use mathlib.Core.List.{Memᴰ}
use mathlib.Core.List.Memᴰ
use agience.Base.{
  Bool, true, false, String, List, [], ◌∷◌, ◌++◌, ◌≡◌, refl, sym, subst, append_assoc, ◌⊎◌, inl,
  inr,
}
use agience.Js.Value.{Value, get}
use agience.Js.Exec.{Exn, Result, ok, thrown}
use agience.Html.{
  Attr, Nodes, end, node, Html, join, both_nodes, ◌&◌, el, show_if, each, of_result, of_field,
  bubble, is_disabled, inputs, events_at, events_in, events,
}

abbrev pub Some : {B : Type 0} → (B → Type 0) → List B → Type 0
Some Q [] = ⊥
Some Q (x ∷ xs) = Q x ⊎ Some Q xs

-- Whatever value is put in, one event of the list runs just the handlers `acts`.
abbrev pub Has : {A : Type 0} → List A → List (Value → List A) → Type 0
Has acts es = Some (λ e. (v : Value) → e v ≡ acts) es

pub HasNodes : {A : Type 0} → List A → List A → Html A → Type 0
HasNodes acts around (ok ns) = Has acts (events_in around ns)
HasNodes acts around (thrown e) = Unit

-- Within the handlers `around`, the tree has an event that runs `acts`, if it renders.
pub record Contains {A : Type 0} (acts around : List A) (h : Html A) : Type 0 where
  pub contains : HasNodes acts around h

Some-left : {B : Type 0} (Q : B → Type 0) (xs ys : List B) → Some Q xs → Some Q (xs ++ ys)
Some-left Q (x ∷ xs) ys (inl h) = inl h
Some-left Q (x ∷ xs) ys (inr h) = inr (Some-left Q xs ys h)
Some-left Q [] ys h = absurd h

Some-right : {B : Type 0} (Q : B → Type 0) (xs ys : List B) → Some Q ys → Some Q (xs ++ ys)
Some-right Q [] ys h = h
Some-right Q (x ∷ xs) ys h = inr (Some-right Q xs ys h)

events-join :
    {A : Type 0} (around : List A) (ms ns : Nodes A)
    → events_in around (join ms ns) ≡ events_in around ms ++ events_in around ns
unfolding events_in join
events-join around end ns = refl
events-join around (node m ms) ns =
    rw (events-join around ms ns) (sym (append_assoc (events_at around m) _ _))

HasNodes-left :
    {A : Type 0} (acts around : List A) (h k : Html A)
    → HasNodes acts around h
    → HasNodes acts around (both_nodes h k)
unfolding HasNodes
HasNodes-left acts around (ok ms) (ok ns) p =
    rw (events-join around ms ns) (Some-left _ (events_in around ms) _ p)
HasNodes-left acts around (ok ms) (thrown e) p = tt
HasNodes-left acts around (thrown e) k p = tt

HasNodes-right :
    {A : Type 0} (acts around : List A) (h k : Html A)
    → HasNodes acts around k
    → HasNodes acts around (both_nodes h k)
unfolding HasNodes
HasNodes-right acts around (ok ms) (ok ns) p =
    rw (events-join around ms ns) (Some-right _ (events_in around ms) _ p)
HasNodes-right acts around (ok ms) (thrown e) p = tt
HasNodes-right acts around (thrown e) k p = tt

HasNodes-click :
    {A : Type 0} (around : List A) (tag : String) (attrs : List (Attr A)) (kids : Html A)
    → is_disabled attrs ≡ false
    → HasNodes (bubble attrs around) around (el tag attrs kids)
unfolding HasNodes el events_in
HasNodes-click around tag attrs (ok ns) on = rw on (inl λ v. refl)
HasNodes-click around tag attrs (thrown e) on = tt

HasNodes-inside :
    {A : Type 0} (acts around : List A) (tag : String) (attrs : List (Attr A)) (kids : Html A)
    → is_disabled attrs ≡ false
    → HasNodes acts (bubble attrs around) kids
    → HasNodes acts around (el tag attrs kids)
unfolding HasNodes el events_in
HasNodes-inside acts around tag attrs (ok ns) on p =
    rw on (inr (Some-left _ _ [] (Some-right _ (inputs attrs) _ p)))
HasNodes-inside acts around tag attrs (thrown e) on p = tt

Contains-thrown : {A : Type 0} (acts around : List A) (e : Exn) → Contains acts around (thrown e)
unfolding HasNodes
Contains-thrown acts around e = record { contains = tt }

module _ {A : Type 0} {acts around : List A} where
  pub Contains-left : (h k : Html A) → Contains acts around h → Contains acts around (h & k)
  unfolding ◌&◌
  Contains-left h k p = record { contains = HasNodes-left acts around h k p.contains }

  pub Contains-right : (h k : Html A) → Contains acts around k → Contains acts around (h & k)
  unfolding ◌&◌
  Contains-right h k p = record { contains = HasNodes-right acts around h k p.contains }

  pub Contains-inside :
      (tag : String) (attrs : List (Attr A)) (kids : Html A)
      → is_disabled attrs ≡ false
      → Contains acts (bubble attrs around) kids
      → Contains acts around (el tag attrs kids)
  Contains-inside tag attrs kids on p = record {
    contains = HasNodes-inside acts around tag attrs kids on p.contains;
  }

  pub Contains-click :
      (tag : String) (attrs : List (Attr A)) (kids : Html A)
      → is_disabled attrs ≡ false
      → acts ≡ bubble attrs around
      → Contains acts around (el tag attrs kids)
  Contains-click tag attrs kids on e =
      rw e (record { contains = HasNodes-click around tag attrs kids on })

  pub Contains-each :
      {B : Type 0} (f : B → Html A) (xs : List B) (x : B)
      → Memᴰ x xs
      → Contains acts around (f x)
      → Contains acts around (each f xs)
  unfolding each
  Contains-each f [] x m p = absurd (Memᴰ.not-nil m)
  Contains-each f (y ∷ xs) x m p = elim (Memᴰ.cases_cons m) [
    | inl same ↦ Contains-left (f y) (each f xs) (subst (λ z. Contains acts around (f z)) same p)
    | inr later ↦ Contains-right (f y) (each f xs) (Contains-each f xs x later p)
  ]

  pub Contains-of_result :
      {B : Type 0} (r : Result B) (f : B → Html A)
      → ((b : B) → r ≡ ok b → Contains acts around (f b))
      → Contains acts around (of_result r f)
  unfolding of_result
  Contains-of_result (ok b) f p = p b refl
  Contains-of_result (thrown e) f p = Contains-thrown acts around e

  pub Contains-of_field :
      (k : String) (v : Value) (f : Value → Html A)
      → ((x : Value) → get k v ≡ ok x → Contains acts around (f x))
      → Contains acts around (of_field k v f)
  unfolding of_field
  Contains-of_field k v f p = Contains-of_result (get k v) f p

  pub Contains-show_if :
      (b : Bool) (h : Html A)
      → b ≡ true
      → Contains acts around h
      → Contains acts around (show_if b h)
  unfolding show_if
  Contains-show_if b h on p = rw on p

pub ruleset contains_rules = (
  Contains-left, Contains-right, Contains-inside, Contains-click, Contains-each, Contains-of_result,
  Contains-of_field, Contains-show_if,
)

HasNodes-events :
    {A : Type 0} (acts : List A) (h : Html A) (ns : Nodes A)
    → h ≡ ok ns
    → HasNodes acts [] h
    → Has acts (events h)
unfolding HasNodes events
HasNodes-events acts (ok ns) ms e p = p
HasNodes-events acts (thrown x) ms e p = absurd cc

pub events-Contains :
    {A : Type 0} {acts : List A} (h : Html A) (ns : Nodes A)
    → h ≡ ok ns
    → Contains acts [] h
    → Has acts (events h)
events-Contains {acts} h ns e p = HasNodes-events acts h ns e p.contains
