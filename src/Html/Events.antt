-- ===== src/Html/Events.antt =====
-- What every event of a tree satisfies: a rule for each way to build a tree. No code of its own.
use mathlib.Core.List.{Memᴰ}
use agience.Base.{
  ℕ, String, Bool, true, false, List, [], ◌∷◌, ◌++◌, ◌≡◌, refl, All, ◌&&◌, ◌||◌, if◌then◌else◌,
}
use agience.Js.Value.{
  Value, Items, undefined, null, bool, num, str, arr, obj, nil, item, truthy, get,
}
use agience.Js.Exec.{Exn, Result, ok, thrown}
use agience.Html.{
  Attr, Nodes, end, node, Html, join, both_nodes, ◌&◌, nothing, txt, cut, el, show_if, each,
  of_result, of_field, child, children, show_where, bubble, is_disabled, inputs, events_at,
  events_in, events,
}

-- Whatever value is put in, the handlers of each of the events satisfy `P`.
abbrev pub Each : {A : Type 0} → (List A → Type 0) → List (Value → List A) → Type 0
Each P es = All (λ e. (v : Value) → P (e v)) es

pub OnNodes : {A : Type 0} → (List A → Type 0) → List A → Html A → Type 0
OnNodes P around (ok ns) = Each P (events_in around ns)
OnNodes P around (thrown e) = Unit

-- Within the handlers `around`, each event of the tree satisfies `P`.
pub record Fires {A : Type 0} (P : List A → Type 0) (around : List A) (h : Html A) : Type 0 where
  pub fires : OnNodes P around h

All-append : {B : Type 0} (Q : B → Type 0) (xs ys : List B) → All Q xs → All Q ys → All Q (xs ++ ys)
All-append Q [] ys h k = k
All-append Q (x ∷ xs) ys (h, hs) k = (h, All-append Q xs ys hs k)

All-split : {B : Type 0} (Q : B → Type 0) (xs ys : List B) → All Q (xs ++ ys) → All Q xs × All Q ys
All-split Q [] ys h = (tt, h)
All-split Q (x ∷ xs) ys (h, hs) = let (k, l) = All-split Q xs ys hs in ((h, k), l)

OnNodes-join :
    {A : Type 0} (P : List A → Type 0) (around : List A) (ms ns : Nodes A)
    → Each P (events_in around ms)
    → Each P (events_in around ns)
    → Each P (events_in around (join ms ns))
unfolding events_in join
OnNodes-join P around end ns h k = k
OnNodes-join P around (node m ms) ns h k =
    let (at, later) = All-split _ (events_at around m) (events_in around ms) h in
    All-append _ (events_at around m) (events_in around (join ms ns)) at
      (OnNodes-join P around ms ns later k)

OnNodes-both :
    {A : Type 0} (P : List A → Type 0) (around : List A) (h k : Html A)
    → OnNodes P around h
    → OnNodes P around k
    → OnNodes P around (both_nodes h k)
unfolding OnNodes
OnNodes-both P around (ok ms) (ok ns) p q = OnNodes-join P around ms ns p q
OnNodes-both P around (ok ms) (thrown e) p q = tt
OnNodes-both P around (thrown e) k p q = tt

-- Nothing in a disabled element has an event.
Each-element :
    {A : Type 0} (P : List A → Type 0) (off : Bool) (acts : List A) (es fs : List (Value → List A))
    → (off ≡ false → P acts)
    → (off ≡ false → Each P es)
    → (off ≡ false → Each P fs)
    → Each P ((if off then [] else (λ v. acts) ∷ (es ++ fs)) ++ [])
Each-element {A} P true acts es fs p q r = tt
Each-element {A} P false acts es fs p q r =
    let Q = λ (e : Value → List A). (v : Value) → P (e v) in
    All-append Q ((λ v. acts) ∷ (es ++ fs)) [] (λ v. p refl, All-append Q es fs (q refl) (r refl))
      tt

OnNodes-el :
    {A : Type 0} (P : List A → Type 0) (around : List A) (tag : String) (attrs : List (Attr A))
    (kids : Html A)
    → (is_disabled attrs ≡ false → P (bubble attrs around))
    → (is_disabled attrs ≡ false → Each P (inputs attrs))
    → (is_disabled attrs ≡ false → OnNodes P (bubble attrs around) kids)
    → OnNodes P around (el tag attrs kids)
unfolding OnNodes el events_in
OnNodes-el P around tag attrs (thrown e) p q r = tt
OnNodes-el P around tag attrs (ok ns) p q r = Each-element P (is_disabled attrs) _ _ _ p q r

pub Fires-thrown :
    {A : Type 0} (P : List A → Type 0) (around : List A) (e : Exn) → Fires P around (thrown e)
unfolding OnNodes
Fires-thrown P around e = record { fires = tt }

module _ {A : Type 0} {P : List A → Type 0} {around : List A} where
  pub Fires-& : (h k : Html A) → Fires P around h → Fires P around k → Fires P around (h & k)
  unfolding ◌&◌
  Fires-& h k p q = record { fires = OnNodes-both P around h k p.fires q.fires }

  pub Fires-nothing : Fires P around nothing
  unfolding nothing OnNodes events_in
  Fires-nothing = record { fires = tt }

  pub Fires-txt : (s : String) → Fires P around (txt s)
  unfolding txt OnNodes events_in
  Fires-txt s = record { fires = tt }

  pub Fires-cut : (us : List ℕ) → Fires P around (cut us)
  unfolding cut OnNodes events_in
  Fires-cut us = record { fires = tt }

  pub Fires-if :
      (b : Bool) (h k : Html A)
      → (b ≡ true → Fires P around h)
      → (b ≡ false → Fires P around k)
      → Fires P around (if b then h else k)
  Fires-if true h k p q = p refl
  Fires-if false h k p q = q refl

  pub Fires-show_if :
      (b : Bool) (h : Html A) → (b ≡ true → Fires P around h) → Fires P around (show_if b h)
  unfolding show_if
  Fires-show_if b h p = Fires-if b h nothing p (λ e. Fires-nothing)

  pub Fires-show_if_both :
      (b c : Bool) (h : Html A)
      → (b ≡ true → c ≡ true → Fires P around h)
      → Fires P around (show_if (b && c) h)
  unfolding show_if
  Fires-show_if_both true c h p = Fires-if c h nothing (p refl) (λ e. Fires-nothing)
  Fires-show_if_both false c h p = Fires-nothing

  pub Fires-each :
      {B : Type 0} (f : B → Html A) (xs : List B)
      → ((x : B) → Memᴰ x xs → Fires P around (f x))
      → Fires P around (each f xs)
  unfolding each
  Fires-each f [] p = Fires-nothing
  Fires-each f (x ∷ xs) p =
      Fires-& (f x) (each f xs) (p x (Memᴰ.head refl)) (Fires-each f xs (λ y m. p y (Memᴰ.tail m)))

  pub Fires-of_result :
      {B : Type 0} (r : Result B) (f : B → Html A)
      → ((b : B) → r ≡ ok b → Fires P around (f b))
      → Fires P around (of_result r f)
  unfolding of_result
  Fires-of_result (ok b) f p = p b refl
  Fires-of_result (thrown e) f p = Fires-thrown P around e

  pub Fires-of_field :
      (k : String) (v : Value) (f : Value → Html A)
      → ((x : Value) → get k v ≡ ok x → Fires P around (f x))
      → Fires P around (of_field k v f)
  unfolding of_field
  Fires-of_field k v f p = Fires-of_result (get k v) f p

  pub Fires-el :
      (tag : String) (attrs : List (Attr A)) (kids : Html A)
      → (is_disabled attrs ≡ false → P (bubble attrs around))
      → (is_disabled attrs ≡ false → Each P (inputs attrs))
      → (is_disabled attrs ≡ false → Fires P (bubble attrs around) kids)
      → Fires P around (el tag attrs kids)
  Fires-el tag attrs kids p q r = record {
    fires = OnNodes-el P around tag attrs kids p q (λ e. (r e).fires);
  }

mutual
  unfolding child

  Fires-child_lem :
      {A : Type 0} (P : List A → Type 0) (around : List A) (v : Value) → Fires P around (child v)
  Fires-child_lem P around undefined = Fires-nothing
  Fires-child_lem P around null = Fires-nothing
  Fires-child_lem P around (bool b) = Fires-nothing
  Fires-child_lem P around (num t) = Fires-txt t
  Fires-child_lem P around (str s) = Fires-txt s
  Fires-child_lem P around (arr vs) = Fires-children P around vs
  Fires-child_lem P around (obj fs) = Fires-thrown P around _

  Fires-children :
      {A : Type 0} (P : List A → Type 0) (around : List A) (vs : Items)
      → Fires P around (children vs)
  Fires-children P around nil = Fires-nothing
  Fires-children P around (item v vs) =
      Fires-& (child v) (children vs) (Fires-child_lem P around v) (Fires-children P around vs)

module _ {A : Type 0} {P : List A → Type 0} {around : List A} where
  pub Fires-child : (v : Value) → Fires P around (child v)
  Fires-child v = Fires-child_lem P around v

  pub Fires-show_where :
      (v : Value) (h : Html A) → Fires P around h → Fires P around (show_where v h)
  unfolding show_where
  Fires-show_where v h p = Fires-if (truthy v) h (child v) (λ e. p) (λ e. Fires-child v)

pub ruleset fires_rules = (
  Fires-&, Fires-nothing, Fires-txt, Fires-cut, Fires-if, Fires-show_if, Fires-each,
  Fires-of_result, Fires-of_field, Fires-el, Fires-child, Fires-show_where, Fires-thrown,
)

map-Each :
    {A : Type 0} {P Q : List A → Type 0}
    → ((acts : List A) → P acts → Q acts)
    → (es : List (Value → List A)) → Each P es
    → Each Q es
map-Each f [] h = tt
map-Each f (e ∷ es) (h, hs) = (λ v. f (e v) (h v), map-Each f es hs)

OnNodes-map :
    {A : Type 0} (P Q : List A → Type 0) (around : List A)
    → ((acts : List A) → P acts → Q acts)
    → (h : Html A) → OnNodes P around h
    → OnNodes Q around h
unfolding OnNodes
OnNodes-map P Q around f (ok ns) p = map-Each f (events_in around ns) p
OnNodes-map P Q around f (thrown e) p = tt

pub Fires-map :
    {A : Type 0} {P Q : List A → Type 0} {around : List A} (h : Html A)
    → ((acts : List A) → P acts → Q acts)
    → Fires P around h
    → Fires Q around h
Fires-map {P = P} {Q = Q} {around = around} h f p = record {
  fires = OnNodes-map P Q around f h p.fires;
}

OnNodes-events :
    {A : Type 0} (P : List A → Type 0) (h : Html A) → OnNodes P [] h → Each P (events h)
unfolding OnNodes events
OnNodes-events P (ok ns) p = p
OnNodes-events P (thrown e) p = tt

pub events-Fires :
    {A : Type 0} {P : List A → Type 0} (h : Html A) → Fires P [] h → Each P (events h)
events-Fires {P} h f = OnNodes-events P h f.fires

-- An event does nothing, or takes one action that is allowed.
pub data Takes {A : Type 0} (Allowed : A → Type 0) (acts : List A) : Type 0 where
  inert : acts ≡ [] → Takes Allowed acts
  takes : (a : A) → acts ≡ a ∷ [] → Allowed a → Takes Allowed acts

module _ {A : Type 0} {Allowed : A → Type 0} where
  pub just : (a : A) → Allowed a → Takes Allowed (a ∷ [])
  just a h = takes a refl h

pub idle : (b : Bool) → (b || false) ≡ false → b ≡ false
idle true h = h
idle false h = h

pub ruleset takes_rules = (fires_rules, inert, just, idle)
