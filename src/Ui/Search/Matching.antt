-- ===== src/Ui/Search/Matching.antt =====
-- What the searches of authority/manage-ui/src/components keep, and when they answer.
use mathlib.Core.List.{Memᴰ}
use mathlib.Core.List.Memᴰ
use agience.Base.{
  String, Bool, true, false, List, [], ◌∷◌, ◌≡◌, refl, ap, sym, subst, inl, inr, ◌==◌, ◌||◌, select,
  All, if◌then◌else◌,
}
use agience.Js.Value.{Value, undefined, null, bool, num, str, arr, obj, get, get?}
use agience.Js.Exec.{Result, ok, thrown}
use agience.Js.Text.{includes}
use agience.Ui.Search.{
  choose, either, push, test, filter_with, lower_includes, lower_includes?, has_term, has_term?,
  filter_topics, filter_plugins, filter_agents,
}

-- `q` answers what `p` answers, wherever `p` does.
abbrev Extends : (Value → Result Bool) → (Value → Result Bool) → Type 0
Extends p q = (v : Value) (b : Bool) → p v ≡ ok b → q v ≡ ok b

lower_includes?-Extends :
    (lower : String → String) (term : String) (v : Value) (b : Bool)
    → lower_includes lower term v ≡ ok b
    → lower_includes? lower term v ≡ ok b
unfolding lower_includes lower_includes?
lower_includes?-Extends lower term (str s) b h = h
lower_includes?-Extends lower term undefined b h = absurd cc
lower_includes?-Extends lower term null b h = absurd cc
lower_includes?-Extends lower term (bool _) b h = h
lower_includes?-Extends lower term (num _) b h = h
lower_includes?-Extends lower term (arr _) b h = h
lower_includes?-Extends lower term (obj _) b h = h

-- A choice between keeping an item and leaving it out answers if its test and the rest do.
choose-Extends :
    (v : Value) (m n : Result Bool) (r s : Result (List Value)) (ws : List Value)
    → ((b : Bool) → m ≡ ok b → n ≡ ok b)
    → ((us : List Value) → r ≡ ok us → s ≡ ok us)
    → choose m (push v r) r ≡ ok ws
    → choose n (push v s) s ≡ ok ws
choose-Extends v (ok true) n (ok us) s ws f g h = rw (f true refl, g us refl) h
choose-Extends v (ok true) n (thrown e) s ws f g h = absurd cc
choose-Extends v (ok false) n r s ws f g h = rw (f false refl) (g ws h)
choose-Extends v (thrown e) n r s ws f g h = absurd cc

-- A test that answers more leaves the answers of the other as they are.
filter_with-Extends :
    (p q : Value → Result Bool)
    → Extends p q
    → (vs ws : List Value) → filter_with p vs ≡ ok ws
    → filter_with q vs ≡ ok ws
unfolding filter_with
filter_with-Extends p q more [] ws h = h
filter_with-Extends p q more (v ∷ vs) ws h =
    choose-Extends v (p v) (q v) (filter_with p vs) (filter_with q vs) ws (more v)
      (filter_with-Extends p q more vs) h

either-Extends :
    (m n k : Result Bool) (b : Bool)
    → ((c : Bool) → n ≡ ok c → k ≡ ok c)
    → either m n ≡ ok b
    → either m k ≡ ok b
either-Extends (ok true) n k b f h = h
either-Extends (ok false) n k b f h = f b h
either-Extends (thrown e) n k b f h = h

test-Extends :
    (p q : Value → Result Bool)
    → Extends p q
    → (r : Result Value) (b : Bool) → test p r ≡ ok b
    → test q r ≡ ok b
test-Extends p q more (ok v) b h = more v b h
test-Extends p q more (thrown e) b h = h

has_term?-Extends :
    (lower : String → String) (term : String) → Extends (has_term lower term) (has_term? lower term)
unfolding has_term has_term?
has_term?-Extends lower term v b h =
    either-Extends (test (lower_includes lower term) (get "name" v))
      (test (lower_includes lower term) (get "description" v))
      (test (lower_includes? lower term) (get "description" v)) b
      (test-Extends (lower_includes lower term) (lower_includes? lower term)
        (lower_includes?-Extends lower term) (get "description" v))
      h

branch :
    {A : Type 0} (c : Bool) (x y z w : A)
    → (y ≡ w → z ≡ w)
    → (if c then x else y) ≡ w
    → (if c then x else z) ≡ w
branch true x y z w f h = h
branch false x y z w f h = f h

-- Where the search of the topics returns a list, the search of the agents returns the same list:
-- the two differ only where the first throws.
filter_agents-filter_topics :
    (lower : String → String) (search_term : String) (vs ws : List Value)
    → filter_topics lower search_term vs ≡ ok ws
    → filter_agents lower search_term vs ≡ ok ws
unfolding filter_topics filter_agents
filter_agents-filter_topics lower search_term vs ws h =
    branch (search_term == "") (ok vs) (filter_with (has_term lower (lower search_term)) vs)
      (filter_with (has_term? lower (lower search_term)) vs) (ok ws)
      (filter_with-Extends (has_term lower (lower search_term))
        (has_term? lower (lower search_term)) (has_term?-Extends lower (lower search_term)) vs ws)
      h

keep :
    (b : Bool) (v : Value) (vs : List Value)
    → choose (ok b) (ok (v ∷ vs)) (ok vs) ≡ ok (if b then v ∷ vs else vs)
keep true v vs = refl
keep false v vs = refl

-- A test that returns for every item makes the filter return what a filter by its answers keeps.
filter_with-select :
    (p : Value → Result Bool) (answer : Value → Bool) (vs : List Value)
    → All (λ v. p v ≡ ok (answer v)) vs
    → filter_with p vs ≡ ok (select answer vs)
unfolding filter_with
filter_with-select p answer [] h = refl
filter_with-select p answer (v ∷ vs) (now, later) =
    rw (now, filter_with-select p answer vs later) (keep (answer v) v (select answer vs))

-- The text of a field
abbrev text_at : String → Value → String
text_at k v = elim (get? k v) [ str s ↦ s | _ ↦ "" ]

-- Its field `k` is a text.
HasText : String → Value → Type 0
HasText k v = get k v ≡ ok (str (text_at k v))

-- An item that a search for `search_term` keeps.
abbrev matches : (String → String) → String → Value → Bool
matches lower search_term v =
    search_term == ""
    || (includes (lower search_term) (lower (text_at "name" v))
        || includes (lower search_term) (lower (text_at "description" v)))

either-ok : (b c : Bool) → either (ok b) (ok c) ≡ ok (b || c)
either-ok true c = refl
either-ok false c = refl

has_term-ok :
    (lower : String → String) (term : String) (v : Value)
    → HasText "name" v
    → HasText "description" v
    → has_term lower term v
      ≡ ok (
          includes term (lower (text_at "name" v))
          || includes term (lower (text_at "description" v)))
unfolding has_term HasText
has_term-ok lower term v n d = rw (n, d) (either-ok _ _)

select_every : (vs : List Value) → select (λ v. true) vs ≡ vs
select_every [] = refl
select_every (v ∷ vs) = ap (λ rest. v ∷ rest) (select_every vs)

unless_empty :
    (empty : Bool) (answer : Value → Bool) (vs : List Value) (r : Result (List Value))
    → r ≡ ok (select answer vs)
    → (if empty then ok vs else r) ≡ ok (select (λ v. empty || answer v) vs)
unless_empty true answer vs r h = ap ok (sym (select_every vs))
unless_empty false answer vs r h = h

Texts-ok :
    (lower : String → String) (term : String) (vs : List Value)
    → All (λ v. HasText "name" v × HasText "description" v) vs
    → All
        (λ v.
          has_term lower term v
          ≡ ok (
              includes term (lower (text_at "name" v))
              || includes term (lower (text_at "description" v))))
        vs
Texts-ok lower term [] h = tt
Texts-ok lower term (v ∷ vs) ((n, d), later) =
    (has_term-ok lower term v n d, Texts-ok lower term vs later)

-- If the names and descriptions of all topics are texts, the search of the topics returns a list:
-- the topics, in their order, whose name or description in lower case has the lower-case search
-- term in it, and all topics for an empty one.
filter_topics-select :
    (lower : String → String) (search_term : String) (topics : List Value)
    → All (λ v. HasText "name" v × HasText "description" v) topics
    → filter_topics lower search_term topics ≡ ok (select (λ v. matches lower search_term v) topics)
unfolding filter_topics
filter_topics-select lower search_term topics h =
    unless_empty (search_term == "") _ topics
      (filter_with (has_term lower (lower search_term)) topics)
      (filter_with-select (has_term lower (lower search_term)) _ topics
        (Texts-ok lower (lower search_term) topics h))

kept-Memᴰ :
    (v : Value) (m : Result Bool) (r : Result (List Value)) (vs ws : List Value)
    → ((us : List Value) → r ≡ ok us → (w : Value) → Memᴰ w us → Memᴰ w vs)
    → choose m (push v r) r ≡ ok ws
    → (w : Value) → Memᴰ w ws
    → Memᴰ w (v ∷ vs)
kept-Memᴰ v (ok true) (ok us) vs ws f e w k =
    let same : ws ≡ v ∷ us = cc in
    elim (Memᴰ.cases_cons (subst (λ l. Memᴰ w l) same k)) [
      | inl first ↦ Memᴰ.head first
      | inr later ↦ Memᴰ.tail (f us refl w later)
    ]
kept-Memᴰ v (ok true) (thrown x) vs ws f e w k = absurd cc
kept-Memᴰ v (ok false) r vs ws f e w k = Memᴰ.tail (f ws e w k)
kept-Memᴰ v (thrown x) r vs ws f e w k = absurd cc

filter_with-Memᴰ :
    (p : Value → Result Bool) (vs ws : List Value)
    → filter_with p vs ≡ ok ws
    → (w : Value) → Memᴰ w ws
    → Memᴰ w vs
unfolding filter_with
filter_with-Memᴰ p [] ws e w k =
    let same : ws ≡ [] = cc in absurd (Memᴰ.not-nil (subst (λ l. Memᴰ w l) same k))
filter_with-Memᴰ p (v ∷ vs) ws e w k =
    kept-Memᴰ v (p v) (filter_with p vs) vs ws (λ us h. filter_with-Memᴰ p vs us h) e w k

in_filtered :
    (empty : Bool) (p : Value → Result Bool) (vs ws : List Value)
    → (if empty then ok vs else filter_with p vs) ≡ ok ws
    → (w : Value) → Memᴰ w ws
    → Memᴰ w vs
in_filtered true p vs ws e w k = let same : ws ≡ vs = cc in subst (λ l. Memᴰ w l) same k
in_filtered false p vs ws e w k = filter_with-Memᴰ p vs ws e w k

-- What the search of the plugins returns is among the plugins.
pub filter_plugins-Memᴰ :
    (lower : String → String) (search_term : String) (vs ws : List Value) (w : Value)
    → filter_plugins lower search_term vs ≡ ok ws
    → Memᴰ w ws
    → Memᴰ w vs
unfolding filter_plugins
filter_plugins-Memᴰ lower search_term vs ws w e k =
    in_filtered (search_term == "") (has_term lower (lower search_term)) vs ws e w k
