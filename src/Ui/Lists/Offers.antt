-- ===== src/Ui/Lists/Offers.antt =====
-- What a click in one of the lists does.
use mathlib.Core.List.{Memᴰ}
use mathlib.Core.List.Memᴰ
use agience.Base.{Bool, false, List, [], ◌∷◌, ◌≡◌, refl}
use agience.Js.Value.{Value, get}
use agience.Js.Exec.{ok}
use agience.Html.{Nodes, Html, events}
use agience.Html.Events.{
  Each, Fires, fires_rules, events-Fires, Fires-el, Fires-of_field, Fires-of_result, Fires-each,
}
use agience.Html.Contains.{
  Contains, Contains-inside, Contains-right, Contains-each, Contains-of_field, Contains-of_result,
  Contains-click, Has, events-Contains,
}
use agience.Ui.Common.{card, spinner}
use agience.Ui.Lists.{
  is_temp, Words, ListProps, entry, entries, item_list, name_of, agent_words, host_words,
  plugin_words, connection_words, authorizer_words, agent_body, host_body, plugin_body,
  connection_body, authorizer_body, agent_list, host_list, plugin_list, connection_list,
  authorizer_list,
}

-- The handlers that a click runs: none, the creation where there is no temporary item, or the
-- selection of an item of the list by its id, never two of them.
pub data Offered {A : Type 0} (p : ListProps A) (acts : List A) : Type 0 where
  inert : acts ≡ [] → Offered p acts
  creates : p.has_temp ≡ false → acts ≡ p.on_create ∷ [] → Offered p acts
  selects :
      (item id : Value)
      → p.is_loading ≡ false
      → Memᴰ item p.items
      → get "id" item ≡ ok id
      → acts ≡ p.on_select id ∷ []
      → Offered p acts

module _ {A : Type 0} {P : List A → Type 0} (around : List A) (here : P around) where
  pub spinner-Fires : Fires P around spinner
  unfolding spinner
  spinner-Fires = search (fires_rules)

  name_of-Fires : (item : Value) (temp : Bool) → Fires P around (name_of item temp)
  unfolding name_of
  name_of-Fires item temp = search (fires_rules)

module _ {A : Type 0} (w : Words) (p : ListProps A) (body : Value → Bool → Html A) where
  entry-Contains :
      (item id : Value)
      → get "id" item ≡ ok id
      → Contains (p.on_select id ∷ []) [] (entry p body item)
  unfolding entry
  entry-Contains item id found = Contains-of_field "id" item _ λ other same.
      Contains-of_result (is_temp other) _ λ temp known. Contains-click "div" _ _ refl (cc)

  entries-Contains :
      (items : List Value) (item id : Value)
      → Memᴰ item items
      → get "id" item ≡ ok id
      → Contains (p.on_select id ∷ []) [] (entries w p body items)
  unfolding entries
  entries-Contains [] item id m found = absurd (Memᴰ.not-nil m)
  entries-Contains (i ∷ items) item id m found =
      Contains-each (entry p body) (i ∷ items) item m (entry-Contains item id found)

  item_list-Contains :
      (item id : Value)
      → p.is_loading ≡ false
      → Memᴰ item p.items
      → get "id" item ≡ ok id
      → Contains (p.on_select id ∷ []) [] (item_list w p body)
  unfolding item_list card
  item_list-Contains item id loaded m found = Contains-inside "div" _ _ refl (
      Contains-right _ _ (
        Contains-inside "div" _ _ refl
          (Contains-inside "div" _ _ refl (rw loaded (entries-Contains p.items item id m found)))))

module _ {A : Type 0} (w : Words) (p : ListProps A) (body : Value → Bool → Html A)
    (inert_body : (P : List A → Type 0) (around : List A)
      → P around
      → (item : Value) (temp : Bool) → Fires P around (body item temp)) where
  entry-Fires :
      (item : Value)
      → p.is_loading ≡ false
      → Memᴰ item p.items
      → Fires (Offered p) [] (entry p body item)
  unfolding entry
  entry-Fires item loaded m = Fires-of_field "id" item _ λ id found.
      Fires-of_result (is_temp id) _ λ temp known.
        let h : Offered p (p.on_select id ∷ []) = selects item id loaded m found refl in
        Fires-el "div" _ _ (λ e. h) (λ e. tt) (λ e. inert_body _ _ h item temp)

  entries-Fires :
      (items : List Value)
      → p.is_loading ≡ false
      → ((item : Value) → Memᴰ item items → Memᴰ item p.items)
      → Fires (Offered p) [] (entries w p body items)
  unfolding entries
  entries-Fires [] loaded m = search (fires_rules, inert, creates) depth 12
  entries-Fires (item ∷ items) loaded m =
      Fires-each (entry p body) (item ∷ items) λ it k. entry-Fires it loaded (m it k)

  item_list-Fires : Fires (Offered p) [] (item_list w p body)
  unfolding item_list card
  item_list-Fires = search (fires_rules, inert, creates, spinner-Fires, entries-Fires) depth 12

ruleset body_rules = (fires_rules, name_of-Fires)

pub agent_list-Fires : {A : Type 0} (p : ListProps A) → Fires (Offered p) [] (agent_list p)
unfolding agent_list
agent_list-Fires p =
    item_list-Fires agent_words p agent_body λ P around here item temp. search body_rules depth 12

pub connection_list-Fires :
    {A : Type 0} (p : ListProps A) → Fires (Offered p) [] (connection_list p)
unfolding connection_list
connection_list-Fires p =
    item_list-Fires connection_words p connection_body
      λ P around here item temp. search body_rules depth 12

pub authorizer_list-Fires :
    {A : Type 0} (p : ListProps A) → Fires (Offered p) [] (authorizer_list p)
unfolding authorizer_list
authorizer_list-Fires p =
    item_list-Fires authorizer_words p authorizer_body
      λ P around here item temp. search body_rules depth 12

-- Each list, whether it shows the items or a spinner, offers what its props say: every click and
-- input runs nothing, or `onCreate` alone, if there is no temporary item, or `onSelect` alone with
-- the id of an item of the list, once it has been loaded.
pub lists-Offered :
    {A : Type 0} (p : ListProps A)
    → Each (Offered p) (events (agent_list p))
      × Each (Offered p) (events (host_list p))
      × Each (Offered p) (events (plugin_list p))
      × Each (Offered p) (events (connection_list p))
      × Each (Offered p) (events (authorizer_list p))
unfolding agent_list host_list plugin_list connection_list authorizer_list
lists-Offered p = (
  events-Fires _ (agent_list-Fires p),
  events-Fires _ (
      item_list-Fires host_words p host_body λ P around here item temp. search body_rules depth 12),
  events-Fires _ (
      item_list-Fires plugin_words p plugin_body
        λ P around here item temp. search body_rules depth 12),
  events-Fires _ (connection_list-Fires p),
  events-Fires _ (authorizer_list-Fires p),
)

-- Once the items have been loaded, each list that is shown has, for each of them, an event that
-- selects it: a click that runs just `onSelect` with its id.
pub lists-Selectable :
    {A : Type 0} (p : ListProps A) (item id : Value)
    (agents hosts plugins connections authorizers : Nodes A)
    → p.is_loading ≡ false
    → Memᴰ item p.items
    → get "id" item ≡ ok id
    → agent_list p ≡ ok agents
    → host_list p ≡ ok hosts
    → plugin_list p ≡ ok plugins
    → connection_list p ≡ ok connections
    → authorizer_list p ≡ ok authorizers
    → let select = p.on_select id ∷ [] in
      Has select (events (agent_list p))
      × Has select (events (host_list p))
      × Has select (events (plugin_list p))
      × Has select (events (connection_list p))
      × Has select (events (authorizer_list p))
unfolding agent_list host_list plugin_list connection_list authorizer_list
lists-Selectable p item id agents hosts plugins connections authorizers loaded m found a h q c u = (
  events-Contains _ _ a (item_list-Contains agent_words p agent_body item id loaded m found),
  events-Contains _ _ h (item_list-Contains host_words p host_body item id loaded m found),
  events-Contains _ _ q (item_list-Contains plugin_words p plugin_body item id loaded m found),
  events-Contains _ _ c
      (item_list-Contains connection_words p connection_body item id loaded m found),
  events-Contains _ _ u
      (item_list-Contains authorizer_words p authorizer_body item id loaded m found),
)
