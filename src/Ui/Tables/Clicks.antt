-- ===== src/Ui/Tables/Clicks.antt =====
-- What a click in one of the tables does.
use mathlib.Core.List.{Memᴰ}
use mathlib.Core.List.Memᴰ
use agience.Base.{String, Bool, false, ℕ, Option, List, [], ◌∷◌, ◌≡◌, refl}
use agience.Js.Value.{Value, undefined, null, str, arr}
use agience.Js.Exec.{ok}
use agience.Html.{Nodes, events}
use agience.Html.Events.{Each, Fires, fires_rules, events-Fires}
use agience.Html.Contains.{
  Has, Contains, contains_rules, Contains-left, Contains-right, Contains-inside, Contains-each,
  events-Contains,
}
use agience.Ui.Lists.Offers.{spinner-Fires}
use agience.Ui.Tables.{
  Act, choose, visit, edit, remove, host_description, plugin_description, other_text, host_row,
  host_block, host_rows, host_table, plugin_row, plugin_block, plugin_rows, plugin_table, topic_row,
  topic_rows, topic_table,
}

abbrev pub item_of : Act → Value
item_of (choose v) = v
item_of (visit v) = v
item_of (edit v) = v
item_of (remove v) = v

-- A click runs no handler, or just one, for an item of the list.
pub data Clicked (items : List Value) (acts : List Act) : Type 0 where
  inert : acts ≡ [] → Clicked items acts
  once : (a : Act) → acts ≡ a ∷ [] → Memᴰ (item_of a) items → Clicked items acts

just : {items : List Value} (a : Act) → Memᴰ (item_of a) items → Clicked items (a ∷ [])
just a m = once a refl m

module _ {P : List Act → Type 0} (around : List Act) (here : P around) where
  other_text-Fires : (n : ℕ) (v : Value) → Fires P around (other_text n v)
  other_text-Fires n (arr vs) = search fires_rules
  other_text-Fires n v = search fires_rules

  host_description-Fires :
      (n : ℕ) (shorten : String → List ℕ) (v : Value)
      → Fires P around (host_description n shorten v)
  unfolding host_description
  host_description-Fires n shorten (str s) = search fires_rules depth 8
  host_description-Fires n shorten v = search fires_rules depth 8

  plugin_description-Fires :
      (n : ℕ) (shorten : String → List ℕ) (v : Value)
      → Fires P around (plugin_description n shorten v)
  unfolding plugin_description
  plugin_description-Fires n shorten (str s) = search fires_rules depth 8
  plugin_description-Fires n shorten undefined = search fires_rules depth 8
  plugin_description-Fires n shorten null = search fires_rules depth 8
  plugin_description-Fires n shorten v = search fires_rules depth 8

ruleset row_rules = (fires_rules, host_description-Fires, plugin_description-Fires, inert, just)

module _ (date_text : Value → String) (selected : Option String) (items : List Value) where
  host_row-Fires :
      (item : Value) → Memᴰ item items → Fires (Clicked items) [] (host_row date_text selected item)
  unfolding host_row
  host_row-Fires item m = search row_rules depth 20

  host_block-Fires :
      (item : Value)
      → Memᴰ item items
      → Fires (Clicked items) [] (host_block date_text selected item)
  unfolding host_block
  host_block-Fires item m = search row_rules depth 20

module _ (date_text : Value → String) (items : List Value) where
  plugin_row-Fires :
      (item : Value) → Memᴰ item items → Fires (Clicked items) [] (plugin_row date_text item)
  unfolding plugin_row
  plugin_row-Fires item m = search row_rules depth 20

  plugin_block-Fires :
      (item : Value) → Memᴰ item items → Fires (Clicked items) [] (plugin_block date_text item)
  unfolding plugin_block
  plugin_block-Fires item m = search row_rules depth 20

module _ (selected : Option String) (items : List Value) where
  topic_row-Fires :
      (item : Value) → Memᴰ item items → Fires (Clicked items) [] (topic_row selected item)
  unfolding topic_row
  topic_row-Fires item m = search row_rules depth 20

ruleset table_rules = (
  row_rules, spinner-Fires, host_row-Fires, host_block-Fires, plugin_row-Fires, plugin_block-Fires,
  topic_row-Fires,
)

host_rows-Fires :
    (date_text : Value → String) (selected : Option String) (items : List Value)
    → Fires (Clicked items) [] (host_rows date_text selected items)
unfolding host_rows
host_rows-Fires date_text selected [] = search table_rules depth 12
host_rows-Fires date_text selected (h ∷ hs) = search table_rules depth 12

plugin_rows-Fires :
    (date_text : Value → String) (items : List Value)
    → Fires (Clicked items) [] (plugin_rows date_text items)
unfolding plugin_rows
plugin_rows-Fires date_text [] = search table_rules depth 12
plugin_rows-Fires date_text (p ∷ ps) = search table_rules depth 12

topic_rows-Fires :
    (selected : Option String) (items : List Value)
    → Fires (Clicked items) [] (topic_rows selected items)
unfolding topic_rows
topic_rows-Fires selected [] = search table_rules depth 12
topic_rows-Fires selected (t ∷ ts) = search table_rules depth 12

-- Whatever the tables of hosts, plugins and topics show, a click in them runs no handler or just
-- one, and that does something to an item of the list: a button of a row never chooses the row as
-- well.
pub tables-Clicked :
    (date_text : Value → String) (selected : Option String) (items : List Value) (is_loading : Bool)
    → Each (Clicked items) (events (host_table date_text selected items is_loading))
      × Each (Clicked items) (events (plugin_table date_text items is_loading))
      × Each (Clicked items) (events (topic_table selected items is_loading))
unfolding host_table plugin_table topic_table
tables-Clicked date_text selected items is_loading = (
  events-Fires {P = Clicked items} _ (search (table_rules, host_rows-Fires) depth 6),
  events-Fires {P = Clicked items} _ (search (table_rules, plugin_rows-Fires) depth 6),
  events-Fires {P = Clicked items} _ (search (table_rules, topic_rows-Fires) depth 6),
)

host_row-Contains :
    (date_text : Value → String) (selected : Option String) (act : Act)
    → Contains (act ∷ []) [] (host_row date_text selected (item_of act))
unfolding host_row
host_row-Contains date_text selected (choose item) = search contains_rules depth 20
host_row-Contains date_text selected (visit item) = search contains_rules depth 20
host_row-Contains date_text selected (edit item) = search contains_rules depth 20
host_row-Contains date_text selected (remove item) = search contains_rules depth 20

topic_row-Contains :
    (selected : Option String) (act : Act)
    → Contains (act ∷ []) [] (topic_row selected (item_of act))
unfolding topic_row
topic_row-Contains selected (choose item) = search contains_rules depth 20
topic_row-Contains selected (visit item) = search contains_rules depth 20
topic_row-Contains selected (edit item) = search contains_rules depth 20
topic_row-Contains selected (remove item) = search contains_rules depth 20

host_rows-Contains :
    (date_text : Value → String) (selected : Option String) (act : Act) (items : List Value)
    → Memᴰ (item_of act) items
    → Contains (act ∷ []) [] (host_rows date_text selected items)
unfolding host_rows
host_rows-Contains date_text selected act [] m = absurd (Memᴰ.not-nil m)
host_rows-Contains date_text selected act (h ∷ hs) m = Contains-inside "div" _ _ refl (
    Contains-left _ _ (
      Contains-inside "div" _ _ refl (
        Contains-inside "table" _ _ refl (
          Contains-right _ _ (
            Contains-inside "tbody" _ _ refl (
              Contains-each _ (h ∷ hs) (item_of act) m
                (host_row-Contains date_text selected act)))))))

topic_rows-Contains :
    (selected : Option String) (act : Act) (items : List Value)
    → Memᴰ (item_of act) items
    → Contains (act ∷ []) [] (topic_rows selected items)
unfolding topic_rows
topic_rows-Contains selected act [] m = absurd (Memᴰ.not-nil m)
topic_rows-Contains selected act (t ∷ ts) m = Contains-inside "div" _ _ refl (
    Contains-inside "div" _ _ refl (
      Contains-inside "table" _ _ refl (
        Contains-right _ _ (
          Contains-inside "tbody" _ _ refl
            (Contains-each _ (t ∷ ts) (item_of act) m (topic_row-Contains selected act))))))

-- Once the items have been loaded and are shown, the tables of hosts and of topics offer each of
-- the four actions for each of the items: there is a click that runs that action and nothing else.
pub tables-Offered :
    (date_text : Value → String) (selected : Option String) (items : List Value) (act : Act)
    (hosts topics : Nodes Act)
    → Memᴰ (item_of act) items
    → host_table date_text selected items false ≡ ok hosts
    → topic_table selected items false ≡ ok topics
    → Has (act ∷ []) (events (host_table date_text selected items false))
      × Has (act ∷ []) (events (topic_table selected items false))
unfolding host_table topic_table
tables-Offered date_text selected items act hosts topics m h t = (
  events-Contains _ hosts h (host_rows-Contains date_text selected act items m),
  events-Contains _ topics t (topic_rows-Contains selected act items m),
)
