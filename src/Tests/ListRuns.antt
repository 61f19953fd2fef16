-- ===== src/Tests/ListRuns.antt =====
-- Lists and tables that are shown, and what can be clicked in them.
use mathlib.Core.List.{Memᴰ}
use agience.Base.{refl, [], ◌∷◌, ◌≡◌, false, none, some}
use agience.Js.Value.{Value, null, str, get, get?, truthy}
use agience.Js.Exec.{ok, thrown}
use agience.Html.{
  Nodes, end, Html, events, el, ◌&◌, txt, child, show_if, each, of_result, of_field, cut,
}
use agience.Html.Events.{Each}
use agience.Html.Contains.{Has}
use agience.Ui.Lists.{
  ListProps, item_list, agent_list, host_list, plugin_list, connection_list, authorizer_list,
}
use agience.Ui.Lists.Offers.{Offered, lists-Offered, lists-Selectable}
use agience.Ui.Tables.{
  edit, host_table, host_row, host_block, host_description, id_start, plugin_table, topic_table,
  topic_row,
}
use agience.Ui.Tables.Clicks.{Clicked, tables-Clicked, tables-Offered}
use agience.Tests.ClickRuns.{date_text, item}

-- A list of one item, whose callbacks are values.
abbrev props : ListProps Value
props = record {
  items = item ∷ [];
  selected = null;
  is_loading = false;
  on_select = λ id. id;
  on_create = str "create";
  has_temp = false;
}

lists-Offered_example :
    Each (Offered props) (events (agent_list props))
    × Each (Offered props) (events (host_list props))
    × Each (Offered props) (events (plugin_list props))
    × Each (Offered props) (events (connection_list props))
    × Each (Offered props) (events (authorizer_list props))
lists-Offered_example = lists-Offered props

abbrev nodes : {A : Type 0} → Html A → Nodes A
nodes (ok ns) = ns
nodes (thrown e) = end

agent_list_shown : agent_list props ≡ ok (nodes (agent_list props))
unfolding agent_list item_list el ◌&◌ txt each of_field child show_if
agent_list_shown = refl

host_list_shown : host_list props ≡ ok (nodes (host_list props))
unfolding host_list item_list el ◌&◌ txt each of_field child show_if
host_list_shown = refl

plugin_list_shown : plugin_list props ≡ ok (nodes (plugin_list props))
unfolding plugin_list item_list el ◌&◌ txt each of_field child show_if
plugin_list_shown = refl

connection_list_shown : connection_list props ≡ ok (nodes (connection_list props))
unfolding connection_list item_list el ◌&◌ txt each of_field child show_if
connection_list_shown = refl

authorizer_list_shown : authorizer_list props ≡ ok (nodes (authorizer_list props))
unfolding authorizer_list item_list el ◌&◌ txt each of_field child show_if
authorizer_list_shown = refl

item_id : get "id" item ≡ ok (str "i1")
unfolding get
item_id = refl

lists-Selectable_example :
    Has (str "i1" ∷ []) (events (agent_list props))
    × Has (str "i1" ∷ []) (events (host_list props))
    × Has (str "i1" ∷ []) (events (plugin_list props))
    × Has (str "i1" ∷ []) (events (connection_list props))
    × Has (str "i1" ∷ []) (events (authorizer_list props))
lists-Selectable_example =
    lists-Selectable props item (str "i1") (nodes (agent_list props)) (nodes (host_list props))
      (nodes (plugin_list props)) (nodes (connection_list props)) (nodes (authorizer_list props))
      refl (Memᴰ.head refl) item_id agent_list_shown host_list_shown plugin_list_shown
      connection_list_shown authorizer_list_shown

tables-Clicked_example :
    Each (Clicked (item ∷ [])) (events (host_table date_text (some "i1") (item ∷ []) false))
    × Each (Clicked (item ∷ [])) (events (plugin_table date_text (item ∷ []) false))
    × Each (Clicked (item ∷ [])) (events (topic_table (some "i1") (item ∷ []) false))
tables-Clicked_example = tables-Clicked date_text (some "i1") (item ∷ []) false

host_table_shown :
    host_table date_text none (item ∷ []) false
    ≡ ok (nodes (host_table date_text none (item ∷ []) false))
unfolding host_table host_row host_block el ◌&◌ txt each of_field of_result child cut
    host_description id_start get?
host_table_shown = refl

topic_table_shown :
    topic_table none (item ∷ []) false ≡ ok (nodes (topic_table none (item ∷ []) false))
unfolding topic_table topic_row el ◌&◌ txt each of_field child get? truthy
topic_table_shown = refl

tables-Offered_example :
    Has (edit item ∷ []) (events (host_table date_text none (item ∷ []) false))
    × Has (edit item ∷ []) (events (topic_table none (item ∷ []) false))
tables-Offered_example =
    tables-Offered date_text none (item ∷ []) (edit item)
      (nodes (host_table date_text none (item ∷ []) false))
      (nodes (topic_table none (item ∷ []) false)) (Memᴰ.head refl) host_table_shown
      topic_table_shown
