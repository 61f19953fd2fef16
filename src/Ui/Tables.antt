-- ===== src/Ui/Tables.antt =====
-- The tables of hosts, plugins and topics: authority/manage-ui/src/components/hosts/HostTable.tsx,
-- plugins/PluginTable.tsx and topics/TopicTable.tsx. A host and a plugin are shown twice, in a row and
-- in a card for a small screen; `date_text` is what `new Date(v).toLocaleDateString()` gives.
pub mod Clicks
use agience.Base.{
  ℕ, String, Bool, true, false, Option, none, some, List, [], ◌∷◌, ◌==◌, ltb, length, take,
  if◌then◌else◌,
}
use agience.Js.Value.{
  Value, undefined, null, bool, num, str, arr, obj, elements, get, get?, is_text, or_else, truthy,
  cannot_read, text,
}
use agience.Js.Exec.{Exn, Result, ok, thrown, lift, pure, ◌>>=◌, ◌>>◌}
use agience.Js.Text.{utf_units}
use agience.World.{Io, emit, set_search}
use agience.Html.{
  attr, marked, on_click, Html, ◌&◌, nothing, txt, cut, child, el, each, of_result, of_field,
  show_where,
}
use agience.Ui.Common.{spinner}
use agience.Ui.Preview.{host_cell, host_card, plugin_cell, plugin_card}

-- What a click in a table does to an item.
pub data Act : Type 0 where
  choose : Value → Act
  visit : Value → Act
  edit : Value → Act
  remove : Value → Act

-- The id of the query that marks its row; absent, it is `none`.
abbrev is_chosen : Option String → Value → Bool
is_chosen none id = false
is_chosen (some s) id = is_text id s

abbrev no_function : String → Exn
no_function name = record { name = "TypeError"; message = name; status = none }

-- A description that is no text: an array or an object of one is no description. A long array has
-- no `substring`, and an object throws either way.
abbrev other_text : ℕ → Value → Html Act
other_text n (arr vs) =
    if ltb n (length (elements vs))
    then thrown (no_function "substring is not a function")
    else child (arr vs)
other_text n v = child v

abbrev no_description : Html Act
no_description = el "span" [] (txt "No description provided")

-- `host.description ? … : <span>No description provided</span>`
unfoldable pub host_description : ℕ → (String → List ℕ) → Value → Html Act
unfolding truthy
host_description n shorten (str s) = if s == "" then no_description else cut (shorten s)
host_description n shorten v = if truthy v then other_text n v else no_description

-- `plugin.description.length > n ? … : plugin.description || "No description provided"`
unfoldable pub plugin_description : ℕ → (String → List ℕ) → Value → Html Act
unfolding truthy
plugin_description n shorten (str s) = cut (shorten s)
plugin_description n shorten undefined = thrown (cannot_read "undefined" "length")
plugin_description n shorten null = thrown (cannot_read "null" "length")
plugin_description n shorten v = if truthy v then other_text n v else txt "No description provided"

-- `id.substring(0, 8)`
unfoldable pub id_start : Value → Result (List ℕ)
unfolding utf_units
id_start (str s) = ok (take 8 (utf_units s))
id_start undefined = thrown (cannot_read "undefined" "substring")
id_start null = thrown (cannot_read "null" "substring")
id_start (bool _) = thrown (no_function "host.id.substring is not a function")
id_start (num _) = thrown (no_function "host.id.substring is not a function")
id_start (arr _) = thrown (no_function "host.id.substring is not a function")
id_start (obj _) = thrown (no_function "host.id.substring is not a function")

-- A button of a row: its handler stops the click from reaching the row.
abbrev action : Act → Html Act → Html Act
action a label = el "button" (on_click true a ∷ []) label

abbrev header : String → Html Act
header label = el "th" [] (txt label)

abbrev empty_note : String → String → Html Act
empty_note first second = el "div" [] (el "div" [] (el "p" [] (txt first) & el "p" [] (txt second)))

module _ (date_text : Value → String) where
  unfoldable pub host_row : Option String → Value → Html Act
  host_row selected host = of_field "id" host λ id.
      el "tr" (marked (is_chosen selected id) ∷ on_click false (choose host) ∷ []) (
        el "td" [] (el "div" [] (el "div" [] (el "div" [] (child (get? "name" host) & txt " "))))
        & el "td" [] (el "div" [] (host_description 100 host_cell (get? "description" host)))
        & el "td" [] (el "div" [] (txt (date_text (get? "created_date" host))))
        & el "td" [] (
            action (visit host) (el "span" [] (txt "Keys"))
            & action (edit host) (el "span" [] (txt "Edit"))
            & action (remove host) (el "span" [] (txt "Delete"))))

  unfoldable pub host_block : Option String → Value → Html Act
  host_block selected host = of_field "id" host λ id. of_result (id_start id) λ start.
      el "div" (marked (is_chosen selected id) ∷ on_click false (choose host) ∷ []) (
        el "div" [] (
          el "div" [] (
            el "div" [] (
              el "h3" [] (child (get? "name" host))
              & el "p" [] (host_description 80 host_card (get? "description" host))
              & el "div" [] (txt "Created: " & txt (date_text (get? "created_date" host)))
              & el "div" [] (txt "ID: " & cut start & txt "...")))
          & el "div" [] (
              action (visit host) (txt "Keys")
              & action (edit host) (txt "Edit")
              & action (remove host) (txt "Delete"))))

  unfoldable pub host_rows : Option String → List Value → Html Act
  host_rows selected [] =
      empty_note "No hosts configured yet" "Click \"Add Host\" to create your first host"
  host_rows selected (h ∷ hs) = el "div" [] (
      el "div" [] (
        el "table" [] (
          el "thead" [] (
            el "tr" []
              (header "Name" & header "Description" & header "Created Date" & header "Actions"))
          & el "tbody" [] (each (host_row selected) (h ∷ hs))))
      & el "div" [] (el "div" [] (each (host_block selected) (h ∷ hs))))

  unfoldable pub host_table : Option String → List Value → Bool → Html Act
  unfolding host_rows
  host_table selected hosts is_loading = if is_loading then spinner else host_rows selected hosts

  unfoldable pub plugin_row : Value → Html Act
  plugin_row plugin = of_field "id" plugin λ id. el "tr" (on_click false (choose plugin) ∷ []) (
      el "td" [] (
        el "div" [] (
          el "div" [] (
            el "div" [] (child (get? "name" plugin))
            & show_where (get? "created_date" plugin)
                (el "div" [] (txt "Created: " & txt (date_text (get? "created_date" plugin)))))))
      & el "td" [] (el "div" [] (plugin_description 100 plugin_cell (get? "description" plugin)))
      & el "td" [] (el "span" [] (child (get? "provider" plugin)))
      & el "td" [] (action (edit plugin) (txt "Edit") & action (remove plugin) (txt "Delete")))

  unfoldable pub plugin_block : Value → Html Act
  plugin_block plugin = of_field "id" plugin λ id. el "div" (on_click false (choose plugin) ∷ []) (
      el "div" [] (
        el "div" [] (
          el "div" [] (
            el "h3" [] (child (get? "name" plugin))
            & el "p" [] (plugin_description 80 plugin_card (get? "description" plugin))
            & el "span" [] (child (get? "provider" plugin))))
        & el "div" [] (action (edit plugin) (txt "Edit") & action (remove plugin) (txt "Delete"))))

  unfoldable pub plugin_rows : List Value → Html Act
  plugin_rows [] =
      empty_note "No plugins configured yet" "Click \"Add Plugin\" to create your first plugin"
  plugin_rows (p ∷ ps) = el "div" [] (
      el "div" [] (
        el "table" [] (
          el "thead" [] (
            el "tr" []
              (header "Name" & header "Description" & header "Provider" & header "Actions"))
          & el "tbody" [] (each plugin_row (p ∷ ps))))
      & el "div" [] (el "div" [] (each plugin_block (p ∷ ps))))

  unfoldable pub plugin_table : List Value → Bool → Html Act
  unfolding plugin_rows
  plugin_table plugins is_loading = if is_loading then spinner else plugin_rows plugins

unfoldable pub topic_row : Option String → Value → Html Act
topic_row selected topic = of_field "id" topic λ id.
    el "tr" (marked (is_chosen selected id) ∷ on_click false (choose topic) ∷ []) (
      el "td" [] (el "div" [] (child (get? "name" topic)))
      & el "td" [] (el "div" [] (child (or_else (get? "description" topic) (str "No description"))))
      & el "td" [] (
          action (visit topic) (txt "View Agents")
          & action (edit topic) (txt "Edit")
          & action (remove topic) (txt "Delete")))

unfoldable pub topic_rows : Option String → List Value → Html Act
topic_rows selected [] =
    el "div" [] (el "p" [] (txt "No topics found. Create your first topic to get started."))
topic_rows selected (t ∷ ts) = el "div" [] (
    el "div" [] (
      el "table" [] (
        el "thead" [] (el "tr" [] (header "Name" & header "Description" & header "Actions"))
        & el "tbody" [] (each (topic_row selected) (t ∷ ts)))))

unfoldable pub topic_table : Option String → List Value → Bool → Html Act
unfolding topic_rows
topic_table selected topics is_loading = if is_loading then spinner else topic_rows selected topics

-- `setSearchParams({ id: v.id })`
unfoldable pub select_item : Value → Io (Unit {0})
unfolding emit text
select_item v = do id ← lift (get "id" v); emit (set_search (("id", text id) ∷ []))

-- `handleViewKeys`, and the button "View Agents": `tab_button` is what a click on the element does
-- that `document.querySelector` finds, if it finds one.
unfoldable pub visit_item : Option (Io (Unit {0})) → Value → Io (Unit {0})
unfolding select_item
visit_item none v = select_item v
visit_item (some tab_button) v = do select_item v; tab_button
