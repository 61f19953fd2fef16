-- ===== src/Ui/Lists.antt =====
-- The lists at the side of the tabs: authority/manage-ui/src/components/agents/AgentList.tsx,
-- hosts/HostList.tsx, plugins/PluginList.tsx, settings/ConnectionList.tsx and AuthorizerList.tsx.
pub mod Offers
use text.Mathlib.Text.{starts_with}
use agience.Base.{String, Bool, true, false, Option, none, some, List, [], ◌∷◌, ◌<>◌, if◌then◌else◌}
use agience.Js.Value.{
  Value, undefined, null, bool, num, str, arr, obj, get?, is_text, or_else, truthy, cannot_read,
}
use agience.Js.Same.{is_same}
use agience.Js.Exec.{Exn, Result, ok, thrown}
use agience.Html.{
  Attr, attr, disabled, marked, on_click, Html, ◌&◌, nothing, txt, child, el, show_if, each,
  of_result, of_field,
}
use agience.Ui.Common.{card, spinner}

abbrev no_starts_with : Exn
no_starts_with = record {
  name = "TypeError";
  message = "startsWith is not a function";
  status = none;
}

-- `id.startsWith('temp-')`
unfoldable pub is_temp : Value → Result Bool
is_temp (str s) = ok (starts_with s "temp-")
is_temp undefined = thrown (cannot_read "undefined" "startsWith")
is_temp null = thrown (cannot_read "null" "startsWith")
is_temp (bool _) = thrown no_starts_with
is_temp (num _) = thrown no_starts_with
is_temp (arr _) = thrown no_starts_with
is_temp (obj _) = thrown no_starts_with

-- The words of a list: its title, the noun of its buttons, and the title of the button while there
-- is a temporary item and while there is none.
pub record Words : Type 0 where
  pub title : String
  pub noun : String
  pub save_first : String
  pub create : String
  pub none_found : String
  pub first : String

abbrev pub agent_words : Words
agent_words = record {
  title = "My Agents";
  noun = "Agent";
  save_first = "Save or cancel the current new agent first";
  create = "Create a new agent";
  none_found = "No agents found";
  first = "Create your first agent";
}

abbrev pub host_words : Words
host_words = record {
  title = "My Hosts";
  noun = "Host";
  save_first = "Save or cancel the current new host first";
  create = "Create a new host";
  none_found = "No hosts found";
  first = "Create your first host";
}

abbrev pub plugin_words : Words
plugin_words = record {
  title = "My Plugins";
  noun = "Plugin";
  save_first = "Save or cancel the current new plugin first";
  create = "Create a new plugin";
  none_found = "No plugins found";
  first = "Create your first plugin";
}

abbrev pub connection_words : Words
connection_words = record {
  title = "My Connections";
  noun = "Connection";
  save_first = "Save or cancel the current new connection first";
  create = "Create a new connection";
  none_found = "No connections found";
  first = "Create your first connection";
}

abbrev pub authorizer_words : Words
authorizer_words = record {
  title = "My Authorizers";
  noun = "Authorizer";
  save_first = "Save or cancel the current new authorizer first";
  create = "Create a new authorizer";
  none_found = "No authorizers found";
  first = "Create your first authorizer";
}

-- The props. The callbacks are given an id, and nothing.
pub record ListProps (A : Type 0) : Type 0 where
  pub items : List Value
  pub selected : Value
  pub is_loading : Bool
  pub on_select : Value → A
  pub on_create : A
  pub has_temp : Bool

module _ {A : Type 0} where
  unfoldable pub entry : ListProps A → (Value → Bool → Html A) → Value → Html A
  unfolding is_temp
  entry p body item = of_field "id" item λ id. of_result (is_temp id) λ temp.
      el "div" (marked (is_same p.selected id) ∷ on_click false (p.on_select id) ∷ [])
        (body item temp)

  unfoldable pub entries : Words → ListProps A → (Value → Bool → Html A) → List Value → Html A
  unfolding entry
  entries w p body [] = el "div" [] (
      el "p" [] (txt w.none_found)
      & el "button" (on_click false p.on_create ∷ disabled p.has_temp ∷ []) (txt w.first))
  entries w p body (item ∷ items) = each (entry p body) (item ∷ items)

  unfoldable pub item_list : Words → ListProps A → (Value → Bool → Html A) → Html A
  unfolding card spinner entries
  item_list w p body =
      card w.title
        (some (
          el "button"
            (on_click false p.on_create
              ∷ disabled p.has_temp
              ∷ attr "title" (if p.has_temp then w.save_first else w.create)
              ∷ [])
            (el "span" [] (txt ("New " <> w.noun)))))
        (el "div" [] (if p.is_loading then spinner else entries w p body p.items))

  -- The badge of a temporary item
  unfoldable pub name_of : Value → Bool → Html A
  unfolding get?
  name_of item temp =
      el "h3" [] (child (get? "name" item) & show_if temp (el "span" [] (txt "New")))

  unfoldable pub agent_body : Value → Bool → Html A
  unfolding name_of get? truthy
  agent_body agent temp =
      let enabled = truthy (get? "is_enabled" agent) in
      el "div" [] (
        name_of agent temp
        & el "p" [] (child (or_else (get? "description" agent) (str "No description")))
        & el "div" [] (
            el "div" (marked enabled ∷ []) nothing
            & el "span" [] (txt (if enabled then "Enabled" else "Disabled"))))

  unfoldable pub agent_list : ListProps A → Html A
  unfolding item_list agent_body
  agent_list p = item_list agent_words p agent_body

  unfoldable pub host_body : Value → Bool → Html A
  unfolding name_of get? truthy
  host_body host temp = el "div" [] (
      el "div" [] (
        name_of host temp
        & el "p" [] (child (or_else (get? "description" host) (str "No description")))))

  unfoldable pub host_list : ListProps A → Html A
  unfolding item_list host_body
  host_list p = item_list host_words p host_body

  unfoldable pub plugin_body : Value → Bool → Html A
  unfolding name_of get?
  plugin_body plugin temp = el "div" [] (name_of plugin temp & el "p" [] (child (get? "id" plugin)))

  unfoldable pub plugin_list : ListProps A → Html A
  unfolding item_list plugin_body
  plugin_list p = item_list plugin_words p plugin_body

  -- `connection.authorizer?.name || 'No authorizer'`
  unfoldable pub connection_body : Value → Bool → Html A
  unfolding name_of get? truthy
  connection_body connection temp = el "div" [] (
      name_of connection temp
      & el "p" []
          (child (or_else (get? "name" (get? "authorizer" connection)) (str "No authorizer"))))

  unfoldable pub connection_list : ListProps A → Html A
  unfolding item_list connection_body
  connection_list p = item_list connection_words p connection_body

  unfoldable pub authorizer_body : Value → Bool → Html A
  unfolding name_of get?
  authorizer_body authorizer temp =
      el "div" [] (name_of authorizer temp & el "p" [] (child (get? "type" authorizer)))

  unfoldable pub authorizer_list : ListProps A → Html A
  unfolding item_list authorizer_body
  authorizer_list p = item_list authorizer_words p authorizer_body
