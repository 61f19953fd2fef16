-- ===== src/Ui/AgentPlugins/Page.antt =====
-- authority/manage-ui/src/components/agents/AgentPluginsTab.tsx
-- What the tab shows, and what its handlers do. An id stands by its text; `lower` is `toLowerCase`.
pub mod Confirmed
use agience.Base.{
  String, Bool, true, false, Option, none, some, List, [], ◌∷◌, ◌<>◌, ◌==◌, if◌then◌else◌,
}
use agience.Js.Value.{Value, null, str, or_else, get?, truthy, text}
use agience.Html.{
  Attr, attr, value, on_change, Html, ◌&◌, nothing, txt, child, el, show_if, of_result,
}
use agience.Ui.{Ui, Query}
use agience.Ui.Common.{spinner, confirmation_modal, notification_modal}
use agience.Ui.Cards.{card_section, plugin_card}
use agience.Ui.Lists.{ListProps, agent_list}
use agience.Ui.Search.{filter_plugins}
use agience.Ui.AgentPlugins.{
  View, set_search_term, close_notification, close_confirmation, handle_remove_plugin,
  handle_toggle_plugin, unassigned_plugins, handle_select_agent, handle_create_agent,
}

-- The handlers of the elements. The ids are the values of the fields `id`.
pub data Action : Type 0 where
  select_agent : Value → Action
  create_agent : Action
  search_for : Value → Action
  toggle : Value → Action
  close_notice : Action
  cancel_remove : Action
  confirm_remove : Action

-- What a handler of the render of `c` does, at an address with this query.
unfoldable pub perform : String → Query → View → Action → Ui View (Unit {0})
unfolding text
perform agent_id query c (select_agent id) = handle_select_agent (text id)
perform agent_id query c create_agent = handle_create_agent query
perform agent_id query c (search_for v) = set_search_term (text v)
perform agent_id query c (toggle id) = handle_toggle_plugin agent_id c (text id)
perform agent_id query c close_notice = close_notification
perform agent_id query c cancel_remove = close_confirmation
perform agent_id query c confirm_remove = handle_remove_plugin agent_id c

-- `contextAgentId || null`
abbrev pub selected_agent : String → Value
selected_agent id = or_else (str id) null

abbrev pub list_props : String → View → ListProps Action
list_props agent_id c = record {
  items = c.agents;
  selected = selected_agent agent_id;
  is_loading = c.is_loading;
  on_select = select_agent;
  on_create = create_agent;
  has_temp = false;
}

unfoldable pub sections : View → List Value → List Value → Html Action
sections c assigned unassigned = el "div" [] (
    el "div" [] (
      el "div" [] nothing
      & el "input"
          (attr "type" "text"
            ∷ attr "placeholder" "Search plugins..."
            ∷ value (str c.search_term)
            ∷ on_change search_for
            ∷ [])
          nothing)
    & card_section "Assigned Plugins" "No plugins assigned to this agent yet."
        (plugin_card toggle true) assigned
    & card_section "Available Plugins" "No additional plugins available." (plugin_card toggle false)
        unassigned)

-- The lists are filtered before anything is shown, also where they are not shown.
unfoldable pub page : (String → String) → String → View → Html Action
page lower agent_id c =
    of_result (filter_plugins lower c.search_term c.assigned_plugins) λ assigned.
      of_result (filter_plugins lower c.search_term (unassigned_plugins c)) λ unassigned.
        el "div" [] (
          el "div" [] (agent_list (list_props agent_id c))
          & el "div" [] (
              el "div" [] (
                el "div" [] (
                  el "h2" [] (
                    txt (if truthy c.agent then "Plugins for " else "Agent Plugins")
                    & show_if (truthy c.agent) (el "span" [] (child (get? "name" c.agent)))))
                & (if agent_id == ""
                    then el "div" [] (el "p" [] (txt "Please select an agent from the list first."))
                    else if c.is_loading
                    then spinner
                    else sections c assigned unassigned)))
          & notification_modal c.notification close_notice
          & confirmation_modal c.confirmation.is_open cancel_remove confirm_remove
              (txt "Remove Plugin")
              (txt (
                "Are you sure you want to remove the plugin \""
                <> text c.confirmation.plugin_name
                <> "\" from this agent?"))
              "Remove" "Cancel" c.is_loading)
