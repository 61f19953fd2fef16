-- ===== src/Ui/AgentPlugins/Page/Confirmed.antt =====
-- What a user can do on the tab of an agent's plugins, and what that sends.
use mathlib.Core.List.{Memᴰ}
use agience.Base.{
  String, Bool, true, false, List, [], ◌<>◌, ◌==◌, ◌≡◌, ◌⊎◌, inl, inr, refl, find, Option-cases,
}
use agience.Js.Value.{Value, get, get?, is_text}
use agience.Js.Exec.{ok}
use agience.World.{Call}
use agience.Client.{delete_call}
use agience.Trace.Sends.{Sends}
use agience.Services.AgentPlugins.{get_agent_plugins, add_plugin_to_agent, remove_plugin_from_agent}
use agience.Html.{events}
use agience.Html.Events.{
  Each, Fires, Fires-map, Fires-of_result, Takes, inert, takes, takes_rules, events-Fires,
}
use agience.Ui.{Query}
use agience.Ui.Common.Dialogs.{confirmation_modal-Fires, notification_modal-Fires}
use agience.Ui.Cards.{card_section, plugin_card}
use agience.Ui.Dispatch.{run_all}
use agience.Ui.Dispatch.Sending.{UiSends, Each-UiSends}
use agience.Ui.Dispatch.Deletes.{Permitted, confirmed, permitted_rules}
use agience.Ui.Lists.{agent_list}
use agience.Ui.Lists.Offers.{spinner-Fires, Offered, agent_list-Fires}
use agience.Ui.Lists.Offers
use agience.Ui.Search.{filter_plugins}
use agience.Ui.Search.Matching.{filter_plugins-Memᴰ}
use agience.Ui.AgentPlugins
use agience.Ui.AgentPlugins.{
  View, fetch_assigned_plugins, handle_add_plugin, handle_remove_plugin, handle_toggle_plugin,
  unassigned_plugins,
}
use agience.Ui.AgentPlugins.Page.{
  Action, select_agent, create_agent, search_for, toggle, close_notice, cancel_remove,
  confirm_remove, perform, list_props, sections, page,
}

-- One of the items has the id.
abbrev HasId : List Value → Value → Type 0
HasId items id = (item : Value) × Memᴰ item items × (get "id" item ≡ ok id)

-- What has to hold where an action can be taken.
abbrev pub Allowed : String → View → Action → Type 0
Allowed agent_id c (select_agent id) = (c.is_loading ≡ false) × HasId c.agents id
Allowed agent_id c create_agent = Unit
Allowed agent_id c (search_for v) = ((agent_id == "") ≡ false) × (c.is_loading ≡ false)
Allowed agent_id c (toggle id) =
    ((agent_id == "") ≡ false)
    × (c.is_loading ≡ false)
    × (HasId c.assigned_plugins id ⊎ HasId (unassigned_plugins c) id)
Allowed agent_id c close_notice = c.notification.is_open ≡ true
Allowed agent_id c cancel_remove = (c.confirmation.is_open ≡ true) × (c.is_loading ≡ false)
Allowed agent_id c confirm_remove = (c.confirmation.is_open ≡ true) × (c.is_loading ≡ false)

module _ (agent_id : String) (c : View) where
  list-Takes :
      (acts : List Action) → Offered (list_props agent_id c) acts → Takes (Allowed agent_id c) acts
  list-Takes acts (Offers.inert e) = inert e
  list-Takes acts (Offers.creates free e) = takes create_agent e tt
  list-Takes acts (Offers.selects item id loaded m found e) =
      takes (select_agent id) e (loaded, (item, m, found))

  list-Fires : Fires (Takes (Allowed agent_id c)) [] (agent_list (list_props agent_id c))
  list-Fires = Fires-map _ list-Takes (agent_list-Fires (list_props agent_id c))

  card-Fires :
      (is_assigned : Bool) (plugin : Value)
      → ((id : Value) → get "id" plugin ≡ ok id → Allowed agent_id c (toggle id))
      → Fires (Takes (Allowed agent_id c)) [] (plugin_card toggle is_assigned plugin)
  unfolding plugin_card
  card-Fires is_assigned plugin h = search takes_rules depth 16

  sections-Fires :
      (assigned unassigned : List Value)
      → (agent_id == "") ≡ false
      → c.is_loading ≡ false
      → ((w : Value) → Memᴰ w assigned → Memᴰ w c.assigned_plugins)
      → ((w : Value) → Memᴰ w unassigned → Memᴰ w (unassigned_plugins c))
      → Fires (Takes (Allowed agent_id c)) [] (sections c assigned unassigned)
  unfolding sections card_section
  sections-Fires assigned unassigned given loaded f g =
      let card = λ (w : Value) (m : Memᴰ w assigned).
        card-Fires true w (λ id found. (given, loaded, inl (w, f w m, found))) in
      let other = λ (w : Value) (m : Memᴰ w unassigned).
        card-Fires false w (λ id found. (given, loaded, inr (w, g w m, found))) in
      search (takes_rules, card, other) depth 20

  page-Fires :
      (lower : String → String) → Fires (Takes (Allowed agent_id c)) [] (page lower agent_id c)
  unfolding page
  page-Fires lower =
      Fires-of_result (filter_plugins lower c.search_term c.assigned_plugins) _ λ assigned e.
        Fires-of_result (filter_plugins lower c.search_term (unassigned_plugins c)) _
          λ unassigned k.
            let shown = λ (given : (agent_id == "") ≡ false) (loaded : c.is_loading ≡ false).
              sections-Fires assigned unassigned given loaded
                (λ w. filter_plugins-Memᴰ lower c.search_term c.assigned_plugins assigned w e)
                (λ w.
                  filter_plugins-Memᴰ lower c.search_term (unassigned_plugins c) unassigned w k) in
            search
              (
                takes_rules, list-Fires, spinner-Fires, shown, notification_modal-Fires,
                confirmation_modal-Fires,
              )
              depth 20

abbrev pub PluginPermitted : String → View → Call → Type 0
PluginPermitted agent_id c =
    Permitted c.confirmation.is_open c.is_loading
      (delete_call ("/manage/agent/" <> agent_id <> "/plugin/" <> c.confirmation.plugin_id))

module _ (agent_id : String) (c : View) where
  get_agent_plugins-Permitted :
      (id : String) → Sends (λ w. w) (PluginPermitted agent_id c) (get_agent_plugins id)
  unfolding get_agent_plugins
  get_agent_plugins-Permitted id = search permitted_rules depth 16

  add_plugin_to_agent-Permitted :
      (id plugin : String)
      → Sends (λ w. w) (PluginPermitted agent_id c) (add_plugin_to_agent id plugin)
  unfolding add_plugin_to_agent
  add_plugin_to_agent-Permitted id plugin = search permitted_rules depth 16

  remove_plugin_from_agent-Permitted :
      c.confirmation.is_open ≡ true
      → c.is_loading ≡ false
      → Sends
          (λ w. w)
          (PluginPermitted agent_id c)
          (remove_plugin_from_agent agent_id c.confirmation.plugin_id)
  unfolding remove_plugin_from_agent
  remove_plugin_from_agent-Permitted h k =
      let asked : PluginPermitted agent_id c _ = confirmed h k refl in
      search permitted_rules depth 16

  fetch_assigned_plugins-Permitted :
      (id : String) → UiSends (PluginPermitted agent_id c) (fetch_assigned_plugins id)
  unfolding fetch_assigned_plugins
  fetch_assigned_plugins-Permitted id =
      search (permitted_rules, get_agent_plugins-Permitted) depth 16

  handle_add_plugin-Permitted :
      (id : String) → UiSends (PluginPermitted agent_id c) (handle_add_plugin agent_id c id)
  unfolding handle_add_plugin
  handle_add_plugin-Permitted id =
      search (permitted_rules, fetch_assigned_plugins-Permitted, add_plugin_to_agent-Permitted)
        depth 16

  handle_toggle_plugin-Permitted :
      (id : String) → UiSends (PluginPermitted agent_id c) (handle_toggle_plugin agent_id c id)
  unfolding handle_toggle_plugin AgentPlugins.show_remove_confirmation
  handle_toggle_plugin-Permitted id =
      elim (Option-cases (find (λ p. is_text (get? "id" p) id) c.assigned_plugins)) [
        | inl other ↦ rw (other, handle_toggle_plugin) (handle_add_plugin-Permitted id)
        | inr (plugin, found) ↦ rw (found, handle_toggle_plugin) (search permitted_rules depth 8)
      ]

  perform-Permitted :
      (query : Query) (a : Action)
      → Allowed agent_id c a
      → UiSends (PluginPermitted agent_id c) (perform agent_id query c a)
  unfolding perform handle_remove_plugin AgentPlugins.set_search_term
      AgentPlugins.close_notification AgentPlugins.close_confirmation
      AgentPlugins.handle_select_agent AgentPlugins.handle_create_agent
  perform-Permitted query (select_agent id) h = search permitted_rules depth 8
  perform-Permitted query create_agent h = search permitted_rules depth 8
  perform-Permitted query (toggle id) h = handle_toggle_plugin-Permitted _
  perform-Permitted query confirm_remove (h, k) =
      search (permitted_rules, fetch_assigned_plugins-Permitted, remove_plugin_from_agent-Permitted)
        depth 16
  perform-Permitted query a h = search permitted_rules depth 8

-- Whatever the state of the tab of an agent's plugins, an event of what is shown takes one action
-- at most: it selects an agent of the list, which has been loaded, by its id; begins a new agent;
-- changes the search or toggles a plugin, which is assigned or available, by its id, where an agent
-- is given and nothing is loading; closes an open notification; or confirms or cancels a removal
-- while its dialog is open and nothing is loading. And whatever its handlers are answered, they
-- send no DELETE request but the one that removes the plugin of the open dialog from the agent.
pub agent_page-Confirmed :
    (lower : String → String) (agent_id : String) (query : Query) (c : View)
    → Each (Takes (Allowed agent_id c)) (events (page lower agent_id c))
      × Each
          (λ acts. UiSends (PluginPermitted agent_id c) (run_all (perform agent_id query c) acts))
          (events (page lower agent_id c))
agent_page-Confirmed lower agent_id query c =
    let offered = events-Fires (page lower agent_id c) (page-Fires agent_id c lower) in
    (
      offered,
      Each-UiSends (perform agent_id query c) (perform-Permitted agent_id c query)
          (events (page lower agent_id c)) offered,
    )
