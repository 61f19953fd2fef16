-- ===== src/Ui/AgentPlugins.antt =====
-- authority/manage-ui/src/components/agents/AgentPluginsTab.tsx
pub mod Toggling
pub mod Page
use agience.Base.{
  String, Bool, true, false, not, Option, none, some, List, [], ◌∷◌, ◌||◌, ◌<>◌, ◌==◌,
  if◌then◌else◌, any, find, select,
}
use agience.Js.Value.{Value, undefined, null, str, get?, is_text, same_key, text}
use agience.Js.Exec.{pure, try_catch, try_finally, both, ◌>>=◌, ◌>>◌}
use agience.World.{log_error, emit, set_search}
use agience.Ui.{
  Ui, update, io, Kind, success, error, Notification, no_notification, opened, Query, set_param,
  delete_param,
}
use agience.Services.Agents.{get_all_agents, get_agent_by_id}
use agience.Services.AgentPlugins.{
  get_agent_plugins, get_available_plugins, add_plugin_to_agent, remove_plugin_from_agent,
}

pub record Confirmation : Type 0 where
  pub is_open : Bool
  pub plugin_id : String
  pub plugin_name : Value

-- `agent` is `null` until it is fetched. The state `selectedAgent` is never read.
pub record View : Type 0 where
  pub agents : List Value
  pub is_loading : Bool
  pub agent : Value
  pub assigned_plugins : List Value
  pub available_plugins : List Value
  pub search_term : String
  pub notification : Notification
  pub confirmation : Confirmation

abbrev pub initial : View
initial = record {
  agents = [];
  is_loading = true;
  agent = null;
  assigned_plugins = [];
  available_plugins = [];
  search_term = "";
  notification = no_notification;
  confirmation = record { is_open = false; plugin_id = ""; plugin_name = str "" };
}

unfoldable pub set_loading : Bool → Ui View (Unit {0})
unfolding update
set_loading b = update λ v. record v { is_loading = b }

unfoldable pub set_search_term : String → Ui View (Unit {0})
unfolding update
set_search_term s = update λ v. record v { search_term = s }

unfoldable pub show_notification : String → String → Kind → Ui View (Unit {0})
unfolding update
show_notification title message kind =
    update λ v. record v { notification = opened title message kind }

unfoldable pub close_notification : Ui View (Unit {0})
unfolding update
close_notification =
    update λ v. record v { notification = record v.notification { is_open = false } }

unfoldable pub show_remove_confirmation : String → Value → Ui View (Unit {0})
unfolding update
show_remove_confirmation plugin_id plugin_name = update λ v. record v {
  confirmation = record { is_open = true; plugin_id = plugin_id; plugin_name = plugin_name };
}

unfoldable pub close_confirmation : Ui View (Unit {0})
unfolding update
close_confirmation =
    update λ v. record v { confirmation = record v.confirmation { is_open = false } }

-- The handlers of a tab for the agent `agent_id`, which is empty if none is selected.
module _ (agent_id : String) where
  unfoldable pub fetch_assigned_plugins : Ui View (Unit {0})
  unfolding update io log_error ◌>>=◌
  fetch_assigned_plugins =
      if agent_id == ""
      then pure tt
      else try_catch
          (do
            plugins ← io (get_agent_plugins agent_id)
            update (λ v. record v { assigned_plugins = plugins }))
          (λ e. io (log_error "Error fetching assigned plugins:"))

  unfoldable pub fetch_data : Ui View (Unit {0})
  unfolding set_loading show_notification both update io log_error ◌>>=◌
  fetch_data =
      if agent_id == ""
      then (do
        set_loading true
        try_finally
            (try_catch (do agents ← io get_all_agents; update (λ v. record v { agents = agents }))
              (λ e. do
                io (log_error "Error fetching agents:")
                show_notification "Error" "Failed to load agents" error))
            (set_loading false))
      else do
        set_loading true
        try_finally
            (try_catch
              (do
                ((agents, agent), (assigned, available)) ←
                    both (both (io get_all_agents) (io (get_agent_by_id agent_id)))
                      (both (io (get_agent_plugins agent_id)) (io get_available_plugins))
                update (λ v. record v { agents = agents })
                update (λ v. record v { agent = agent })
                update (λ v. record v { assigned_plugins = assigned })
                update (λ v. record v { available_plugins = available }))
              (λ e. do
                io (log_error "Error fetching data:")
                show_notification "Error" "Failed to load data" error))
            (set_loading false)

abbrev pub found_name : Option Value → Value
found_name none = undefined
found_name (some p) = get? "name" p

-- `plugins.find(p => p.id === pluginId)?.name`, printed
abbrev pub plugin_name_of : String → List Value → String
plugin_name_of plugin_id plugins =
    text (found_name (find (λ p. is_text (get? "id" p) plugin_id) plugins))

-- The handlers that a render of the state `c` has made.
module _ (agent_id : String) (c : View) where
  unfoldable pub handle_remove_plugin : Ui View (Unit {0})
  unfolding fetch_assigned_plugins set_loading show_notification close_confirmation
  handle_remove_plugin = if agent_id == "" || c.confirmation.plugin_id == "" then pure tt else do
    set_loading true
    try_finally
        (try_catch
          (do
            io (remove_plugin_from_agent agent_id c.confirmation.plugin_id)
            fetch_assigned_plugins agent_id
            show_notification "Plugin Removed"
                ("Successfully removed plugin \""
                  <> text c.confirmation.plugin_name
                  <> "\" from the agent.")
                success)
          (λ e. do
            io (log_error "Error removing plugin:")
            show_notification "Error"
                ("Failed to remove plugin \""
                  <> text c.confirmation.plugin_name
                  <> "\". Please try again.")
                error))
        (do set_loading false; close_confirmation)

  unfoldable pub handle_add_plugin : String → Ui View (Unit {0})
  unfolding fetch_assigned_plugins set_loading show_notification
  handle_add_plugin plugin_id = if agent_id == "" then pure tt else do
    set_loading true
    try_finally
        (try_catch
          (do
            io (add_plugin_to_agent agent_id plugin_id)
            fetch_assigned_plugins agent_id
            show_notification "Plugin Added"
                ("Successfully added plugin \""
                  <> plugin_name_of plugin_id c.available_plugins
                  <> "\" to the agent.")
                success)
          (λ e. do
            io (log_error "Error adding plugin:")
            show_notification "Error"
                ("Failed to add plugin \""
                  <> plugin_name_of plugin_id c.available_plugins
                  <> "\". Please try again.")
                error))
        (set_loading false)

  -- The second look for the plugin is in the case of the first.
  unfoldable pub handle_toggle_plugin : String → Ui View (Unit {0})
  unfolding handle_add_plugin show_remove_confirmation
  handle_toggle_plugin plugin_id =
      elim (find (λ p. is_text (get? "id" p) plugin_id) c.assigned_plugins) [
        | some plugin ↦ show_remove_confirmation plugin_id (get? "name" plugin)
        | none ↦ handle_add_plugin plugin_id
      ]

-- The available plugins whose id no assigned plugin has.
unfoldable pub unassigned_plugins : View → List Value
unfolding same_key
unassigned_plugins v =
    select (λ p. not (any (λ a. same_key (get? "id" a) (get? "id" p)) v.assigned_plugins))
      v.available_plugins

unfoldable pub handle_select_agent : String → Ui View (Unit {0})
unfolding io emit
handle_select_agent id = io (emit (set_search (("id", id) ∷ [])))

-- The query goes to the tab of the agents without an agent.
unfoldable pub handle_create_agent : Query → Ui View (Unit {0})
unfolding io emit set_param delete_param
handle_create_agent query =
    io (emit (set_search (set_param "tab" "Agents" (delete_param "id" query))))
