-- ===== src/Ui/AgentTopics.antt =====
-- authority/manage-ui/src/components/agents/AgentTopicsTab.tsx
pub mod Removal
pub mod Saving
pub mod Handlers
use agience.Base.{
  String, Bool, true, false, not, Option, none, some, List, [], ◌∷◌, ◌==◌, if◌then◌else◌, any, find,
  select,
}
use agience.Js.Value.{Value, undefined, null, str, get?, is_text, same_key, text}
use agience.Js.Exec.{pure, try_catch, try_finally, both, ◌>>=◌, ◌>>◌}
use agience.World.{log_error, emit, set_search}
use agience.Ui.{
  Ui, update, io, Kind, error, Notification, no_notification, opened, Query, set_param,
  delete_param,
}
use agience.Services.Agents.{get_all_agents, get_agent_by_id}
use agience.Services.AgentTopics.{get_agent_topics, get_available_topics}

pub record Confirmation : Type 0 where
  pub is_open : Bool
  pub topic_id : String
  pub topic_name : Value

-- `agent` is `null` until it is fetched. The state `selectedAgent` is never read.
pub record View : Type 0 where
  pub agents : List Value
  pub agent : Value
  pub assigned_topics : List Value
  pub available_topics : List Value
  pub is_loading : Bool
  pub show_topic_form : Bool
  pub is_submitting : Bool
  pub notification : Notification
  pub confirmation : Confirmation

abbrev pub initial : View
initial = record {
  agents = [];
  agent = null;
  assigned_topics = [];
  available_topics = [];
  is_loading = true;
  show_topic_form = false;
  is_submitting = false;
  notification = no_notification;
  confirmation = record { is_open = false; topic_id = ""; topic_name = str "" };
}

unfoldable pub set_loading : Bool → Ui View (Unit {0})
unfolding update
set_loading b = update λ v. record v { is_loading = b }

unfoldable pub show_notification : String → String → Kind → Ui View (Unit {0})
unfolding update
show_notification title message kind =
    update λ v. record v { notification = opened title message kind }

unfoldable pub close_notification : Ui View (Unit {0})
unfolding update
close_notification =
    update λ v. record v { notification = record v.notification { is_open = false } }

unfoldable pub show_remove_confirmation : String → Value → Ui View (Unit {0})
unfolding update
show_remove_confirmation topic_id topic_name = update λ v. record v {
  confirmation = record { is_open = true; topic_id = topic_id; topic_name = topic_name };
}

unfoldable pub close_confirmation : Ui View (Unit {0})
unfolding update
close_confirmation =
    update λ v. record v { confirmation = record v.confirmation { is_open = false } }

unfoldable pub fetch_agents : Ui View (Unit {0})
unfolding update io log_error ◌>>=◌
fetch_agents =
    try_catch (do agents ← io get_all_agents; update (λ v. record v { agents = agents }))
      (λ e. io (log_error "Error fetching agents:"))

-- The handlers of a tab for the agent `agent_id`, which is empty if none is selected.
module _ (agent_id : String) where
  unfoldable pub fetch_assigned_topics : Ui View (Unit {0})
  unfolding update io log_error ◌>>=◌
  fetch_assigned_topics =
      if agent_id == ""
      then pure tt
      else try_catch
          (do
            topics ← io (get_agent_topics agent_id)
            update (λ v. record v { assigned_topics = topics }))
          (λ e. io (log_error "Error fetching assigned topics:"))

  unfoldable pub fetch_available_topics : Ui View (Unit {0})
  unfolding update io log_error ◌>>=◌
  fetch_available_topics =
      try_catch
        (do topics ← io get_available_topics; update (λ v. record v { available_topics = topics }))
        (λ e. io (log_error "Error fetching available topics:"))

  -- `fetchData` of the effect
  unfoldable pub fetch_data : Ui View (Unit {0})
  unfolding fetch_agents set_loading show_notification both
  fetch_data = if agent_id == "" then (do set_loading true; fetch_agents; set_loading false) else do
    set_loading true
    try_finally
        (try_catch
          (do
            ((agents, agent), (assigned, available)) ←
                both (both (io get_all_agents) (io (get_agent_by_id agent_id)))
                  (both (io (get_agent_topics agent_id)) (io get_available_topics))
            update (λ v. record v { agents = agents })
            update (λ v. record v { agent = agent })
            update (λ v. record v { assigned_topics = assigned })
            update (λ v. record v { available_topics = available }))
          (λ e. do
            io (log_error "Error fetching data:")
            show_notification "Error" "Failed to load data" error))
        (set_loading false)

abbrev pub found_name : Option Value → Value
found_name none = undefined
found_name (some t) = get? "name" t

-- `topics.find(t => t.id === topicId)?.name`, printed
abbrev pub topic_name_of : String → List Value → String
topic_name_of topic_id topics =
    text (found_name (find (λ t. is_text (get? "id" t) topic_id) topics))

unfoldable pub handle_select_agent : String → Ui View (Unit {0})
unfolding io emit
handle_select_agent id = io (emit (set_search (("id", id) ∷ [])))

-- The query goes to the tab of the agents without an agent.
unfoldable pub handle_create_agent : Query → Ui View (Unit {0})
unfolding io emit set_param delete_param
handle_create_agent query =
    io (emit (set_search (set_param "tab" "Agents" (delete_param "id" query))))

-- The available topics whose id no assigned topic has.
unfoldable pub unassigned_topics : View → List Value
unfolding same_key
unassigned_topics v =
    select (λ t. not (any (λ a. same_key (get? "id" a) (get? "id" t)) v.assigned_topics))
      v.available_topics
