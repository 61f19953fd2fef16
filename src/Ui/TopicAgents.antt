-- ===== src/Ui/TopicAgents.antt =====
-- authority/manage-ui/src/components/topics/TopicAgentsTab.tsx
pub mod Toggling
use agience.Base.{String, Bool, true, false, none, List, [], ◌∷◌, ◌==◌, if◌then◌else◌}
use agience.Js.Value.{
  Value, undefined, null, bool, num, str, arr, obj, get, is_text, array, elements,
}
use agience.Js.Exec.{Exn, Result, ok, thrown, pure, lift, try_catch, try_finally, both, ◌>>=◌, ◌>>◌}
use agience.World.{log_error}
use agience.Ui.{Ui, update, io}
use agience.Js.Value.{cannot_read}
use agience.Services.Topics.{get_topic_by_id}
use agience.Services.Agents.{get_all_agents}
use agience.Services.AgentTopics.{get_topic_agents, add_topic_to_agent, remove_topic_from_agent}

-- The assigned agents are what the service returns, which may be no array.
pub record View : Type 0 where
  pub topic : Value
  pub assigned_agents : Value
  pub available_agents : List Value
  pub is_loading : Bool

abbrev pub initial : View
initial = record {
  topic = null;
  assigned_agents = array [];
  available_agents = [];
  is_loading = true;
}

unfoldable pub set_loading : Bool → Ui View (Unit {0})
unfolding update
set_loading b = update λ v. record v { is_loading = b }

unfoldable pub fetch_available_agents : Ui View (Unit {0})
unfolding update io log_error ◌>>=◌
fetch_available_agents =
    try_catch (do agents ← io get_all_agents; update (λ v. record v { available_agents = agents }))
      (λ e. io (log_error "Error fetching available agents:"))

-- The handlers of a tab for the topic `topic_id`, which is empty if none is selected.
module _ (topic_id : String) where
  unfoldable pub fetch_topic_details : Ui View (Unit {0})
  unfolding update io log_error ◌>>=◌
  fetch_topic_details =
      if topic_id == ""
      then pure tt
      else try_catch
          (do
            topic_data ← io (get_topic_by_id topic_id)
            update (λ v. record v { topic = topic_data }))
          (λ e. io (log_error "Error fetching topic details:"))

  unfoldable pub fetch_assigned_agents : Ui View (Unit {0})
  unfolding update io log_error ◌>>=◌
  fetch_assigned_agents =
      if topic_id == ""
      then pure tt
      else try_catch
          (do
            agents ← io (get_topic_agents topic_id)
            update (λ v. record v { assigned_agents = agents }))
          (λ e. io (log_error "Error fetching assigned agents:"))

  unfoldable pub fetch_data : Ui View (Unit {0})
  unfolding fetch_topic_details fetch_assigned_agents fetch_available_agents set_loading both
  fetch_data = do
    set_loading true
    both (both fetch_topic_details fetch_assigned_agents) fetch_available_agents
    set_loading false

abbrev pub not_a_function : Exn
not_a_function = record {
  name = "TypeError";
  message = "assignedAgents.some is not a function";
  status = none;
}

-- The same of the elements of an array. It throws at one that is `null`, if it comes so far.
unfoldable pub some_agent : String → List Value → Result Bool
unfolding get is_text
some_agent agent_id [] = ok false
some_agent agent_id (a ∷ agents) =
    let rest = some_agent agent_id agents in
    elim (get "id" a) [
      | ok id ↦ if is_text id agent_id then ok true else rest
      | thrown e ↦ thrown e
    ]

-- `assignedAgents.some(a => a.id === agentId)`
unfoldable pub has_agent : Value → String → Result Bool
unfolding some_agent
has_agent (arr agents) agent_id = some_agent agent_id (elements agents)
has_agent undefined agent_id = thrown (cannot_read "undefined" "some")
has_agent null agent_id = thrown (cannot_read "null" "some")
has_agent (bool _) agent_id = thrown not_a_function
has_agent (num _) agent_id = thrown not_a_function
has_agent (str _) agent_id = thrown not_a_function
has_agent (obj _) agent_id = thrown not_a_function

-- The request that toggles an agent.
unfoldable pub toggle : String → String → Bool → Ui View (Unit {0})
unfolding io ◌>>=◌
toggle topic_id agent_id true = do io (remove_topic_from_agent agent_id topic_id); pure tt
toggle topic_id agent_id false = do io (add_topic_to_agent agent_id topic_id); pure tt

-- The handler that a render of the state `c` has made.
module _ (topic_id : String) (c : View) where
  unfoldable pub handle_toggle_agent : String → Ui View (Unit {0})
  unfolding fetch_assigned_agents set_loading toggle has_agent
  handle_toggle_agent agent_id = if topic_id == "" then pure tt else do
    set_loading true
    try_finally
        (try_catch
          (do
            is_assigned ← lift (has_agent c.assigned_agents agent_id)
            toggle topic_id agent_id is_assigned
            fetch_assigned_agents topic_id)
          (λ e. io (log_error "Error toggling agent:")))
        (set_loading false)
