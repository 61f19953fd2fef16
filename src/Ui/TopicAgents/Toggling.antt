-- ===== src/Ui/TopicAgents/Toggling.antt =====
-- Toggling an agent of a topic.
use agience.Base.{String, Bool, true, false, ◌∷◌, ◌<>◌, ◌≡◌, ◌⊎◌}
use agience.Js.Value.{Value, undefined}
use agience.Js.Exec.{Exn, Result, ok, thrown}
use agience.World.{Call}
use agience.Client.{get_call, post_call, delete_call}
use agience.Trace.{sent}
use agience.Services.AgentTopics.{get_topic_agents}
use agience.Ui.{Mounted}
use agience.Ui.TopicAgents.{View, toggle, handle_toggle_agent}

-- The request that toggling sends first: a removal if the agent is assigned.
abbrev toggling_call : String → String → Bool → Call
toggling_call topic_id agent_id true =
    delete_call ("/manage/agent/" <> agent_id <> "/topic/" <> topic_id)
toggling_call topic_id agent_id false =
    post_call ("/manage/agent/" <> agent_id <> "/topic/" <> topic_id) undefined

-- The list after it has been fetched again: a failure leaves it.
abbrev refreshed : Result Value → Value → Value
refreshed (ok agents) old = agents
refreshed (thrown e) old = old

module _ (topic_id agent_id : String) (c : View) (m : Mounted View) where
  -- The state in which the request is sent.
  abbrev toggled : Bool → Result (Unit {0}) × Mounted View
  toggled b = toggle topic_id agent_id b (record m { view = record m.view { is_loading = true } })

  record Succeeds (b : Bool) : Type 0 where
    answer : (toggled b).0 ≡ ok tt
    requests :
        sent (handle_toggle_agent topic_id c agent_id m).1.world
        ≡ get_call ("/manage/topic/" <> topic_id <> "/agents")
          ∷ toggling_call topic_id agent_id b
          ∷ sent m.world
    agents :
        (handle_toggle_agent topic_id c agent_id m).1.view.assigned_agents
        ≡ refreshed (get_topic_agents topic_id (toggled b).1.world).0 m.view.assigned_agents

  record Fails (b : Bool) : Type 0 where
    answer : (cause : Exn) × ((toggled b).0 ≡ thrown cause)
    requests :
        sent (handle_toggle_agent topic_id c agent_id m).1.world
        ≡ toggling_call topic_id agent_id b ∷ sent m.world
    agents :
        (handle_toggle_agent topic_id c agent_id m).1.view.assigned_agents ≡ m.view.assigned_agents

  pub record Toggled (b : Bool) : Type 0 where
    returns : (handle_toggle_agent topic_id c agent_id m).0 ≡ ok tt
    idle : (handle_toggle_agent topic_id c agent_id m).1.view.is_loading ≡ false
    outcome : Succeeds b ⊎ Fails b
