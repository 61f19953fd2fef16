-- ===== src/Ui/AgentTopics/Saving.antt =====
-- Saving a topic from the tab of an agent.
use agience.Base.{String, List, ◌∷◌, ◌<>◌, ◌==◌, ◌≡◌, arith, if◌then◌else◌, Bool-cases, inl, inr}
use agience.Js.Value.{Value, get}
use agience.Js.Exec.{ok, Result-cases}
use agience.World.{Call, log_error}
use agience.Client.{get_call}
use agience.Trace.{sent}
use agience.Services.AgentTopics.{get_available_topics}
use agience.Services.Calls.{sent-get_agent_topics, sent-get_available_topics}
use agience.Ui.{Mounted, success}
use agience.Ui.AgentTopics.{View}
use agience.Ui.AgentTopics.Handlers.{handle_save_topic}

-- The requests that fetch the lists of the tab again.
abbrev refreshes : String → List Call → List Call
refreshes agent_id earlier =
    if agent_id == ""
    then get_call "/manage/topics" ∷ earlier
    else get_call ("/manage/agent/" <> agent_id <> "/topics") ∷ get_call "/manage/topics" ∷ earlier

pub record Saved (agent_id : String) (c : View) (topic_data : Value) (m : Mounted View)
    : Type 0 where
  returns : (handle_save_topic agent_id c topic_data m).0 ≡ ok tt
  reported : (handle_save_topic agent_id c topic_data m).1.view.notification.kind ≡ success
  requests :
      sent (handle_save_topic agent_id c topic_data m).1.world ≡ refreshes agent_id (sent m.world)

-- For a form with a name, saving a topic sends only the GET requests that refresh the tab's lists,
-- so no request that could create the topic, and reports a success whatever the server answers.
pub handle_save_topic-Saved :
    (agent_id : String) (c : View) (topic_data name : Value) (m : Mounted View)
    → get "name" topic_data ≡ ok name
    → Saved agent_id c topic_data m
unfolding handle_save_topic
handle_save_topic-Saved agent_id c topic_data name m named = elim (Bool-cases (agent_id == "")) [
  | inl none_selected ↦ record {
    returns = ground arith;
    reported = ground arith;
    requests = rw (named, none_selected) (ground (arith, sent-get_available_topics m.world));
  }
  | inr selected ↦ record {
    returns = ground arith;
    reported = ground arith;
    requests = elim (Result-cases (get_available_topics m.world).0) [
      | inl (topics, answer) ↦
          rw (named, selected, answer)
            (ground (
              arith,
              sent-get_available_topics m.world,
              sent-get_agent_topics agent_id (get_available_topics m.world).1,
            ))
      | inr (e, answer) ↦
          let logged =
            (log_error "Error fetching available topics:" (get_available_topics m.world).1).1 in
          rw (named, selected, answer)
            (ground
              (arith, sent-get_available_topics m.world, sent-get_agent_topics agent_id logged))
    ];
  }
]
