-- ===== src/Ui/AgentTopics/Removal.antt =====
-- Removing a topic from an agent, from the confirmation to the notification.
use agience.Base.{String, false, List, ◌∷◌, ◌<>◌, ◌==◌, ◌≡◌, arith, ◌⊎◌, inl, inr}
use agience.Js.Value.{Value}
use agience.Js.Exec.{Exn, Result, ok, thrown, Result-cases}
use agience.Client.{get_call, delete_call}
use agience.Trace.{sent}
use agience.Services.AgentTopics.{get_agent_topics, remove_topic_from_agent}
use agience.Services.Calls.{sent-get_agent_topics, sent-remove_topic_from_agent}
use agience.Ui.{Mounted, success, error}
use agience.Ui.AgentTopics.{View}
use agience.Ui.AgentTopics.Handlers.{handle_remove_topic}

-- A list after it has been fetched again: a failure leaves it.
abbrev refreshed : Result (List Value) → List Value → List Value
refreshed (ok topics) old = topics
refreshed (thrown e) old = old

module _ (agent_id : String) (c : View) (m : Mounted View) where
  record Succeeds : Type 0 where
    removed : Value
    answer : (remove_topic_from_agent agent_id c.confirmation.topic_id m.world).0 ≡ ok removed
    reported : (handle_remove_topic agent_id c m).1.view.notification.kind ≡ success
    requests :
        sent (handle_remove_topic agent_id c m).1.world
        ≡ get_call ("/manage/agent/" <> agent_id <> "/topics")
          ∷ delete_call ("/manage/agent/" <> agent_id <> "/topic/" <> c.confirmation.topic_id)
          ∷ sent m.world
    topics :
        (handle_remove_topic agent_id c m).1.view.assigned_topics
        ≡ refreshed
            (get_agent_topics agent_id
              (remove_topic_from_agent agent_id c.confirmation.topic_id m.world).1).0
            m.view.assigned_topics

  record Fails : Type 0 where
    cause : Exn
    answer : (remove_topic_from_agent agent_id c.confirmation.topic_id m.world).0 ≡ thrown cause
    reported : (handle_remove_topic agent_id c m).1.view.notification.kind ≡ error
    requests :
        sent (handle_remove_topic agent_id c m).1.world
        ≡ delete_call ("/manage/agent/" <> agent_id <> "/topic/" <> c.confirmation.topic_id)
          ∷ sent m.world
    topics : (handle_remove_topic agent_id c m).1.view.assigned_topics ≡ m.view.assigned_topics

  pub record Removed : Type 0 where
    returns : (handle_remove_topic agent_id c m).0 ≡ ok tt
    idle : (handle_remove_topic agent_id c m).1.view.is_loading ≡ false
    closed : (handle_remove_topic agent_id c m).1.view.confirmation.is_open ≡ false
    outcome : Succeeds ⊎ Fails

  handle_remove_topic-Succeeds :
      (v : Value)
      → (agent_id == "") ≡ false
      → (c.confirmation.topic_id == "") ≡ false
      → (remove_topic_from_agent agent_id c.confirmation.topic_id m.world).0 ≡ ok v
      → Succeeds
  unfolding handle_remove_topic
  handle_remove_topic-Succeeds v h k answer =
      let w' = (remove_topic_from_agent agent_id c.confirmation.topic_id m.world).1 in
      record {
        removed = v;
        answer = answer;
        reported = ground arith;
        requests = ground (
          arith,
          sent-remove_topic_from_agent agent_id c.confirmation.topic_id m.world,
          sent-get_agent_topics agent_id w',
        );
        topics = ground arith;
      }

  handle_remove_topic-Fails :
      (e : Exn)
      → (agent_id == "") ≡ false
      → (c.confirmation.topic_id == "") ≡ false
      → (remove_topic_from_agent agent_id c.confirmation.topic_id m.world).0 ≡ thrown e
      → Fails
  unfolding handle_remove_topic
  handle_remove_topic-Fails e h k answer = record {
    cause = e;
    answer = answer;
    reported = ground arith;
    requests =
        ground (arith, sent-remove_topic_from_agent agent_id c.confirmation.topic_id m.world);
    topics = ground arith;
  }

  -- With an agent and a topic to remove, the handler returns, the tab is no longer loading and the
  -- confirmation is closed. Either the server has removed the topic: then exactly that request and
  -- one for the agent's topics have been sent, the list is what that fetched, or as it was where it
  -- failed, and a success is reported. Or the removal failed: then no other request has been sent,
  -- the list is as it was, and an error is reported.
  pub handle_remove_topic-Removed :
      (agent_id == "") ≡ false → (c.confirmation.topic_id == "") ≡ false → Removed
  unfolding handle_remove_topic
  handle_remove_topic-Removed h k = record {
    returns = ground arith;
    idle = ground arith;
    closed = ground arith;
    outcome =
        elim (Result-cases (remove_topic_from_agent agent_id c.confirmation.topic_id m.world).0) [
          | inl (v, answer) ↦ inl (handle_remove_topic-Succeeds v h k answer)
          | inr (e, answer) ↦ inr (handle_remove_topic-Fails e h k answer)
        ];
  }
