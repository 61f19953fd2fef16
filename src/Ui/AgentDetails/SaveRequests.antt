-- ===== src/Ui/AgentDetails/SaveRequests.antt =====
-- The requests of a save that the server has answered.
use agience.Base.{Bool, false, ◌∷◌, ◌<>◌, ◌≡◌, inl, inr, ap, ◌∙◌}
use agience.Js.Value.{Value, text, get}
use agience.Js.Blank.{lacks_text}
use agience.Js.Exec.{Exn, ok, thrown, Result-cases}
use agience.Client.{get_call}
use agience.Trace.{sent}
use agience.Services.Calls.{sent-get_all_agents}
use agience.Ui.{Mounted}
use agience.Ui.AgentDetails.{View}
use agience.Ui.AgentDetails.Saving.{handle_save}
use agience.Ui.AgentDetails.SaveSteps.{
  fetch_agent_details-run, sent-fetch_agent_details, clear_temp-run, updates, request, listed,
  save_agent-run,
}

module _ (c : View) (m : Mounted View) (name : Value) (given : get "name" c.form_data ≡ ok name)
    (filled : lacks_text name ≡ ok false) (b : Bool) (h : updates c ≡ b) (saved : Value)
    (answer : (request c m b).0 ≡ ok saved) where
  module _ (id : Value) (named : get "id" saved ≡ ok id) where
    pub requested :
        sent (handle_save c m).1.world
        ≡ get_call ("/manage/agent/" <> text id)
          ∷ get_call "/manage/agents"
          ∷ sent (request c m b).1
    unfolding handle_save
    requested = elim (Result-cases (listed c m b).0) [
      | inl (agents, fetched) ↦
          rw
            (
              given,
              filled,
              save_agent-run c m b h,
              answer,
              clear_temp-run,
              named,
              fetched,
              fetch_agent_details-run,
            )
            (sent-fetch_agent_details (text id) _
              ∙ ap (λ l. get_call ("/manage/agent/" <> text id) ∷ l)
                  (sent-get_all_agents (request c m b).1))
      | inr (e, failed) ↦
          rw
            (
              given,
              filled,
              save_agent-run c m b h,
              answer,
              clear_temp-run,
              named,
              failed,
              fetch_agent_details-run,
            )
            (sent-fetch_agent_details (text id) _
              ∙ ap (λ l. get_call ("/manage/agent/" <> text id) ∷ l)
                  (sent-get_all_agents (request c m b).1))
    ]

  module _ (e : Exn) (unnamed : get "id" saved ≡ thrown e) where
    pub unnamed_requested :
        sent (handle_save c m).1.world ≡ get_call "/manage/agents" ∷ sent (request c m b).1
    unfolding handle_save
    unnamed_requested = elim (Result-cases (listed c m b).0) [
      | inl (agents, fetched) ↦
          rw (given, filled, save_agent-run c m b h, answer, clear_temp-run, unnamed, fetched)
            (sent-get_all_agents (request c m b).1)
      | inr (x, failed) ↦
          rw (given, filled, save_agent-run c m b h, answer, clear_temp-run, unnamed, failed)
            (sent-get_all_agents (request c m b).1)
    ]
