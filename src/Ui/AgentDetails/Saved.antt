-- ===== src/Ui/AgentDetails/Saved.antt =====
-- Saving an agent, whether it is new or not: what becomes of the list and the selection.
use agience.Base.{
  String, Bool, true, false, ◌∷◌, ◌<>◌, ◌≡◌, arith, ◌⊎◌, inl, inr, refl, ap, ◌∙◌, if◌then◌else◌,
}
use agience.Js.Value.{Value, null, text, truthy, get}
use agience.Js.Blank.{lacks_text}
use agience.Js.Exec.{Exn, ok, thrown, Result-cases}
use agience.Client.{get_call}
use agience.Trace.{sent}
use agience.Services.Agents.{get_agent_by_id}
use agience.Ui.{Mounted, Notification, success, error, opened}
use agience.Ui.AgentDetails.{View}
use agience.Ui.AgentDetails.Saving.{save_error, handle_save}
use agience.Ui.AgentDetails.SaveRequests.{requested, unnamed_requested}
use agience.Ui.AgentDetails.SaveSteps.{
  refreshed, shown, reported_kind, fetch_agent_details-run, clear_temp-run, updates, request,
  listed, success_text, save_agent-run,
}

module _ (c : View) (m : Mounted View) where
  -- Nothing has been saved, and only the notification says so.
  record Refused : Type 0 where
    selected : (handle_save c m).1.view.selected_agent ≡ m.view.selected_agent
    temp : (handle_save c m).1.view.temp_agent_id ≡ m.view.temp_agent_id
    form : (handle_save c m).1.view.form_data ≡ m.view.form_data
    agents : (handle_save c m).1.view.agents ≡ m.view.agents
    reported : (handle_save c m).1.view.notification.kind ≡ error

  -- The request that saves has been sent, and nothing after it, and it was not answered.
  record Unanswered (b : Bool) : Type 0 where
    cause : Exn
    failed : (request c m b).0 ≡ thrown cause
    asked : sent (handle_save c m).1.world ≡ sent (request c m b).1

  -- The server has answered the request with an agent.
  record Succeeds (b : Bool) : Type 0 where
    saved : Value
    id : Value
    answer : (request c m b).0 ≡ ok saved
    named : get "id" saved ≡ ok id
    selected :
        (handle_save c m).1.view.selected_agent
        ≡ shown (get_agent_by_id (text id) (listed c m b).1).0 m.view.selected_agent
    temp :
        (handle_save c m).1.view.temp_agent_id
        ≡ (if truthy c.temp_agent_id then null else m.view.temp_agent_id)
    agents : (handle_save c m).1.view.agents ≡ refreshed (listed c m b).0 m.view.agents
    reported : (handle_save c m).1.view.notification.kind ≡ reported_kind (listed c m b).0
    requests :
        sent (handle_save c m).1.world
        ≡ get_call ("/manage/agent/" <> text id)
          ∷ get_call "/manage/agents"
          ∷ sent (request c m b).1

  -- The server has answered with what has no properties.
  record Unnamed (b : Bool) : Type 0 where
    saved : Value
    cause : Exn
    answer : (request c m b).0 ≡ ok saved
    unnamed : get "id" saved ≡ thrown cause
    selected : (handle_save c m).1.view.selected_agent ≡ m.view.selected_agent
    agents : (handle_save c m).1.view.agents ≡ m.view.agents
    reported : (handle_save c m).1.view.notification.kind ≡ error
    requests : sent (handle_save c m).1.world ≡ get_call "/manage/agents" ∷ sent (request c m b).1

  -- The state after a save that has only reported an error.
  refuses :
      (message : String)
      → (handle_save c m).1.view
        ≡ record m.view { is_loading = false; notification = opened "Error" message error }
      → Refused
  refuses message e = record {
    selected = ap (λ v. v.selected_agent) e;
    temp = ap (λ v. v.temp_agent_id) e;
    form = ap (λ v. v.form_data) e;
    agents = ap (λ v. v.agents) e;
    reported = ap (λ v. v.notification.kind) e;
  }

  abbrev cleared : Value
  cleared = if truthy c.temp_agent_id then null else m.view.temp_agent_id

  -- The state after a save whose answer has an id.
  abbrev saved_view : Bool → Value → Notification → View
  saved_view b id n = record m.view {
    agents = refreshed (listed c m b).0 m.view.agents;
    selected_agent = shown (get_agent_by_id (text id) (listed c m b).1).0 m.view.selected_agent;
    is_loading = false;
    temp_agent_id = cleared;
    form_data = (handle_save c m).1.view.form_data;
    notification = n;
  }

  module _ (name : Value) (given : get "name" c.form_data ≡ ok name) where
    refused_blank : lacks_text name ≡ ok true → Refused
    unfolding handle_save
    refused_blank blank = refuses "Agent name is required" (rw (given, blank) refl)

    module _ (filled : lacks_text name ≡ ok false) (b : Bool) (h : updates c ≡ b) where
      refused : (e : Exn) → (request c m b).0 ≡ thrown e → Refused
      unfolding handle_save
      refused e failed =
          refuses (save_error e.message) (rw (given, filled, save_agent-run c m b h, failed) refl)

      unanswered : (e : Exn) → (request c m b).0 ≡ thrown e → Unanswered b
      unfolding handle_save
      unanswered e failed = record {
        cause = e;
        failed = failed;
        asked = rw (given, filled, save_agent-run c m b h, failed) refl;
      }

      module _ (saved : Value) (answer : (request c m b).0 ≡ ok saved) where
        module _ (id : Value) (named : get "id" saved ≡ ok id) where
          saves :
              (n : Notification)
              → n.kind ≡ reported_kind (listed c m b).0
              → (handle_save c m).1.view ≡ saved_view b id n
              → Succeeds b
          saves n k e = record {
            saved = saved;
            id = id;
            answer = answer;
            named = named;
            selected = ap (λ v. v.selected_agent) e;
            temp = ap (λ v. v.temp_agent_id) e;
            agents = ap (λ v. v.agents) e;
            reported = ap (λ v. v.notification.kind) e ∙ k;
            requests = requested c m name given filled b h saved answer id named;
          }

          succeeds : Succeeds b
          unfolding handle_save
          succeeds = elim (Result-cases (listed c m b).0) [
            | inl (agents, fetched) ↦
                saves (opened "Success" (success_text b) success) (rw fetched refl) (
                  rw
                    (
                      given,
                      filled,
                      save_agent-run c m b h,
                      answer,
                      clear_temp-run,
                      named,
                      fetched,
                      fetch_agent_details-run,
                    )
                    refl)
            | inr (e, failed) ↦
                saves (opened "Error" (save_error e.message) error) (rw failed refl) (
                  rw
                    (
                      given,
                      filled,
                      save_agent-run c m b h,
                      answer,
                      clear_temp-run,
                      named,
                      failed,
                      fetch_agent_details-run,
                    )
                    refl)
          ]

        module _ (e : Exn) (unnamed : get "id" saved ≡ thrown e) where
          unnamed_view : (handle_save c m).1.view ≡ record m.view {
            is_loading = false;
            temp_agent_id = cleared;
            notification = opened "Error" (save_error e.message) error;
          }
          unfolding handle_save
          unnamed_view = elim (Result-cases (listed c m b).0) [
            | inl (agents, fetched) ↦
                rw (given, filled, save_agent-run c m b h, answer, clear_temp-run, unnamed, fetched)
                  refl
            | inr (x, failed) ↦
                rw (given, filled, save_agent-run c m b h, answer, clear_temp-run, unnamed, failed)
                  refl
          ]

          unnamed_answer : Unnamed b
          unnamed_answer = record {
            saved = saved;
            cause = e;
            answer = answer;
            unnamed = unnamed;
            selected = ap (λ v. v.selected_agent) unnamed_view;
            agents = ap (λ v. v.agents) unnamed_view;
            reported = ap (λ v. v.notification.kind) unnamed_view;
            requests = unnamed_requested c m name given filled b h saved answer e unnamed;
          }

      answered : Succeeds b ⊎ (Unnamed b ⊎ (Refused × Unanswered b))
      answered = elim (Result-cases (request c m b).0) [
        | inr (e, failed) ↦ inr (inr (refused e failed, unanswered e failed))
        | inl (saved, answer) ↦ elim (Result-cases (get "id" saved)) [
          | inl (id, named) ↦ inl (succeeds saved answer id named)
          | inr (e, unnamed) ↦ inr (inl (unnamed_answer saved answer e unnamed))
        ]
      ]

  handle_save_ends : ((handle_save c m).0 ≡ ok tt) × ((handle_save c m).1.view.is_loading ≡ false)
  unfolding handle_save
  handle_save_ends = (ground arith, ground arith)

  -- The outcome of a save whose name is blank, or is not.
  abbrev Outcome : Bool → Type 0
  Outcome true = Refused × (sent (handle_save c m).1.world ≡ sent m.world)
  Outcome false = Succeeds (updates c) ⊎ (Unnamed (updates c) ⊎ (Refused × Unanswered (updates c)))

  pub record Saved (blank : Bool) : Type 0 where
    returns : (handle_save c m).0 ≡ ok tt
    idle : (handle_save c m).1.view.is_loading ≡ false
    outcome : Outcome blank

  unsent :
      (name : Value)
      → get "name" c.form_data ≡ ok name
      → lacks_text name ≡ ok true
      → sent (handle_save c m).1.world ≡ sent m.world
  unfolding handle_save
  unsent name given blank = rw (given, blank) refl

  -- Saving an agent whose form has a text for a name returns, and the tab is no longer loading.
  -- With a blank name nothing is sent and only an error is shown. Otherwise the selected agent is
  -- updated, or a new one is created where none is selected or the selected one is temporary. If
  -- there is an answer, the agents are asked for, and then the agent if the answer has properties. If
  -- the server answers with an agent, there is no temporary agent left, the agent that the server
  -- has under the id is selected, unless it cannot be fetched, and the list is what was fetched, or
  -- as it was where that failed and an error is shown. If its answer has no properties, the list
  -- and the selection are as they were and an error is shown. If the request is not answered, nothing
  -- is sent after it and only an error is shown.
  pub handle_save-Saved :
      (name : Value) (blank : Bool)
      → get "name" c.form_data ≡ ok name
      → lacks_text name ≡ ok blank
      → Saved blank
  handle_save-Saved name true given blank = record {
    returns = handle_save_ends.0;
    idle = handle_save_ends.1;
    outcome = (refused_blank name given blank, unsent name given blank);
  }
  handle_save-Saved name false given filled = record {
    returns = handle_save_ends.0;
    idle = handle_save_ends.1;
    outcome = answered name given filled (updates c) refl;
  }
