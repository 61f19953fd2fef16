-- ===== src/Ui/AgentDetails/SaveSteps.antt =====
-- The steps of saving an agent: the request, the temporary agent, and the details that follow.
use agience.Base.{
  String, Bool, true, false, not, List, ◌∷◌, ◌<>◌, ◌≡◌, arith, ◌&&◌, inl, inr, refl, if◌then◌else◌,
}
use agience.Js.Value.{Value, null, text, truthy, get?}
use agience.Js.Exec.{Result, ok, thrown, Result-cases}
use agience.World.{World}
use agience.Client.{get_call}
use agience.Trace.{sent}
use agience.Services.Calls.{sent-get_agent_by_id}
use agience.Services.Agents.{create_agent, update_agent, get_all_agents, get_agent_by_id}
use agience.Ui.{Mounted, Kind, success, error, opened}
use agience.Ui.AgentDetails.{View, fetch_agent_details, form_of}
use agience.Ui.AgentDetails.Saving.{clear_temp, save_agent}

abbrev pub refreshed : Result (List Value) → List Value → List Value
refreshed (ok agents) old = agents
refreshed (thrown e) old = old

abbrev pub shown : Result Value → Value → Value
shown (ok agent) old = agent
shown (thrown e) old = old

abbrev pub reported_kind : Result (List Value) → Kind
reported_kind (ok agents) = success
reported_kind (thrown e) = error

-- What the details of an agent change, however they were fetched.
pub fetch_agent_details-run :
    (id : String) (m : Mounted View)
    → fetch_agent_details id m ≡ (
      ok tt,
      record m {
        world = (fetch_agent_details id m).1.world;
        view = record m.view {
          selected_agent = shown (get_agent_by_id id m.world).0 m.view.selected_agent;
          form_data = (fetch_agent_details id m).1.view.form_data;
        };
      },
    )
unfolding fetch_agent_details
fetch_agent_details-run id m = elim (Result-cases (get_agent_by_id id m.world).0) [
  | inr (e, failed) ↦ rw failed refl
  | inl (agent, fetched) ↦ elim (Result-cases (form_of agent)) [
    | inl (form, formed) ↦ rw (fetched, formed) refl
    | inr (e, formless) ↦ rw (fetched, formless) refl
  ]
]

pub sent-fetch_agent_details :
    (id : String) (m : Mounted View)
    → sent (fetch_agent_details id m).1.world ≡ get_call ("/manage/agent/" <> id) ∷ sent m.world
unfolding fetch_agent_details
sent-fetch_agent_details id m = elim (Result-cases (get_agent_by_id id m.world).0) [
  | inr (e, failed) ↦ rw failed (sent-get_agent_by_id id m.world)
  | inl (agent, fetched) ↦ elim (Result-cases (form_of agent)) [
    | inl (form, formed) ↦ rw (fetched, formed) (sent-get_agent_by_id id m.world)
    | inr (e, formless) ↦ rw (fetched, formless) (sent-get_agent_by_id id m.world)
  ]
]

pub clear_temp-run :
    (c : View) (m : Mounted View)
    → clear_temp c m ≡ (
      ok tt,
      record m {
        view = record m.view {
          temp_agent_id = if truthy c.temp_agent_id then null else m.view.temp_agent_id;
        };
      },
    )
unfolding clear_temp
clear_temp-run c m = ground arith

abbrev pub updates : View → Bool
updates c = truthy c.selected_agent && not (truthy c.temp_agent_id)

abbrev pub success_text : Bool → String
success_text true = "Agent updated successfully"
success_text false = "Agent created successfully"

module _ (c : View) (m : Mounted View) where
  abbrev pub request : Bool → Result Value × World
  request true = update_agent (text (get? "id" c.selected_agent)) c.form_data m.world
  request false = create_agent c.form_data m.world

  abbrev pub listed : Bool → Result (List Value) × World
  listed b = get_all_agents (request b).1

  abbrev pub notified : Bool → Result Value → Mounted View
  notified b (thrown e) = record m {
    world = (request b).1;
    view = record m.view { is_loading = true };
  }
  notified b (ok saved) = record m {
    world = (request b).1;
    view = record m.view {
      is_loading = true;
      notification = opened "Success" (success_text b) success;
    };
  }

  abbrev pub loading : Mounted View
  loading = record m { view = record m.view { is_loading = true } }

  pub save_agent-run :
      (b : Bool) → updates c ≡ b → save_agent c loading ≡ ((request b).0, notified b (request b).0)
  unfolding save_agent
  save_agent-run true h = elim (Result-cases (request true).0) [
    | inl (saved, answer) ↦ rw (h, answer) refl
    | inr (e, failed) ↦ rw (h, failed) refl
  ]
  save_agent-run false h = elim (Result-cases (request false).0) [
    | inl (saved, answer) ↦ rw (h, answer) refl
    | inr (e, failed) ↦ rw (h, failed) refl
  ]
