-- ===== src/Ui/AgentDetails/Deleted.antt =====
-- Deleting an agent: what is warned of, what is sent, and what becomes of the state.
use agience.Base.{true, false, List, ◌≡◌, arith, ◌⊎◌, inl, inr, refl, [], ◌∷◌}
use agience.Js.Value.{Value, null, text, truthy, get?}
use agience.Js.Exec.{Exn, Result, ok, thrown, Result-cases}
use agience.World.{World, set_search}
use agience.Client.{get_call}
use agience.Trace.{sent}
use agience.Services.Calls.{sent-get_all_agents}
use agience.Services.Agents.{delete_agent, get_all_agents}
use agience.Ui.{Mounted, Notification, success, error}
use agience.Ui.AgentDetails.{View, empty_form}
use agience.Ui.AgentDetails.Deleting.{warn, handle_confirm_delete}
use agience.Ui.AgentDetails.Warning.{
  Warned, Unreadable, loading, notified, the_warning, warn_cases, Bare-readable, Warns-readable,
}

-- A list after it has been fetched again.
abbrev refreshed : Result (List Value) → List Value → List Value
refreshed (ok agents) old = agents
refreshed (thrown e) old = old

module _ (c : View) (m : Mounted View) where
  abbrev deletion : Result (Unit {0}) × World
  deletion = delete_agent (text (get? "id" c.selected_agent)) m.world

  -- The world after the address has lost its query.
  abbrev cleared : World → World
  cleared w = record w { history = set_search [] ∷ w.history }

  record Succeeds : Type 0 where
    readable : (e : Exn) → ¬ Unreadable c m e
    answer : deletion.0 ≡ ok tt
    unselected : (handle_confirm_delete c m).1.view.selected_agent ≡ null
    emptied : (handle_confirm_delete c m).1.view.form_data ≡ empty_form
    agents :
        (handle_confirm_delete c m).1.view.agents
        ≡ refreshed (get_all_agents (cleared deletion.1)).0 m.view.agents
    reported : (handle_confirm_delete c m).1.view.notification.kind ≡ success
    requests :
        sent (handle_confirm_delete c m).1.world ≡ get_call "/manage/agents" ∷ sent deletion.1

  record Fails : Type 0 where
    selected : (handle_confirm_delete c m).1.view.selected_agent ≡ m.view.selected_agent
    form : (handle_confirm_delete c m).1.view.form_data ≡ m.view.form_data
    agents : (handle_confirm_delete c m).1.view.agents ≡ m.view.agents
    reported : (handle_confirm_delete c m).1.view.notification.kind ≡ error
    cause :
        ((e : Exn) × (deletion.0 ≡ thrown e)
          × (sent (handle_confirm_delete c m).1.world ≡ sent deletion.1))
        ⊎ ((e : Exn) × Unreadable c m e × (sent (handle_confirm_delete c m).1.world ≡ sent m.world))

  pub record Deleted : Type 0 where
    returns : (handle_confirm_delete c m).0 ≡ ok tt
    idle : (handle_confirm_delete c m).1.view.is_loading ≡ false
    closed : (handle_confirm_delete c m).1.view.confirmation.is_open ≡ false
    warned : Warned c m
    outcome : Succeeds ⊎ Fails

  module _ (h : truthy c.selected_agent ≡ true) where
    fails_unread : (e : Exn) → Unreadable c m e → warn c (loading m) ≡ (thrown e, loading m) → Fails
    unfolding handle_confirm_delete
    fails_unread e u unread = record {
      selected = rw (h, unread) refl;
      form = rw (h, unread) refl;
      agents = rw (h, unread) refl;
      reported = rw (h, unread) refl;
      cause = inr (e, u, rw (h, unread) refl);
    }

    module _ (n : Notification) (read : warn c (loading m) ≡ (ok tt, notified m n)) where
      fails : (e : Exn) → deletion.0 ≡ thrown e → Fails
      unfolding handle_confirm_delete
      fails e answer = record {
        selected = rw (h, read, answer) refl;
        form = rw (h, read, answer) refl;
        agents = rw (h, read, answer) refl;
        reported = rw (h, read, answer) refl;
        cause = inl (e, answer, rw (h, read, answer) refl);
      }

      succeeds : ((e : Exn) → ¬ Unreadable c m e) → deletion.0 ≡ ok tt → Succeeds
      unfolding handle_confirm_delete
      succeeds readable answer = elim (Result-cases (get_all_agents (cleared deletion.1)).0) [
        | inl (agents, fetched) ↦ record {
          readable = readable;
          answer = answer;
          unselected = rw (h, read, answer, fetched) refl;
          emptied = rw (h, read, answer, fetched) refl;
          agents = rw (h, read, answer, fetched) refl;
          reported = rw (h, read, answer, fetched) refl;
          requests = rw (h, read, answer, fetched) (sent-get_all_agents (cleared deletion.1));
        }
        | inr (e, failed) ↦ record {
          readable = readable;
          answer = answer;
          unselected = rw (h, read, answer, failed) refl;
          emptied = rw (h, read, answer, failed) refl;
          agents = rw (h, read, answer, failed) refl;
          reported = rw (h, read, answer, failed) refl;
          requests = rw (h, read, answer, failed) (sent-get_all_agents (cleared deletion.1));
        }
      ]

      ends : ((e : Exn) → ¬ Unreadable c m e) → Succeeds ⊎ Fails
      ends readable = elim (Result-cases deletion.0) [
        | inl (_, answer) ↦ inl (succeeds readable answer)
        | inr (e, answer) ↦ inr (fails e answer)
      ]

    outcome : Succeeds ⊎ Fails
    outcome = elim (warn_cases c m) [
      | inl b ↦ ends m.view.notification b.unchanged (Bare-readable c m b)
      | inr (inl w) ↦ ends (the_warning w.p w.t) w.shown (Warns-readable c m w)
      | inr (inr (e, u, unread)) ↦ inr (fails_unread e u unread)
    ]

    handle_confirm_delete_ends :
        ((handle_confirm_delete c m).0 ≡ ok tt)
        × ((handle_confirm_delete c m).1.view.is_loading ≡ false)
        × ((handle_confirm_delete c m).1.view.confirmation.is_open ≡ false)
    unfolding handle_confirm_delete
    handle_confirm_delete_ends = (ground arith, ground arith, ground arith)

  -- With an agent selected, confirming its deletion returns, the tab is no longer loading and the
  -- confirmation is closed. If the agent has a plugin or a topic, the step that warns shows how
  -- many of each, unless one of the two has no length to read; if it has neither, that step changes
  -- nothing. Either all that there is to warn of could be read and the server has deleted the agent:
  -- then the agents are asked for once more, none is selected, the form is empty, the list is what
  -- was fetched, or as it was where that failed, and the last notification is a success. Or the selection, the form and the
  -- list are as they were and the last notification is an error: the service has failed, and its
  -- requests are all that were sent, or there was something to warn of that could not be read, and
  -- no request was sent.
  pub handle_confirm_delete-AgentDeleted : truthy c.selected_agent ≡ true → Deleted
  handle_confirm_delete-AgentDeleted h =
      let (returns, idle, closed) = handle_confirm_delete_ends h in
      record {
        returns = returns;
        idle = idle;
        closed = closed;
        warned = warn_cases c m;
        outcome = outcome h;
      }
