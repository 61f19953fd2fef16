-- ===== src/Ui/Connections/Deletion.antt =====
-- Deleting a connection, from the confirmation to the notification.
use agience.Base.{true, false, List, ◌∷◌, ◌<>◌, ◌≡◌, arith, ◌⊎◌, inl, inr, refl}
use agience.Js.Value.{Value, null, text, truthy}
use agience.Js.Exec.{Exn, Result, ok, thrown, Result-cases}
use agience.Client.{delete_call}
use agience.World.{World}
use agience.Trace.{sent}
use agience.Services.Connections.{delete_connection}
use agience.Services.Joined.{get_connections_with_authorizers}
use agience.Services.Calls.{sent-delete_connection}
use agience.Ui.{Mounted, Kind, success, error}
use agience.Ui.Connections.{View}
use agience.Ui.Connections.Handlers.{handle_confirm_delete}

-- The list and the kind of notification after the connections have been fetched again.
abbrev refreshed : Result (List Value) → List Value → List Value
refreshed (ok connections) old = connections
refreshed (thrown e) old = old

abbrev reported_kind : Result (List Value) → Kind
reported_kind (ok connections) = success
reported_kind (thrown e) = error

module _ (c : View) (m : Mounted View) where
  abbrev deletion : Result (Unit {0}) × World
  deletion = delete_connection (text c.confirmation.connection_id) m.world

  record Succeeds : Type 0 where
    answer : deletion.0 ≡ ok tt
    unselected : (handle_confirm_delete c m).1.view.selected_connection_id ≡ null
    forgotten : (handle_confirm_delete c m).1.view.selected_connection ≡ null
    connections :
        (handle_confirm_delete c m).1.view.connections
        ≡ refreshed (get_connections_with_authorizers deletion.1).0 m.view.connections
    reported :
        (handle_confirm_delete c m).1.view.notification.kind
        ≡ reported_kind (get_connections_with_authorizers deletion.1).0

  record Fails : Type 0 where
    answer : (cause : Exn) × (deletion.0 ≡ thrown cause)
    selected :
        (handle_confirm_delete c m).1.view.selected_connection_id ≡ m.view.selected_connection_id
    kept : (handle_confirm_delete c m).1.view.selected_connection ≡ m.view.selected_connection
    connections : (handle_confirm_delete c m).1.view.connections ≡ m.view.connections
    requests :
        sent (handle_confirm_delete c m).1.world
        ≡ delete_call ("/manage/connection/" <> text c.confirmation.connection_id) ∷ sent m.world
    reported : (handle_confirm_delete c m).1.view.notification.kind ≡ error

  pub record Deleted : Type 0 where
    returns : (handle_confirm_delete c m).0 ≡ ok tt
    idle : (handle_confirm_delete c m).1.view.is_loading ≡ false
    closed : (handle_confirm_delete c m).1.view.confirmation.is_open ≡ false
    outcome : Succeeds ⊎ Fails

  succeeds : truthy c.confirmation.connection_id ≡ true → deletion.0 ≡ ok tt → Succeeds
  unfolding handle_confirm_delete
  succeeds h answer = elim (Result-cases (get_connections_with_authorizers deletion.1).0) [
    | inl (cs, fetched) ↦ record {
      answer = answer;
      unselected = rw (h, answer, fetched) refl;
      forgotten = rw (h, answer, fetched) refl;
      connections = rw (h, answer, fetched) refl;
      reported = rw (h, answer, fetched) refl;
    }
    | inr (e, failed) ↦ record {
      answer = answer;
      unselected = rw (h, answer, failed) refl;
      forgotten = rw (h, answer, failed) refl;
      connections = rw (h, answer, failed) refl;
      reported = rw (h, answer, failed) refl;
    }
  ]

  fails : (e : Exn) → truthy c.confirmation.connection_id ≡ true → deletion.0 ≡ thrown e → Fails
  unfolding handle_confirm_delete
  fails e h answer = record {
    answer = (e, answer);
    selected = rw (h, answer) refl;
    kept = rw (h, answer) refl;
    connections = rw (h, answer) refl;
    requests = rw (h, answer) (sent-delete_connection (text c.confirmation.connection_id) m.world);
    reported = rw (h, answer) refl;
  }

  handle_confirm_delete_ends :
      truthy c.confirmation.connection_id ≡ true
      → ((handle_confirm_delete c m).0 ≡ ok tt)
        × ((handle_confirm_delete c m).1.view.is_loading ≡ false)
        × ((handle_confirm_delete c m).1.view.confirmation.is_open ≡ false)
  unfolding handle_confirm_delete
  handle_confirm_delete_ends h = (ground arith, ground arith, ground arith)

  -- With a connection to delete, the handler returns, the tab is no longer loading and the
  -- confirmation is closed. Either the server has deleted it: then nothing is selected, the list is
  -- what was fetched afterwards, or as it was where that failed, and the notification is a success,
  -- or an error where it failed. Or the deletion failed: then no other request has been sent, the
  -- selection and the list are as they were, and the notification is an error.
  pub handle_confirm_delete-Unselected : truthy c.confirmation.connection_id ≡ true → Deleted
  handle_confirm_delete-Unselected h =
      let (returns, idle, closed) = handle_confirm_delete_ends h in
      record {
        returns = returns;
        idle = idle;
        closed = closed;
        outcome = elim (Result-cases deletion.0) [
          | inl (_, answer) ↦ inl (succeeds h answer)
          | inr (e, answer) ↦ inr (fails e h answer)
        ];
      }
