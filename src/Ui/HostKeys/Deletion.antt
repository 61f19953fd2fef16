-- ===== src/Ui/HostKeys/Deletion.antt =====
-- Deleting a host's key, from the confirmation to the notification.
use agience.Base.{String, true, false, List, ◌∷◌, ◌<>◌, ◌==◌, ◌≡◌, arith, ◌⊎◌, inl, inr}
use agience.Js.Value.{Value}
use agience.Js.Exec.{Exn, Result, ok, thrown, Result-cases}
use agience.Client.{get_call, delete_call}
use agience.World.{World}
use agience.Trace.{sent}
use agience.Services.HostKeys.{get_keys_for_host, delete_key}
use agience.Services.Calls.{sent-get_keys_for_host, sent-delete_key}
use agience.Ui.{Mounted, Kind, success, error}
use agience.Ui.HostKeys.{View, present, id_or_empty}
use agience.Ui.HostKeys.Handlers.{handle_confirm_delete}

-- The list and the kind of notification after the keys have been fetched again.
abbrev refreshed : Result (List Value) → List Value → List Value
refreshed (ok keys) old = keys
refreshed (thrown e) old = old

abbrev reported_kind : Result (List Value) → Kind
reported_kind (ok keys) = success
reported_kind (thrown e) = error

module _ (host_id : String) (c : View) (m : Mounted View) where
  abbrev deletion : Result (Unit {0}) × World
  deletion = delete_key host_id (id_or_empty c.confirmation.key_id) m.world

  record Succeeds : Type 0 where
    answer : deletion.0 ≡ ok tt
    requests :
        sent (handle_confirm_delete host_id c m).1.world
        ≡ get_call ("/manage/host/" <> host_id <> "/keys")
          ∷ delete_call ("/manage/host/" <> host_id <> "/key/" <> id_or_empty c.confirmation.key_id)
          ∷ sent m.world
    keys :
        (handle_confirm_delete host_id c m).1.view.keys
        ≡ refreshed (get_keys_for_host host_id deletion.1).0 m.view.keys
    reported :
        (handle_confirm_delete host_id c m).1.view.notification.kind
        ≡ reported_kind (get_keys_for_host host_id deletion.1).0

  record Fails : Type 0 where
    answer : (cause : Exn) × (deletion.0 ≡ thrown cause)
    requests :
        sent (handle_confirm_delete host_id c m).1.world
        ≡ delete_call ("/manage/host/" <> host_id <> "/key/" <> id_or_empty c.confirmation.key_id)
          ∷ sent m.world
    keys : (handle_confirm_delete host_id c m).1.view.keys ≡ m.view.keys
    reported : (handle_confirm_delete host_id c m).1.view.notification.kind ≡ error

  pub record Deleted : Type 0 where
    returns : (handle_confirm_delete host_id c m).0 ≡ ok tt
    idle : (handle_confirm_delete host_id c m).1.view.is_loading ≡ false
    closed : (handle_confirm_delete host_id c m).1.view.confirmation.is_open ≡ false
    outcome : Succeeds ⊎ Fails

  succeeds :
      (host_id == "") ≡ false → present c.confirmation.key_id ≡ true → deletion.0 ≡ ok tt → Succeeds
  unfolding handle_confirm_delete
  succeeds h k answer = record {
    answer = answer;
    requests =
        rw (h, k)
          (ground (
            arith,
            answer,
            sent-delete_key host_id (id_or_empty c.confirmation.key_id) m.world,
            sent-get_keys_for_host host_id deletion.1,
          ));
    keys = rw (h, k) (ground (arith, answer));
    reported = rw (h, k) (ground (arith, answer));
  }

  fails :
      (e : Exn)
      → (host_id == "") ≡ false
      → present c.confirmation.key_id ≡ true
      → deletion.0 ≡ thrown e
      → Fails
  unfolding handle_confirm_delete
  fails e h k answer = record {
    answer = (e, answer);
    requests =
        rw (h, k)
          (ground
            (arith, answer, sent-delete_key host_id (id_or_empty c.confirmation.key_id) m.world));
    keys = rw (h, k) (ground (arith, answer));
    reported = rw (h, k) (ground (arith, answer));
  }

  handle_confirm_delete-returns : (handle_confirm_delete host_id c m).0 ≡ ok tt
  unfolding handle_confirm_delete
  handle_confirm_delete-returns = ground arith

  -- With a host and a key to delete, the handler returns, the page is no longer loading and the
  -- confirmation is closed. Either the server has deleted the key: then exactly that request and
  -- one for the host's keys have been sent, the keys are what that fetched, or as they were where
  -- it failed, and the notification is a success, or an error where it failed. Or the deletion
  -- failed: then no other request has been sent, the keys are as they were, and the notification is
  -- an error.
  pub handle_confirm_delete-Deleted :
      (host_id == "") ≡ false → present c.confirmation.key_id ≡ true → Deleted
  unfolding handle_confirm_delete
  handle_confirm_delete-Deleted h k = record {
    returns = handle_confirm_delete-returns;
    idle = rw (h, k) (ground arith);
    closed = rw (h, k) (ground arith);
    outcome = elim (Result-cases deletion.0) [
      | inl (_, answer) ↦ inl (succeeds h k answer)
      | inr (e, answer) ↦ inr (fails e h k answer)
    ];
  }
