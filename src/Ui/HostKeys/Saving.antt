-- ===== src/Ui/HostKeys/Saving.antt =====
-- Submitting the form of a host's key.
use agience.Base.{String, true, false, List, ◌==◌, ◌≡◌, ◌∷◌, ◌<>◌, arith, ◌⊎◌, inl, inr, refl}
use agience.Js.Value.{Value, truthy}
use agience.Js.Exec.{Exn, Result, ok, thrown, Result-cases}
use agience.World.{World}
use agience.Client.{get_call}
use agience.Trace.{sent}
use agience.Services.Calls.{sent-get_keys_for_host}
use agience.Services.HostKeys.{get_keys_for_host, generate_key_for_host}
use agience.Ui.{Mounted, error}
use agience.Ui.HostKeys.{View}
use agience.Ui.HostKeys.Handlers.{handle_submit_form}

abbrev refreshed : Result (List Value) → List Value → List Value
refreshed (ok keys) old = keys
refreshed (thrown e) old = old

module _ (host_id : String) (c : View) (m : Mounted View) where
  abbrev generation : Result Value × World
  generation = generate_key_for_host host_id c.form_data m.world

  -- The new key with its secret is on show, and the form is closed.
  record Shows (key : Value) : Type 0 where
    answer : generation.0 ≡ ok key
    selected : (handle_submit_form host_id c m).1.view.selected_key ≡ key
    shown : (handle_submit_form host_id c m).1.view.is_key_details_modal_open ≡ true
    closed : (handle_submit_form host_id c m).1.view.is_form_open ≡ false
    keys :
        (handle_submit_form host_id c m).1.view.keys
        ≡ refreshed (get_keys_for_host host_id generation.1).0 m.view.keys
    requests :
        sent (handle_submit_form host_id c m).1.world
        ≡ get_call ("/manage/host/" <> host_id <> "/keys") ∷ sent generation.1

  -- The form stays as it was, with an error on show.
  record Refuses : Type 0 where
    answer : (cause : Exn) × (generation.0 ≡ thrown cause)
    selected : (handle_submit_form host_id c m).1.view.selected_key ≡ m.view.selected_key
    shown :
        (handle_submit_form host_id c m).1.view.is_key_details_modal_open
        ≡ m.view.is_key_details_modal_open
    form : (handle_submit_form host_id c m).1.view.is_form_open ≡ m.view.is_form_open
    keys : (handle_submit_form host_id c m).1.view.keys ≡ m.view.keys
    reported : (handle_submit_form host_id c m).1.view.notification.kind ≡ error
    requests : sent (handle_submit_form host_id c m).1.world ≡ sent generation.1

  pub record Generated : Type 0 where
    returns : (handle_submit_form host_id c m).0 ≡ ok tt
    idle : (handle_submit_form host_id c m).1.view.is_loading ≡ false
    outcome : ((key : Value) × Shows key) ⊎ Refuses

  shows :
      (key : Value)
      → (host_id == "") ≡ false
      → truthy c.editing_key ≡ false
      → generation.0 ≡ ok key
      → Shows key
  unfolding handle_submit_form
  shows key h n answer = elim (Result-cases (get_keys_for_host host_id generation.1).0) [
    | inl (keys, fetched) ↦ record {
      answer = answer;
      selected = rw (h, n, answer, fetched) refl;
      shown = rw (h, n, answer, fetched) refl;
      closed = rw (h, n, answer, fetched) refl;
      keys = rw (h, n, answer, fetched) refl;
      requests = rw (h, n, answer, fetched) (sent-get_keys_for_host host_id generation.1);
    }
    | inr (e, failed) ↦ record {
      answer = answer;
      selected = rw (h, n, answer, failed) refl;
      shown = rw (h, n, answer, failed) refl;
      closed = rw (h, n, answer, failed) refl;
      keys = rw (h, n, answer, failed) refl;
      requests = rw (h, n, answer, failed) (sent-get_keys_for_host host_id generation.1);
    }
  ]

  refuses :
      (e : Exn)
      → (host_id == "") ≡ false
      → truthy c.editing_key ≡ false
      → generation.0 ≡ thrown e
      → Refuses
  unfolding handle_submit_form
  refuses e h n answer = record {
    answer = (e, answer);
    selected = rw (h, n, answer) refl;
    shown = rw (h, n, answer) refl;
    form = rw (h, n, answer) refl;
    keys = rw (h, n, answer) refl;
    reported = rw (h, n, answer) refl;
    requests = rw (h, n, answer) refl;
  }

  handle_submit_form_ends :
      (host_id == "") ≡ false
      → truthy c.editing_key ≡ false
      → ((handle_submit_form host_id c m).0 ≡ ok tt)
        × ((handle_submit_form host_id c m).1.view.is_loading ≡ false)
  unfolding handle_submit_form
  handle_submit_form_ends h n = (ground arith, ground arith)

  -- With a host and no key to edit, submitting the form returns and leaves the loading state off.
  -- If the server generates a key, that key is selected, its details are open, the form is closed,
  -- and the keys are fetched again, and stay as they were where that fails. If not, nothing else is
  -- sent, the selection, the details, the form and the keys stay as they were, and an error is
  -- reported.
  pub handle_submit_form-Generated :
      (host_id == "") ≡ false → truthy c.editing_key ≡ false → Generated
  handle_submit_form-Generated h n = record {
    returns = (handle_submit_form_ends h n).0;
    idle = (handle_submit_form_ends h n).1;
    outcome = elim (Result-cases generation.0) [
      | inl (key, answer) ↦ inl (key, shows key h n answer)
      | inr (e, answer) ↦ inr (refuses e h n answer)
    ];
  }
