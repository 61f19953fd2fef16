-- ===== src/Ui/Connections/Saving.antt =====
-- Saving a connection that is new.
use agience.Base.{false, List, ◌≡◌, arith, ◌⊎◌, inl, inr, refl}
use agience.Js.Value.{Value, get, truthy}
use agience.Js.Exec.{Exn, Result, ok, thrown, Result-cases}
use agience.World.{World}
use agience.Services.Connections.{create_connection}
use agience.Services.Joined.{get_connections_with_authorizers}
use agience.Ui.{Mounted, error}
use agience.Ui.Connections.{View}
use agience.Ui.Connections.Handlers.{handle_save_connection}

abbrev refreshed : Result (List Value) → List Value → List Value
refreshed (ok connections) old = connections
refreshed (thrown e) old = old

module _ (c : View) (form_data : Value) (m : Mounted View) where
  abbrev creation : Result Value × World
  creation = create_connection form_data m.world

  -- The server has made a connection that has an id.
  record Succeeds : Type 0 where
    connection : Value
    id : Value
    answer : creation.0 ≡ ok connection
    named : get "id" connection ≡ ok id
    selected : (handle_save_connection c form_data m).1.view.selected_connection_id ≡ id
    closed : (handle_save_connection c form_data m).1.view.is_form_open ≡ false
    connections :
        (handle_save_connection c form_data m).1.view.connections
        ≡ refreshed (get_connections_with_authorizers creation.1).0 m.view.connections

  record Fails : Type 0 where
    selected :
        (handle_save_connection c form_data m).1.view.selected_connection_id
        ≡ m.view.selected_connection_id
    form : (handle_save_connection c form_data m).1.view.is_form_open ≡ m.view.is_form_open
    connections : (handle_save_connection c form_data m).1.view.connections ≡ m.view.connections
    reported : (handle_save_connection c form_data m).1.view.notification.kind ≡ error

  pub record Created : Type 0 where
    returns : (handle_save_connection c form_data m).0 ≡ ok tt
    idle : (handle_save_connection c form_data m).1.view.is_loading ≡ false
    outcome : Succeeds ⊎ Fails

  fails_unanswered :
      (e : Exn) → truthy c.selected_connection ≡ false → creation.0 ≡ thrown e → Fails
  unfolding handle_save_connection
  fails_unanswered e n answer = record {
    selected = rw (n, answer) refl;
    form = rw (n, answer) refl;
    connections = rw (n, answer) refl;
    reported = rw (n, answer) refl;
  }

  fails_unnamed :
      (connection : Value) (e : Exn)
      → truthy c.selected_connection ≡ false
      → creation.0 ≡ ok connection
      → get "id" connection ≡ thrown e
      → Fails
  unfolding handle_save_connection
  fails_unnamed connection e n answer unnamed = record {
    selected = rw (n, answer, unnamed) refl;
    form = rw (n, answer, unnamed) refl;
    connections = rw (n, answer, unnamed) refl;
    reported = rw (n, answer, unnamed) refl;
  }

  handle_save_connection_ends :
      ((handle_save_connection c form_data m).0 ≡ ok tt)
      × ((handle_save_connection c form_data m).1.view.is_loading ≡ false)
  unfolding handle_save_connection
  handle_save_connection_ends = (ground arith, ground arith)

  succeeds :
      (connection id : Value)
      → truthy c.selected_connection ≡ false
      → creation.0 ≡ ok connection
      → get "id" connection ≡ ok id
      → Succeeds
  unfolding handle_save_connection
  succeeds connection id n answer named =
      elim (Result-cases (get_connections_with_authorizers creation.1).0) [
        | inl (cs, fetched) ↦ record {
          connection = connection;
          id = id;
          answer = answer;
          named = named;
          selected = ground (arith, fetched);
          closed = ground (arith, fetched);
          connections = ground (arith, fetched);
        }
        | inr (e, failed) ↦ record {
          connection = connection;
          id = id;
          answer = answer;
          named = named;
          selected = ground (arith, failed);
          closed = ground (arith, failed);
          connections = ground (arith, failed);
        }
      ]

  -- With no connection selected, saving the form returns and leaves the loading state off. Either
  -- the server has made a connection with an id: then that id is selected, the form is closed, and
  -- the list is what was fetched afterwards, or as it was where that failed. Or it has not: then
  -- the selection, the form and the list are as they were, and the notification is an error.
  pub handle_save_connection-Created : truthy c.selected_connection ≡ false → Created
  handle_save_connection-Created n = record {
    returns = handle_save_connection_ends.0;
    idle = handle_save_connection_ends.1;
    outcome = elim (Result-cases creation.0) [
      | inr (e, answer) ↦ inr (fails_unanswered e n answer)
      | inl (connection, answer) ↦ elim (Result-cases (get "id" connection)) [
        | inl (id, named) ↦ inl (succeeds connection id n answer named)
        | inr (e, unnamed) ↦ inr (fails_unnamed connection e n answer unnamed)
      ]
    ];
  }
