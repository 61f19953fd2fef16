-- ===== src/Ui/Connections.antt =====
-- authority/manage-ui/src/components/settings/ConnectionsTab.tsx
pub mod Deletion
pub mod Saving
pub mod Handlers
pub mod FormPage
pub mod Page
use agience.Base.{String, Bool, true, false, List, [], ◌<>◌, if◌then◌else◌}
use agience.Js.Value.{Value, undefined, null, str, get, get?, truthy, text}
use agience.Js.Exec.{lift, try_catch, try_finally, when, ◌>>=◌, ◌>>◌}
use agience.World.{log_error}
use agience.Ui.{Ui, update, io, Kind, error, Notification, no_notification, opened}
use agience.Services.Joined.{get_connections_with_authorizers, get_connection_with_authorizer}
use agience.Services.Authorizers.{get_all_authorizers}

-- The `type` of the confirmation is always `danger`. Its id is absent at first.
pub record Confirmation : Type 0 where
  pub is_open : Bool
  pub title : String
  pub message : String
  pub connection_id : Value

-- The selection is `null` or an id, and the selected connection `null` until it is fetched.
pub record View : Type 0 where
  pub connections : List Value
  pub authorizers : List Value
  pub selected_connection_id : Value
  pub selected_connection : Value
  pub is_loading : Bool
  pub is_form_open : Bool
  pub has_temp_connection : Bool
  pub notification : Notification
  pub confirmation : Confirmation

abbrev pub initial : View
initial = record {
  connections = [];
  authorizers = [];
  selected_connection_id = null;
  selected_connection = null;
  is_loading = false;
  is_form_open = false;
  has_temp_connection = false;
  notification = no_notification;
  confirmation = record { is_open = false; title = ""; message = ""; connection_id = undefined };
}

unfoldable pub set_loading : Bool → Ui View (Unit {0})
unfolding update
set_loading b = update λ v. record v { is_loading = b }

unfoldable pub select_id : Value → Ui View (Unit {0})
unfolding update
select_id id = update λ v. record v { selected_connection_id = id }

unfoldable pub select_connection : Value → Ui View (Unit {0})
unfolding update
select_connection connection = update λ v. record v { selected_connection = connection }

unfoldable pub show_notification : String → String → Kind → Ui View (Unit {0})
unfolding update
show_notification title message kind =
    update λ v. record v { notification = opened title message kind }

unfoldable pub close_notification : Ui View (Unit {0})
unfolding update
close_notification =
    update λ v. record v { notification = record v.notification { is_open = false } }

unfoldable pub fetch_connections : Ui View (Unit {0})
unfolding update io log_error show_notification set_loading ◌>>=◌
fetch_connections =
    try_finally
      (try_catch
        (do
          set_loading true
          data' ← io get_connections_with_authorizers
          update (λ v. record v { connections = data' }))
        (λ e. do
          io (log_error "Error fetching connections:")
          show_notification "Error" "Failed to load connections" error))
      (set_loading false)

unfoldable pub fetch_authorizers : Ui View (Unit {0})
unfolding update io log_error show_notification ◌>>=◌
fetch_authorizers =
    try_catch (do data' ← io get_all_authorizers; update (λ v. record v { authorizers = data' }))
      (λ e. do
        io (log_error "Error fetching authorizers:")
        show_notification "Error" "Failed to load authorizers" error)

unfoldable pub fetch_connection_details : String → Ui View (Unit {0})
unfolding update io log_error show_notification set_loading select_connection ◌>>=◌
fetch_connection_details id =
    try_finally
      (try_catch
        (do
          set_loading true
          connection ← io (get_connection_with_authorizer id)
          select_connection connection)
        (λ e. do
          io (log_error "Error fetching connection details:")
          show_notification "Error" "Failed to load connection details" error))
      (set_loading false)

-- The effect of the mount: neither call waits for the other, and here they run one after another.
unfoldable pub on_mount : Ui View (Unit {0})
unfolding fetch_connections fetch_authorizers
on_mount = do fetch_connections; fetch_authorizers

-- The effect of a new selection.
unfoldable pub on_selection : View → Ui View (Unit {0})
unfolding truthy text fetch_connection_details select_connection
on_selection c =
    if truthy c.selected_connection_id
    then fetch_connection_details (text c.selected_connection_id)
    else select_connection null

unfoldable pub show_delete_confirmation : Value → Ui View (Unit {0})
unfolding update get get? text ◌>>=◌
show_delete_confirmation connection = do
  name ← lift (get "name" connection)
  update (λ v. record v {
    confirmation = record {
      is_open = true;
      title = "Delete Connection";
      message =
          "Are you sure you want to delete the connection \""
          <> text name
          <> "\"? This action cannot be undone.";
      connection_id = get? "id" connection;
    };
  })

unfoldable pub close_confirmation : Ui View (Unit {0})
unfolding update
close_confirmation =
    update λ v. record v { confirmation = record v.confirmation { is_open = false } }

unfoldable pub handle_select_connection : String → Ui View (Unit {0})
unfolding select_id
handle_select_connection id = select_id (str id)

unfoldable pub handle_add_connection : Ui View (Unit {0})
unfolding update select_id select_connection ◌>>=◌
handle_add_connection = do
  select_id null
  select_connection null
  update (λ v. record v { is_form_open = true })
  update (λ v. record v { has_temp_connection = true })

unfoldable pub handle_edit_connection : View → Ui View (Unit {0})
unfolding update truthy
handle_edit_connection c =
    when (truthy c.selected_connection) (update (λ v. record v { is_form_open = true }))

unfoldable pub handle_close_form : Ui View (Unit {0})
unfolding update ◌>>=◌
handle_close_form = do
  update (λ v. record v { is_form_open = false })
  update (λ v. record v { has_temp_connection = false })
