-- ===== src/Ui/Connections/Handlers.antt =====
-- authority/manage-ui/src/components/settings/ConnectionsTab.tsx
-- The handlers that read the state of their render.
use agience.Base.{true, false, if◌then◌else◌}
use agience.Js.Value.{Value, null, get, truthy, text}
use agience.Js.Exec.{pure, lift, try_catch, try_finally, when, ◌>>=◌, ◌>>◌}
use agience.World.{log_error}
use agience.Ui.{Ui, io, success, error}
use agience.Services.Connections.{create_connection, update_connection, delete_connection}
use agience.Ui.Connections.{
  View, set_loading, select_id, select_connection, show_notification, fetch_connections,
  fetch_connection_details, close_confirmation, handle_close_form,
}

-- The handlers that a render of the state `c` has made.
module _ (c : View) where
  -- The request of a save, with what it reports.
  unfoldable pub save_connection : Value → Ui View (Unit {0})
  unfolding show_notification select_id io get truthy text ◌>>=◌
  save_connection form_data =
      if truthy c.selected_connection
      then (do
        id ← lift (get "id" c.selected_connection)
        io (update_connection (text id) form_data)
        show_notification "Success" "Connection updated successfully" success)
      else do
        new_connection ← io (create_connection form_data)
        id ← lift (get "id" new_connection)
        select_id id
        show_notification "Success" "Connection created successfully" success

  unfoldable pub handle_save_connection : Value → Ui View (Unit {0})
  unfolding save_connection fetch_connections fetch_connection_details handle_close_form set_loading
  handle_save_connection form_data =
      try_finally
        (try_catch
          (do
            set_loading true
            save_connection form_data
            fetch_connections
            when (truthy c.selected_connection_id)
                (fetch_connection_details (text c.selected_connection_id))
            handle_close_form)
          (λ e. do
            io (log_error "Error saving connection:")
            show_notification "Error" "Failed to save connection" error))
        (set_loading false)

  unfoldable pub handle_confirm_delete : Ui View (Unit {0})
  unfolding select_id select_connection fetch_connections close_confirmation set_loading
      show_notification truthy text
  handle_confirm_delete =
      if truthy c.confirmation.connection_id
      then try_finally
          (try_catch
            (do
              set_loading true
              io (delete_connection (text c.confirmation.connection_id))
              show_notification "Success" "Connection deleted successfully" success
              select_id null
              select_connection null
              fetch_connections)
            (λ e. do
              io (log_error "Error deleting connection:")
              show_notification "Error" "Failed to delete connection" error))
          (do set_loading false; close_confirmation)
      else pure tt
