-- ===== src/Ui/Authorizers/Handlers.antt =====
-- authority/manage-ui/src/components/settings/AuthorizersTab.tsx, in the page of pages/Settings.tsx.
-- The handlers that read the state of their render.
use agience.Base.{true, false, if◌then◌else◌}
use agience.Js.Value.{Value, null, get, get?, truthy, text}
use agience.Js.Exec.{pure, lift, try_catch, try_finally, when, ◌>>=◌, ◌>>◌}
use agience.World.{log_error}
use agience.Ui.{Ui, io, success, error}
use agience.Services.Authorizers.{create_authorizer, update_authorizer, delete_authorizer}
use agience.Ui.Authorizers.{
  View, set_loading, select_id, select_authorizer, show_notification, fetch_authorizers,
  fetch_authorizer_details, close_confirmation, handle_close_form,
}

-- The handlers that a render of the state `c` has made.
module _ (c : View) where
  -- The request of a save, with what it reports.
  unfoldable pub save_authorizer : Value → Ui View (Unit {0})
  unfolding show_notification select_id io get get? truthy text ◌>>=◌
  save_authorizer form_data =
      if truthy c.selected_authorizer
      then (do
        io (update_authorizer (text (get? "id" c.selected_authorizer)) form_data)
        show_notification "Success" "Authorizer updated successfully" success)
      else do
        new_authorizer ← io (create_authorizer form_data)
        id ← lift (get "id" new_authorizer)
        select_id id
        show_notification "Success" "Authorizer created successfully" success

  unfoldable pub handle_save_authorizer : Value → Ui View (Unit {0})
  unfolding save_authorizer fetch_authorizers fetch_authorizer_details handle_close_form set_loading
  handle_save_authorizer form_data =
      try_finally
        (try_catch
          (do
            set_loading true
            save_authorizer form_data
            fetch_authorizers
            when (truthy c.selected_authorizer_id)
                (fetch_authorizer_details (text c.selected_authorizer_id))
            handle_close_form)
          (λ e. do
            io (log_error "Error saving authorizer:")
            show_notification "Error" "Failed to save authorizer" error))
        (set_loading false)

  unfoldable pub handle_confirm_delete : Ui View (Unit {0})
  unfolding select_id select_authorizer fetch_authorizers close_confirmation set_loading
      show_notification truthy text
  handle_confirm_delete =
      if truthy c.confirmation.authorizer_id
      then try_finally
          (try_catch
            (do
              set_loading true
              io (delete_authorizer (text c.confirmation.authorizer_id))
              show_notification "Success" "Authorizer deleted successfully" success
              select_id null
              select_authorizer null
              fetch_authorizers)
            (λ e. do
              io (log_error "Error deleting authorizer:")
              show_notification "Error" "Failed to delete authorizer" error))
          (do set_loading false; close_confirmation)
      else pure tt
