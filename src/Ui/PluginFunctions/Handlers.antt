-- ===== src/Ui/PluginFunctions/Handlers.antt =====
-- authority/manage-ui/src/components/plugins/PluginFunctionsTab.tsx
-- The handlers that read the state of their render.
use agience.Base.{String, true, false, not, if◌then◌else◌}
use agience.Js.Value.{null, truthy, text}
use agience.Js.Exec.{pure, try_catch, try_finally, ◌>>◌}
use agience.World.{log_error}
use agience.Ui.{Ui, update, io, success, error}
use agience.Services.PluginFunctions.{update_function}
use agience.Ui.PluginFunctions.{
  View, set_loading, show_notification, close_confirmation, fetch_functions, remove_and_delete,
}

-- The handlers that a render of the state `c` has made.
module _ (plugin_id : String) (c : View) where
  unfoldable pub handle_save_edit : String → Ui View (Unit {0})
  unfolding fetch_functions set_loading show_notification update
  handle_save_edit function_id =
      try_finally
        (try_catch
          (do
            set_loading true
            io (update_function function_id c.edit_form_data)
            show_notification "Success" "Function updated successfully" success
            fetch_functions plugin_id
            update (λ v. record v { editing_function_id = null }))
          (λ e. do
            io (log_error "Error updating function:")
            show_notification "Error" "Failed to update function" error))
        (set_loading false)

  -- The inner `try` only throws its error again.
  unfoldable pub handle_confirm_delete : Ui View (Unit {0})
  unfolding remove_and_delete fetch_functions set_loading show_notification close_confirmation
      truthy text
  handle_confirm_delete =
      if not (truthy c.confirmation.function_id)
      then pure tt
      else try_finally
          (try_catch
            (do
              set_loading true
              remove_and_delete plugin_id (text c.confirmation.function_id)
              show_notification "Success" "Function deleted successfully" success
              fetch_functions plugin_id)
            (λ e. do
              io (log_error "Error deleting function:")
              show_notification "Error" "Failed to delete function" error))
          (do set_loading false; close_confirmation)
