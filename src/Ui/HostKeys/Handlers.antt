-- ===== src/Ui/HostKeys/Handlers.antt =====
-- authority/manage-ui/src/components/hosts/HostKeys.tsx
-- The handlers that read the state of their render.
use agience.Base.{String, true, false, not, [], ◌∷◌, ◌||◌, ◌==◌, if◌then◌else◌}
use agience.Js.Value.{get, get?, truthy, object, text}
use agience.Js.Exec.{pure, lift, try_catch, try_finally, ◌>>=◌, ◌>>◌}
use agience.World.{log_error}
use agience.Ui.{Ui, update, io, success, error}
use agience.Services.HostKeys.{update_key, generate_key_for_host, delete_key}
use agience.Ui.HostKeys.{
  View, set_loading, show_notification, close_confirmation, fetch_keys, handle_close_form, present,
  id_or_empty,
}

-- The handlers that a render of the state `c` has made.
module _ (host_id : String) (c : View) where
  -- The first branch is an update of the key that is edited, the second a new key.
  unfoldable pub save_key : Ui View (Unit {0})
  unfolding show_notification update io get get? truthy text ◌>>=◌
  save_key =
      if truthy c.editing_key
      then (do
        key_id ← lift (get "id" c.editing_key)
        io (
            update_key host_id (text key_id) (
              object (
                ("name", get? "name" c.form_data)
                ∷ ("isActive", get? "isActive" c.form_data)
                ∷ [])))
        show_notification "Success" "Key updated successfully" success)
      else do
        new_key ← io (generate_key_for_host host_id c.form_data)
        update (λ v. record v { selected_key = new_key })
        update (λ v. record v { is_key_details_modal_open = true })

  unfoldable pub handle_submit_form : Ui View (Unit {0})
  unfolding save_key fetch_keys handle_close_form set_loading show_notification
  handle_submit_form =
      if host_id == ""
      then pure tt
      else try_finally
          (try_catch (do set_loading true; save_key; fetch_keys host_id; handle_close_form)
            (λ err. do
              io (log_error "Error saving key:")
              show_notification "Error" "Failed to save key" error))
          (set_loading false)

  unfoldable pub handle_confirm_delete : Ui View (Unit {0})
  unfolding fetch_keys set_loading show_notification close_confirmation
  handle_confirm_delete =
      if host_id == "" || not (present c.confirmation.key_id)
      then pure tt
      else try_finally
          (try_catch
            (do
              set_loading true
              io (delete_key host_id (id_or_empty c.confirmation.key_id))
              show_notification "Success" "Key deleted successfully" success
              fetch_keys host_id)
            (λ err. do
              io (log_error "Error deleting key:")
              show_notification "Error" "Failed to delete key" error))
          (do set_loading false; close_confirmation)
