-- ===== src/Ui/Hosts/Handlers.antt =====
-- authority/manage-ui/src/components/hosts/HostDetailsTab.tsx and its HostModal.tsx, whose `useState`
-- The handlers that read the state of their render.
use agience.Base.{String, Bool, true, false, not, some, [], ◌∷◌, ◌&&◌, if◌then◌else◌}
use agience.Js.Value.{Value, null, str, end, field, get, get?, truthy, or_else, array, spread, text}
use agience.Js.Exec.{pure, lift, try_catch, try_finally, when, ◌>>=◌, ◌>>◌}
use agience.World.{Io, log_error}
use agience.Ui.{Ui, update, io}
use agience.Services.Hosts.{create_host, update_host, delete_host}
use agience.Ui.Hosts.{View, subject, fetch_hosts, handle_close_modal, find_errors, is_empty}

-- The handlers that a render of the state `c` has made.
module _ (c : View) where
  -- `fetchHosts` is not awaited: it ends after the handler, and here it runs there.
  unfoldable pub handle_delete_host : Ui View (Unit {0})
  unfolding fetch_hosts truthy get text
  handle_delete_host = if not (truthy c.host_to_delete) then pure tt else do
    deleted ←
        try_finally
          (try_catch
            (do
              id ← lift (get "id" c.host_to_delete)
              io (delete_host (text id))
              update (λ v. record v { success_message = some "Host deleted successfully!" })
              pure true)
            (λ err. do
              io (log_error "Error deleting host:")
              update (λ v. record v {
                error_message = some "Failed to delete host. Please try again.";
              })
              pure false))
          (do
            update (λ v. record v { is_delete_confirm_open = false })
            update (λ v. record v { host_to_delete = null }))
    when deleted fetch_hosts

  -- The request of a save.
  unfoldable pub save_host : Value → Io (Unit {0})
  unfolding truthy get text ◌>>=◌
  save_host form =
      if c.is_editing && truthy c.selected_host
      then (do id ← lift (get "id" c.selected_host); update_host (text id) form; pure tt)
      else do create_host form; pure tt

  -- `fetchHosts` is not awaited here either.
  unfoldable pub handle_save_host : Value → Ui View (Unit {0})
  unfolding save_host fetch_hosts
  handle_save_host form = do
    saved ←
        try_catch
          (do
            io (save_host form)
            update (λ v. record v {
              success_message = some (
                  if c.is_editing
                  then "Host updated successfully!"
                  else "Host created successfully!");
            })
            update (λ v. record v { is_modal_open = false })
            pure true)
          (λ err. do
            io (log_error "Error saving host:")
            update (λ v. record v { error_message = some "Failed to save host. Please try again." })
            pure false)
    when saved fetch_hosts

  -- `handleChange` of the modal
  unfoldable pub handle_change : String → Value → Ui View (Unit {0})
  unfolding update spread truthy get? ◌>>=◌
  handle_change name value = do
    update (λ v. record v { form_data = spread v.form_data (field name value end) })
    when (truthy (get? name c.errors))
        (update (λ v. record v { errors = spread v.errors (field name (str "") end) }))

  unfoldable pub validate_form : Ui View Bool
  unfolding find_errors update ◌>>=◌
  validate_form = do
    new_errors ← lift (find_errors c.form_data)
    update (λ v. record v { errors = new_errors })
    pure (is_empty new_errors)

  -- What the modal hands to the tab.
  abbrev pub submission : Value → Value
  submission user = spread c.form_data (
      field "operatorId" (or_else (get? "operatorId" c.form_data) (subject user))
        (field "scopes" (array (str "connect" ∷ [])) end))

  -- `handleSubmit` of the modal, with the tab's `handleSaveHost` and `handleCloseModal` as its
  -- props
  unfoldable pub handle_submit : Value → Ui View (Unit {0})
  unfolding validate_form handle_save_host handle_close_modal
  handle_submit user = do
    is_valid ← validate_form
    when is_valid (
        try_finally
          (try_catch
            (do
              update (λ v. record v { is_saving = true })
              handle_save_host (submission user)
              handle_close_modal)
            (λ err. io (log_error "Error saving host:")))
          (update (λ v. record v { is_saving = false })))
