-- ===== src/Ui/PluginFunctions.antt =====
-- authority/manage-ui/src/components/plugins/PluginFunctionsTab.tsx
pub mod Deletion
pub mod Handlers
pub mod FormPage
pub mod Page
use Prim.Native.Nat.{compare, Ordering}
use agience.Base.{
  String, Bool, true, false, not, Option, none, some, ℕ, [], ◌∷◌, ◌<>◌, ◌==◌, if◌then◌else◌,
}
use agience.Js.Value.{
  Value, undefined, null, str, end, field, get, get?, array, object, spread, text,
}
use agience.Js.Exec.{pure, throw, lift, try_catch, try_finally, ◌>>=◌, ◌>>◌}
use agience.World.{log, log_error}
use agience.Ui.{Ui, update, io, Kind, success, error, Notification, no_notification, opened}
use agience.Services.Plugins.{get_plugin_by_id}
use agience.Services.PluginFunctions.{
  get_functions_for_plugin, create_function_for_plugin, remove_function_from_plugin,
  delete_function,
}

-- The two modals of this tab are opened with `type: 'danger'` alone, which is left out.
pub record Confirmation : Type 0 where
  pub is_open : Bool
  pub title : String
  pub message : String
  pub function_id : Value

-- `functions` is what the server answered, which is not checked to be an array.
pub record View : Type 0 where
  pub functions : Value
  pub is_loading : Bool
  pub is_form_open : Bool
  pub editing_function_id : Value
  pub edit_form_data : Value
  pub plugin_name : Value
  pub notification : Notification
  pub confirmation : Confirmation

abbrev pub initial : View
initial = record {
  functions = array [];
  is_loading = false;
  is_form_open = false;
  editing_function_id = null;
  edit_form_data = object (("name", str "") ∷ ("description", str "") ∷ []);
  plugin_name = str "";
  notification = no_notification;
  confirmation = record { is_open = false; title = ""; message = ""; function_id = undefined };
}

unfoldable pub set_loading : Bool → Ui View (Unit {0})
unfolding update
set_loading b = update λ v. record v { is_loading = b }

unfoldable pub show_notification : String → String → Kind → Ui View (Unit {0})
unfolding update
show_notification title message kind =
    update λ v. record v { notification = opened title message kind }

unfoldable pub close_notification : Ui View (Unit {0})
unfolding update
close_notification =
    update λ v. record v { notification = record v.notification { is_open = false } }

unfoldable pub show_delete_confirmation : Value → Ui View (Unit {0})
unfolding update get get? text ◌>>=◌
show_delete_confirmation func = do
  name ← lift (get "name" func)
  update (λ v. record v {
    confirmation = record {
      is_open = true;
      title = "Delete Function";
      message =
          "Are you sure you want to delete the function \""
          <> text name
          <> "\"? This action cannot be undone.";
      function_id = get? "id" func;
    };
  })

unfoldable pub close_confirmation : Ui View (Unit {0})
unfolding update
close_confirmation =
    update λ v. record v { confirmation = record v.confirmation { is_open = false } }

unfoldable pub handle_add_function : Ui View (Unit {0})
unfolding update
handle_add_function = update (λ v. record v { is_form_open = true })

unfoldable pub handle_edit_function : Value → Ui View (Unit {0})
unfolding update get get? ◌>>=◌
handle_edit_function func = do
  id ← lift (get "id" func)
  update (λ v. record v { editing_function_id = id })
  update (λ v. record v {
    edit_form_data =
        object (("name", get? "name" func) ∷ ("description", get? "description" func) ∷ []);
  })

unfoldable pub handle_cancel_edit : Ui View (Unit {0})
unfolding update
handle_cancel_edit = update (λ v. record v { editing_function_id = null })

unfoldable pub handle_edit_input_change : String → Value → Ui View (Unit {0})
unfolding update spread
handle_edit_input_change name value =
    update λ v. record v { edit_form_data = spread v.edit_form_data (field name value end) }

unfoldable pub handle_close_form : Ui View (Unit {0})
unfolding update
handle_close_form = update (λ v. record v { is_form_open = false })

-- The handlers of a tab for the plugin `plugin_id`.
module _ (plugin_id : String) where
  unfoldable pub fetch_plugin_details : Ui View (Unit {0})
  unfolding update io log_error show_notification get ◌>>=◌
  fetch_plugin_details =
      if plugin_id == ""
      then pure tt
      else try_catch
          (do
            plugin ← io (get_plugin_by_id plugin_id)
            name ← lift (get "name" plugin)
            update (λ v. record v { plugin_name = name }))
          (λ e. do
            io (log_error "Error fetching plugin details:")
            show_notification "Error" "Failed to load plugin details" error)

  unfoldable pub fetch_functions : Ui View (Unit {0})
  unfolding update io log_error set_loading show_notification ◌>>=◌
  fetch_functions =
      if plugin_id == ""
      then pure tt
      else try_finally
          (try_catch
            (do
              set_loading true
              found ← io (get_functions_for_plugin plugin_id)
              update (λ v. record v { functions = found }))
            (λ e. do
              io (log_error "Error fetching functions:")
              show_notification "Error" "Failed to load functions" error))
          (set_loading false)

  unfoldable pub handle_save_function : Value → Ui View (Unit {0})
  unfolding fetch_functions handle_close_form set_loading show_notification
  handle_save_function form_data =
      try_finally
        (try_catch
          (do
            set_loading true
            io (create_function_for_plugin plugin_id form_data)
            show_notification "Success" "Function created successfully" success
            fetch_functions
            handle_close_form)
          (λ e. do
            io (log_error "Error saving function:")
            show_notification "Error" "Failed to save function" error))
        (set_loading false)

abbrev is_404 : ℕ → Bool
is_404 status = elim (compare status 404) [ Ordering.eq ↦ true | _ ↦ false ]

-- `deleteError.response && deleteError.response.status !== 404`
abbrev pub is_other_response : Option ℕ → Bool
is_other_response none = false
is_other_response (some status) = not (is_404 status)

-- The function goes from the plugin first, then for good. An error of the second request counts
-- only if it has a response whose status is not 404.
unfoldable pub remove_and_delete : String → String → Ui View (Unit {0})
unfolding io log ◌>>=◌
remove_and_delete plugin_id function_id = do
  io (remove_function_from_plugin plugin_id function_id)
  try_catch (io (delete_function function_id)) (λ delete_error.
      if is_other_response delete_error.status
      then throw delete_error
      else io (log "Function was removed from plugin but might already be deleted"))
