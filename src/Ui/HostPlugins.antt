-- ===== src/Ui/HostPlugins.antt =====
-- authority/manage-ui/src/components/hosts/HostPlugins.tsx
pub mod Adding
pub mod Page
use agience.Base.{
  String, Bool, true, false, not, Option, none, some, List, [], ◌||◌, ◌<>◌, ◌==◌, if◌then◌else◌,
  any, find, select,
}
use agience.Js.Value.{Value, undefined, null, str, get?, is_text, same_key, text}
use agience.Js.Exec.{pure, try_catch, try_finally, both, ◌>>=◌, ◌>>◌}
use agience.World.{log_error}
use agience.Ui.{Ui, update, io, Kind, success, error, Notification, no_notification, opened}
use agience.Services.Hosts.{get_host_by_id}
use agience.Services.Plugins.{get_all_plugins}
use agience.Services.HostPlugins.{get_plugins_for_host, add_plugin_to_host, remove_plugin_from_host}

pub record Confirmation : Type 0 where
  pub is_open : Bool
  pub plugin_id : String
  pub plugin_name : Value

-- `host` is `null` until it is fetched.
pub record View : Type 0 where
  pub host : Value
  pub assigned_plugins : List Value
  pub available_plugins : List Value
  pub is_loading : Bool
  pub notification : Notification
  pub confirmation : Confirmation

abbrev pub initial : View
initial = record {
  host = null;
  assigned_plugins = [];
  available_plugins = [];
  is_loading = false;
  notification = no_notification;
  confirmation = record { is_open = false; plugin_id = ""; plugin_name = str "" };
}

unfoldable pub set_loading : Bool → Ui View (Unit {0})
unfolding update
set_loading b = update λ v. record v { is_loading = b }

unfoldable pub show_notification : String → String → Kind → Ui View (Unit {0})
unfolding update
show_notification title message kind =
    update λ v. record v { notification = opened title message kind }

unfoldable pub close_notification : Ui View (Unit {0})
unfolding update
close_notification =
    update λ v. record v { notification = record v.notification { is_open = false } }

unfoldable pub show_remove_confirmation : String → Value → Ui View (Unit {0})
unfolding update
show_remove_confirmation plugin_id plugin_name = update λ v. record v {
  confirmation = record { is_open = true; plugin_id = plugin_id; plugin_name = plugin_name };
}

unfoldable pub close_confirmation : Ui View (Unit {0})
unfolding update
close_confirmation =
    update λ v. record v { confirmation = record v.confirmation { is_open = false } }

-- What the effect resets when the component goes or its host changes.
unfoldable pub clean_up : Ui View (Unit {0})
unfolding update
clean_up = update λ v. record v { host = null; assigned_plugins = []; available_plugins = [] }

unfoldable pub fetch_available_plugins : Ui View (Unit {0})
unfolding update io log_error show_notification ◌>>=◌
fetch_available_plugins =
    try_catch
      (do plugins ← io get_all_plugins; update (λ v. record v { available_plugins = plugins }))
      (λ e. do
        io (log_error "Error fetching available plugins:")
        show_notification "Error" "Failed to load available plugins" error)

-- The handlers of a page for the host `host_id`, which is empty if none is selected.
module _ (host_id : String) where
  unfoldable pub fetch_host_details : Ui View (Unit {0})
  unfolding update io log_error show_notification ◌>>=◌
  fetch_host_details =
      if host_id == ""
      then pure tt
      else try_catch (do host ← io (get_host_by_id host_id); update (λ v. record v { host = host }))
          (λ e. do
            io (log_error "Error fetching host details:")
            show_notification "Error" "Failed to load host details" error)

  unfoldable pub fetch_assigned_plugins : Ui View (Unit {0})
  unfolding update io log_error show_notification ◌>>=◌
  fetch_assigned_plugins =
      if host_id == ""
      then pure tt
      else try_catch
          (do
            plugins ← io (get_plugins_for_host host_id)
            update (λ v. record v { assigned_plugins = plugins }))
          (λ e. do
            io (log_error "Error fetching assigned plugins:")
            show_notification "Error" "Failed to load assigned plugins" error)

  unfoldable pub fetch_data : Ui View (Unit {0})
  unfolding fetch_host_details fetch_assigned_plugins fetch_available_plugins set_loading both
  fetch_data = if host_id == "" then pure tt else do
    set_loading true
    try_finally
        (do both (both fetch_host_details fetch_assigned_plugins) fetch_available_plugins; pure tt)
        (set_loading false)

abbrev pub found_name : Option Value → Value
found_name none = undefined
found_name (some p) = get? "name" p

-- `plugins.find(p => p.id === pluginId)?.name`, printed
abbrev pub plugin_name_of : String → List Value → String
plugin_name_of plugin_id plugins =
    text (found_name (find (λ p. is_text (get? "id" p) plugin_id) plugins))

-- The handlers that a render of the state `c` has made.
module _ (host_id : String) (c : View) where
  unfoldable pub handle_add_plugin : String → Ui View (Unit {0})
  unfolding fetch_assigned_plugins set_loading show_notification
  handle_add_plugin plugin_id = if host_id == "" then pure tt else do
    set_loading true
    try_finally
        (try_catch
          (do
            io (add_plugin_to_host host_id plugin_id)
            fetch_assigned_plugins host_id
            show_notification "Success"
                ("Plugin \""
                  <> plugin_name_of plugin_id c.available_plugins
                  <> "\" added successfully")
                success)
          (λ e. do
            io (log_error "Error adding plugin:")
            show_notification "Error" "Failed to add plugin" error))
        (set_loading false)

  unfoldable pub handle_remove_plugin : Ui View (Unit {0})
  unfolding fetch_assigned_plugins set_loading show_notification close_confirmation
  handle_remove_plugin = if host_id == "" || c.confirmation.plugin_id == "" then pure tt else do
    set_loading true
    try_finally
        (try_catch
          (do
            io (remove_plugin_from_host host_id c.confirmation.plugin_id)
            fetch_assigned_plugins host_id
            show_notification "Success"
                ("Plugin \"" <> text c.confirmation.plugin_name <> "\" removed successfully")
                success)
          (λ e. do
            io (log_error "Error removing plugin:")
            show_notification "Error" "Failed to remove plugin" error))
        (do set_loading false; close_confirmation)

-- The available plugins whose id no assigned plugin has.
unfoldable pub unassigned_plugins : View → List Value
unfolding same_key
unassigned_plugins v =
    select (λ p. not (any (λ a. same_key (get? "id" a) (get? "id" p)) v.assigned_plugins))
      v.available_plugins
