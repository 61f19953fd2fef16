-- ===== src/Ui/PluginDetails.antt =====
-- authority/manage-ui/src/components/plugins/PluginDetailsTab.tsx, in the page of pages/Plugins.tsx,
-- whose handlers are its props.
pub mod Saving
use agience.Base.{String, Bool, true, false, [], ◌∷◌, ◌<>◌, if◌then◌else◌}
use agience.Js.Value.{Value, undefined, null, str, get, get?, truthy, object, text}
use agience.Js.Exec.{pure, lift, try_catch, try_finally, when, ◌>>=◌, ◌>>◌}
use agience.World.{log_error}
use agience.Ui.{Ui, update, io, Kind, success, error, Notification, no_notification, opened, within}
use agience.Services.Plugins.{get_plugin_by_id, create_plugin, update_plugin, delete_plugin}
use agience.Pages.Plugins
use agience.Pages.Plugins.{handle_select_plugin, handle_plugin_change, set_temp}

-- The `type` of the confirmation is always `danger`. Its id is absent at first.
pub record Confirmation : Type 0 where
  pub is_open : Bool
  pub title : String
  pub message : String
  pub plugin_id : Value

-- The selected plugin is `null` until it is fetched. `page` is the state of the page around the
-- tab.
pub record View : Type 0 where
  pub selected_plugin : Value
  pub is_loading : Bool
  pub is_form_open : Bool
  pub edit_form_data : Value
  pub notification : Notification
  pub confirmation : Confirmation
  pub page : Plugins.View

abbrev pub empty_form : Value
empty_form =
    object (("name", str "") ∷ ("description", str "") ∷ ("provider", str "Collection") ∷ [])

abbrev pub initial : Plugins.View → View
initial page = record {
  selected_plugin = null;
  is_loading = false;
  is_form_open = false;
  edit_form_data = empty_form;
  notification = no_notification;
  confirmation = record { is_open = false; title = ""; message = ""; plugin_id = undefined };
  page = page;
}

unfoldable pub on_page : Ui Plugins.View (Unit {0}) → Ui View (Unit {0})
unfolding within
on_page = within (λ v. v.page) (λ p v. record v { page = p })

unfoldable pub set_loading : Bool → Ui View (Unit {0})
unfolding update
set_loading b = update λ v. record v { is_loading = b }

unfoldable pub select_plugin : Value → Ui View (Unit {0})
unfolding update
select_plugin plugin = update λ v. record v { selected_plugin = plugin }

unfoldable pub set_form_open : Bool → Ui View (Unit {0})
unfolding update
set_form_open b = update λ v. record v { is_form_open = b }

unfoldable pub show_notification : String → String → Kind → Ui View (Unit {0})
unfolding update
show_notification title message kind =
    update λ v. record v { notification = opened title message kind }

unfoldable pub close_notification : Ui View (Unit {0})
unfolding update
close_notification =
    update λ v. record v { notification = record v.notification { is_open = false } }

unfoldable pub fetch_plugin_details : String → Ui View (Unit {0})
unfolding io log_error show_notification set_loading select_plugin ◌>>=◌
fetch_plugin_details id =
    try_finally
      (try_catch (do set_loading true; plugin ← io (get_plugin_by_id id); select_plugin plugin)
        (λ e. do
          io (log_error "Error fetching plugin details:")
          show_notification "Error" "Failed to load plugin details" error))
      (set_loading false)

-- The effect of a new selection of the page.
unfoldable pub on_selection : View → Ui View (Unit {0})
unfolding truthy text fetch_plugin_details select_plugin
on_selection c =
    if truthy c.page.selected_plugin_id
    then fetch_plugin_details (text c.page.selected_plugin_id)
    else select_plugin null

unfoldable pub handle_add_plugin : Ui View (Unit {0})
unfolding update set_form_open ◌>>=◌
handle_add_plugin = do update (λ v. record v { edit_form_data = empty_form }); set_form_open true

-- The effect of `isCreatingNew`.
unfoldable pub on_creating : View → Ui View (Unit {0})
unfolding handle_add_plugin
on_creating c = when c.page.has_temp_plugin handle_add_plugin

unfoldable pub show_delete_confirmation : Value → Ui View (Unit {0})
unfolding update get get? text ◌>>=◌
show_delete_confirmation plugin = do
  name ← lift (get "name" plugin)
  update (λ v. record v {
    confirmation = record {
      is_open = true;
      title = "Delete Plugin";
      message =
          "Are you sure you want to delete the plugin \""
          <> text name
          <> "\"? This action cannot be undone.";
      plugin_id = get? "id" plugin;
    };
  })

unfoldable pub close_confirmation : Ui View (Unit {0})
unfolding update
close_confirmation =
    update λ v. record v { confirmation = record v.confirmation { is_open = false } }

-- The selected plugin is there, so its properties can be read.
unfoldable pub handle_edit_plugin : View → Ui View (Unit {0})
unfolding update set_form_open truthy get? ◌>>=◌
handle_edit_plugin c = when (truthy c.selected_plugin) do
  update (λ v. record v {
    edit_form_data = object (
        ("name", get? "name" c.selected_plugin)
        ∷ ("description", get? "description" c.selected_plugin)
        ∷ ("provider", get? "provider" c.selected_plugin)
        ∷ []);
  })
  set_form_open true

-- The handlers that a render of the state `c` has made.
module _ (c : View) where
  unfoldable pub handle_close_form : Ui View (Unit {0})
  unfolding set_form_open on_page set_temp ◌>>=◌
  handle_close_form = do set_form_open false; when c.page.has_temp_plugin (on_page (set_temp false))

  -- The request of a save, with what it reports.
  unfoldable pub save_plugin : Value → Ui View (Unit {0})
  unfolding io select_plugin show_notification on_page get get? truthy text ◌>>=◌
  save_plugin form_data =
      if truthy c.selected_plugin
      then (do
        updated_plugin ← io (update_plugin (text (get? "id" c.selected_plugin)) form_data)
        select_plugin updated_plugin
        show_notification "Success" "Plugin updated successfully" success)
      else do
        new_plugin ← io (create_plugin form_data)
        select_plugin new_plugin
        id ← lift (get "id" new_plugin)
        on_page (handle_select_plugin c.page id false)
        show_notification "Success" "Plugin created successfully" success

  unfoldable pub handle_save_plugin : Value → Ui View (Unit {0})
  unfolding save_plugin handle_close_form on_page set_loading io log_error show_notification ◌>>=◌
  handle_save_plugin form_data =
      try_finally
        (try_catch
          (do
            set_loading true
            save_plugin form_data
            handle_close_form
            on_page handle_plugin_change)
          (λ e. do
            io (log_error "Error saving plugin:")
            show_notification "Error" "Failed to save plugin" error))
        (set_loading false)

  unfoldable pub handle_confirm_delete : Ui View (Unit {0})
  unfolding select_plugin on_page close_confirmation set_loading show_notification io log_error
      truthy text ◌>>=◌
  handle_confirm_delete =
      if truthy c.confirmation.plugin_id
      then try_finally
          (try_catch
            (do
              set_loading true
              io (delete_plugin (text c.confirmation.plugin_id))
              show_notification "Success" "Plugin deleted successfully" success
              on_page (handle_select_plugin c.page (str "") false)
              select_plugin null
              on_page handle_plugin_change)
            (λ e. do
              io (log_error "Error deleting plugin:")
              show_notification "Error" "Failed to delete plugin" error))
          (do set_loading false; close_confirmation)
      else pure tt
