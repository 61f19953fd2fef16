-- ===== src/Ui/Authorizers.antt =====
-- authority/manage-ui/src/components/settings/AuthorizersTab.tsx, in the page of pages/Settings.tsx,
-- whose `handleAuthorizersChange` is its prop.
pub mod Agreement
pub mod Handlers
pub mod FormPage
pub mod Page
use agience.Base.{String, Bool, true, false, List, [], ◌∷◌, ◌<>◌, if◌then◌else◌}
use agience.Js.Value.{Value, undefined, null, str, get, get?, truthy, text}
use agience.Js.Exec.{lift, try_catch, try_finally, when, ◌>>=◌, ◌>>◌}
use agience.World.{log_error}
use agience.Ui.{Ui, update, io, Kind, error, Notification, no_notification, opened, within}
use agience.Services.Joined.{get_authorizer_with_connections}
use agience.Services.Authorizers.{get_all_authorizers}
use agience.Pages.Settings
use agience.Pages.Settings.{handle_authorizers_change}

-- The `type` of the confirmation is always `danger`. Its id is absent at first.
pub record Confirmation : Type 0 where
  pub is_open : Bool
  pub title : String
  pub message : String
  pub authorizer_id : Value

-- The selection is `null` or an id, and the selected authorizer `null` until it is fetched.
pub record View : Type 0 where
  pub authorizers : List Value
  pub selected_authorizer_id : Value
  pub selected_authorizer : Value
  pub is_loading : Bool
  pub is_form_open : Bool
  pub has_temp_authorizer : Bool
  pub notification : Notification
  pub confirmation : Confirmation
  pub page : Settings.View

abbrev pub initial : Settings.View → View
initial page = record {
  authorizers = [];
  selected_authorizer_id = null;
  selected_authorizer = null;
  is_loading = false;
  is_form_open = false;
  has_temp_authorizer = false;
  notification = no_notification;
  confirmation = record { is_open = false; title = ""; message = ""; authorizer_id = undefined };
  page = page;
}

unfoldable pub set_loading : Bool → Ui View (Unit {0})
unfolding update
set_loading b = update λ v. record v { is_loading = b }

unfoldable pub select_id : Value → Ui View (Unit {0})
unfolding update
select_id id = update λ v. record v { selected_authorizer_id = id }

unfoldable pub select_authorizer : Value → Ui View (Unit {0})
unfolding update
select_authorizer authorizer = update λ v. record v { selected_authorizer = authorizer }

unfoldable pub show_notification : String → String → Kind → Ui View (Unit {0})
unfolding update
show_notification title message kind =
    update λ v. record v { notification = opened title message kind }

unfoldable pub close_notification : Ui View (Unit {0})
unfolding update
close_notification =
    update λ v. record v { notification = record v.notification { is_open = false } }

unfoldable pub on_page : Ui Settings.View (Unit {0}) → Ui View (Unit {0})
unfolding within
on_page = within (λ v. v.page) (λ p v. record v { page = p })

-- `data.length > 0`
abbrev pub has_any : List Value → Bool
has_any [] = false
has_any (_ ∷ _) = true

unfoldable pub fetch_authorizers : Ui View (Unit {0})
unfolding update io log_error show_notification set_loading on_page handle_authorizers_change ◌>>=◌
fetch_authorizers =
    try_finally
      (try_catch
        (do
          set_loading true
          data' ← io get_all_authorizers
          update (λ v. record v { authorizers = data' })
          on_page (handle_authorizers_change (has_any data')))
        (λ e. do
          io (log_error "Error fetching authorizers:")
          show_notification "Error" "Failed to load authorizers" error))
      (set_loading false)

-- The answer of `getAuthorizerWithConnections` is always an object.
unfoldable pub fetch_authorizer_details : String → Ui View (Unit {0})
unfolding io log_error show_notification set_loading select_authorizer get? ◌>>=◌
fetch_authorizer_details id =
    try_finally
      (try_catch
        (do
          set_loading true
          answer ← io (get_authorizer_with_connections id)
          select_authorizer (get? "authorizer" answer))
        (λ e. do
          io (log_error "Error fetching authorizer details:")
          show_notification "Error" "Failed to load authorizer details" error))
      (set_loading false)

-- The effect of the mount.
unfoldable pub on_mount : Ui View (Unit {0})
unfolding fetch_authorizers
on_mount = fetch_authorizers

-- The effect of a new selection.
unfoldable pub on_selection : View → Ui View (Unit {0})
unfolding truthy text fetch_authorizer_details select_authorizer
on_selection c =
    if truthy c.selected_authorizer_id
    then fetch_authorizer_details (text c.selected_authorizer_id)
    else select_authorizer null

-- What happens when the page shows the tab, `{activeTab === 'authorizers' && <AuthorizersTab />}`:
-- each time it is a new component, whose cells are as at first, and both effects run.
unfoldable pub open_tab : View → Ui View (Unit {0})
unfolding update on_mount on_selection ◌>>=◌
open_tab c = do update (λ v. initial v.page); on_mount; on_selection (initial c.page)

unfoldable pub show_delete_confirmation : Value → Ui View (Unit {0})
unfolding update get get? text ◌>>=◌
show_delete_confirmation authorizer = do
  name ← lift (get "name" authorizer)
  update (λ v. record v {
    confirmation = record {
      is_open = true;
      title = "Delete Authorizer";
      message =
          "Are you sure you want to delete the authorizer \""
          <> text name
          <> "\"? This action cannot be undone.";
      authorizer_id = get? "id" authorizer;
    };
  })

unfoldable pub close_confirmation : Ui View (Unit {0})
unfolding update
close_confirmation =
    update λ v. record v { confirmation = record v.confirmation { is_open = false } }

unfoldable pub handle_select_authorizer : String → Ui View (Unit {0})
unfolding select_id
handle_select_authorizer id = select_id (str id)

unfoldable pub handle_add_authorizer : Ui View (Unit {0})
unfolding update select_id select_authorizer ◌>>=◌
handle_add_authorizer = do
  select_id null
  select_authorizer null
  update (λ v. record v { is_form_open = true })
  update (λ v. record v { has_temp_authorizer = true })

unfoldable pub handle_edit_authorizer : View → Ui View (Unit {0})
unfolding update truthy
handle_edit_authorizer c =
    when (truthy c.selected_authorizer) (update (λ v. record v { is_form_open = true }))

unfoldable pub handle_close_form : Ui View (Unit {0})
unfolding update ◌>>=◌
handle_close_form = do
  update (λ v. record v { is_form_open = false })
  update (λ v. record v { has_temp_authorizer = false })
