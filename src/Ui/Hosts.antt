-- ===== src/Ui/Hosts.antt =====
-- authority/manage-ui/src/components/hosts/HostDetailsTab.tsx and its HostModal.tsx, whose `useState`
-- cells stand in one record: the tab always has its modal mounted.
pub mod Closing
pub mod Handlers
use agience.Base.{String, Bool, true, false, Option, none, some, List, [], ◌∷◌, ◌++◌, if◌then◌else◌}
use agience.Js.Value.{
  Value, undefined, null, str, obj, end, field, get?, truthy, or_else, array, object, spread,
}
use agience.Js.Exec.{Result, ok, thrown, try_catch, try_finally, ◌>>=◌, ◌>>◌}
use agience.World.{log_error}
use agience.Ui.{Ui, update, io}
use agience.Js.Blank.{lacks_text}
use agience.Services.Hosts.{get_all_hosts}

pub record View : Type 0 where
  pub hosts : List Value
  pub is_loading : Bool
  pub error_message : Option String
  pub is_modal_open : Bool
  pub selected_host : Value
  pub is_editing : Bool
  pub is_delete_confirm_open : Bool
  pub host_to_delete : Value
  pub success_message : Option String
  -- the cells of the modal
  pub form_data : Value
  pub errors : Value
  pub is_saving : Bool

-- `user?.profile?.sub || ''`
abbrev pub subject : Value → Value
subject user = or_else (get? "sub" (get? "profile" user)) (str "")

abbrev pub initial : Value → View
initial user = record {
  hosts = [];
  is_loading = true;
  error_message = none;
  is_modal_open = false;
  selected_host = null;
  is_editing = false;
  is_delete_confirm_open = false;
  host_to_delete = null;
  success_message = none;
  form_data = object (
      ("name", str "")
      ∷ ("description", str "")
      ∷ ("operatorId", subject user)
      ∷ ("scopes", array (str "connect" ∷ []))
      ∷ []);
  errors = object [];
  is_saving = false;
}

unfoldable pub fetch_hosts : Ui View (Unit {0})
unfolding update io log_error ◌>>=◌
fetch_hosts =
    try_finally
      (try_catch
        (do
          update (λ v. record v { is_loading = true })
          data' ← io get_all_hosts
          update (λ v. record v { hosts = data' })
          update (λ v. record v { error_message = none }))
        (λ err. do
          io (log_error "Error fetching hosts:")
          update
              (λ v. record v { error_message = some "Failed to load hosts. Please try again." })))
      (update (λ v. record v { is_loading = false }))

unfoldable pub handle_add_host : Ui View (Unit {0})
unfolding update ◌>>=◌
handle_add_host = do
  update (λ v. record v { selected_host = null })
  update (λ v. record v { is_editing = false })
  update (λ v. record v { is_modal_open = true })

unfoldable pub handle_edit_host : Value → Ui View (Unit {0})
unfolding update ◌>>=◌
handle_edit_host host = do
  update (λ v. record v { selected_host = host })
  update (λ v. record v { is_editing = true })
  update (λ v. record v { is_modal_open = true })

unfoldable pub handle_delete_click : Value → Ui View (Unit {0})
unfolding update ◌>>=◌
handle_delete_click host = do
  update (λ v. record v { host_to_delete = host })
  update (λ v. record v { is_delete_confirm_open = true })

unfoldable pub handle_close_modal : Ui View (Unit {0})
unfolding update ◌>>=◌
handle_close_modal = do
  update (λ v. record v { is_modal_open = false })
  update (λ v. record v { selected_host = null })

-- The callback of the timers, three seconds after a success.
unfoldable pub on_timeout : Ui View (Unit {0})
unfolding update
on_timeout = update λ v. record v { success_message = none }

-- The effect of the modal: new data of a host, or a new user.
unfoldable pub on_initial_data : Value → Value → Ui View (Unit {0})
unfolding update spread truthy get?
on_initial_data initial_data user = update λ v. record v {
  form_data =
      if truthy initial_data
      then spread initial_data
          (field "operatorId" (or_else (get? "operatorId" initial_data) (subject user)) end)
      else object (
          ("name", str "")
          ∷ ("description", str "")
          ∷ ("operatorId", subject user)
          ∷ ("scopes", array (str "" ∷ []))
          ∷ []);
}

-- One message for each field that is not filled in, in this order.
abbrev pub messages : Bool → Bool → Value
messages no_name no_description = object (
    (if no_name then ("name", str "Host name is required") ∷ [] else [])
    ++ (if no_description then ("description", str "Description is required") ∷ [] else []))

abbrev pub collect : Result Bool → Result Bool → Result Value
collect (thrown e) _ = thrown e
collect (ok _) (thrown e) = thrown e
collect (ok no_name) (ok no_description) = ok (messages no_name no_description)

-- `!description?.trim()`
abbrev pub lacks_optional_text : Value → Result Bool
lacks_optional_text undefined = ok true
lacks_optional_text null = ok true
lacks_optional_text v = lacks_text v

unfoldable pub find_errors : Value → Result Value
find_errors form =
    collect (lacks_text (get? "name" form)) (lacks_optional_text (get? "description" form))

-- `Object.keys(newErrors).length === 0`
abbrev pub is_empty : Value → Bool
is_empty (obj (field _ _ _)) = false
is_empty _ = true
