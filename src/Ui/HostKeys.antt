-- ===== src/Ui/HostKeys.antt =====
-- authority/manage-ui/src/components/hosts/HostKeys.tsx
pub mod Deletion
pub mod Saving
pub mod Handlers
pub mod Page
use agience.Base.{
  String, Bool, true, false, not, Option, none, some, List, [], ◌∷◌, ◌==◌, if◌then◌else◌,
}
use agience.Js.Value.{Value, null, bool, str, end, field, get, get?, object, spread}
use agience.Js.Exec.{pure, lift, try_catch, try_finally, ◌>>=◌, ◌>>◌}
use agience.World.{log_error}
use agience.Ui.{Ui, update, io, Kind, error, Notification, no_notification, opened}
use agience.Services.Hosts.{get_host_by_id}
use agience.Services.HostKeys.{get_keys_for_host}

-- `type: 'danger' | 'warning' | 'info'`
pub data Severity : Type 0 where
  danger : Severity
  caution : Severity
  notice : Severity

-- `key_id` is absent until a key is to be deleted.
pub record Confirmation : Type 0 where
  pub is_open : Bool
  pub title : String
  pub message : String
  pub key_id : Option String
  pub severity : Severity

-- Absent values of `host`, `editing_key` and `selected_key` are `null`.
pub record View : Type 0 where
  pub host : Value
  pub keys : List Value
  pub is_loading : Bool
  pub notification : Notification
  pub confirmation : Confirmation
  pub is_form_open : Bool
  pub form_data : Value
  pub editing_key : Value
  pub selected_key : Value
  pub is_key_details_modal_open : Bool

abbrev pub empty_form : Value
empty_form = object (("name", str "") ∷ ("isActive", bool true) ∷ [])

abbrev pub initial : View
initial = record {
  host = null;
  keys = [];
  is_loading = false;
  notification = no_notification;
  confirmation = record {
    is_open = false;
    title = "";
    message = "";
    key_id = none;
    severity = danger;
  };
  is_form_open = false;
  form_data = empty_form;
  editing_key = null;
  selected_key = null;
  is_key_details_modal_open = false;
}

unfoldable pub set_loading : Bool → Ui View (Unit {0})
unfolding update
set_loading b = update λ v. record v { is_loading = b }

unfoldable pub show_notification : String → String → Kind → Ui View (Unit {0})
unfolding update
show_notification title message kind =
    update λ v. record v { notification = opened title message kind }

unfoldable pub close_notification : Ui View (Unit {0})
unfolding update
close_notification =
    update λ v. record v { notification = record v.notification { is_open = false } }

unfoldable pub show_confirmation : String → String → String → Severity → Ui View (Unit {0})
unfolding update
show_confirmation title message key_id severity = update λ v. record v {
  confirmation = record {
    is_open = true;
    title = title;
    message = message;
    key_id = some key_id;
    severity = severity;
  };
}

unfoldable pub close_confirmation : Ui View (Unit {0})
unfolding update
close_confirmation =
    update λ v. record v { confirmation = record v.confirmation { is_open = false } }

-- The handlers of a page for the host `host_id`, which is empty if none is selected.
module _ (host_id : String) where
  unfoldable pub fetch_host_details : Ui View (Unit {0})
  unfolding update io log_error show_notification ◌>>=◌
  fetch_host_details =
      if host_id == ""
      then pure tt
      else try_catch (do host ← io (get_host_by_id host_id); update (λ v. record v { host = host }))
          (λ e. do
            io (log_error "Error fetching host details:")
            show_notification "Error" "Failed to load host details" error)

  unfoldable pub fetch_keys : Ui View (Unit {0})
  unfolding update io log_error set_loading show_notification ◌>>=◌
  fetch_keys =
      if host_id == ""
      then pure tt
      else try_finally
          (try_catch
            (do
              set_loading true
              keys ← io (get_keys_for_host host_id)
              update (λ v. record v { keys = keys }))
            (λ e. do
              io (log_error "Error fetching keys:")
              show_notification "Error" "Failed to load keys" error))
          (set_loading false)

  -- What the effect starts for a host: neither fetch waits for the other, and here they run one
  -- after another.
  unfoldable pub on_host : Ui View (Unit {0})
  unfolding fetch_host_details fetch_keys
  on_host = if host_id == "" then pure tt else do fetch_host_details; fetch_keys

-- What the effect resets when the component goes or its host changes.
unfoldable pub clean_up : Ui View (Unit {0})
unfolding update
clean_up = update λ v. record v {
  keys = [];
  host = null;
  is_form_open = false;
  editing_key = null;
  selected_key = null;
  is_key_details_modal_open = false;
}

-- The checkbox is the one input of its type; the name is the input's.
unfoldable pub handle_input_change : String → Value → Ui View (Unit {0})
unfolding update spread
handle_input_change name value =
    update λ v. record v { form_data = spread v.form_data (field name value end) }

unfoldable pub handle_open_form : Ui View (Unit {0})
unfolding update ◌>>=◌
handle_open_form = do
  update (λ v. record v { form_data = empty_form })
  update (λ v. record v { editing_key = null })
  update (λ v. record v { is_form_open = true })

-- `typeof v === 'boolean' ? v : false`
abbrev pub boolean_or_false : Value → Value
boolean_or_false (bool b) = bool b
boolean_or_false v = bool false

unfoldable pub handle_edit_key : Value → Ui View (Unit {0})
unfolding update get get? ◌>>=◌
handle_edit_key key = do
  is_active ← lift (get "isActive" key)
  update (λ v. record v {
    form_data = object (("name", get? "name" key) ∷ ("isActive", boolean_or_false is_active) ∷ []);
  })
  update (λ v. record v { editing_key = key })
  update (λ v. record v { is_form_open = true })

unfoldable pub handle_close_form : Ui View (Unit {0})
unfolding update ◌>>=◌
handle_close_form = do
  update (λ v. record v { is_form_open = false })
  update (λ v. record v { editing_key = null })

unfoldable pub handle_view_key : Value → Ui View (Unit {0})
unfolding update ◌>>=◌
handle_view_key key = do
  update (λ v. record v { selected_key = key })
  update (λ v. record v { is_key_details_modal_open = true })

unfoldable pub handle_close_key_details_modal : Ui View (Unit {0})
unfolding update ◌>>=◌
handle_close_key_details_modal = do
  update (λ v. record v { is_key_details_modal_open = false })
  update (λ v. record v { selected_key = null })

-- `!hostId || !confirmation.keyId`
abbrev pub present : Option String → Bool
present none = false
present (some id) = not (id == "")

abbrev pub id_or_empty : Option String → String
id_or_empty none = ""
id_or_empty (some id) = id
