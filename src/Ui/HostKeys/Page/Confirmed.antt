-- ===== src/Ui/HostKeys/Page/Confirmed.antt =====
-- No key of a host is deleted that the user has not been asked about.
use agience.Base.{String, ◌<>◌, refl}
use agience.Js.Value.{Value}
use agience.World.{Call}
use agience.Client.{delete_call}
use agience.Trace.Sends.{Sends}
use agience.Services.HostKeys.{get_keys_for_host, generate_key_for_host, update_key, delete_key}
use agience.Html.{events}
use agience.Html.Events.{Each}
use agience.Ui.{Ui}
use agience.Ui.Dispatch.{run_all}
use agience.Ui.Dispatch.Sending.{UiSends, Each-UiSends}
use agience.Ui.Dispatch.Deletes.{Permitted, confirmed, permitted_rules}
use agience.Ui.KeyDetails.{Copied}
use agience.Ui.HostKeys.{View, id_or_empty, fetch_keys}
use agience.Ui.HostKeys
use agience.Ui.HostKeys.Handlers.{handle_submit_form, handle_confirm_delete}
use agience.Ui.HostKeys.Page.{
  Action, view_key, submit, confirm_delete, perform, page, show_delete_confirmation,
}
use agience.Ui.HostKeys.Page.Offered.{Allowed, Offered, page-Offered}

abbrev pub asked : String → View → Call
asked host_id c =
    delete_call ("/manage/host/" <> host_id <> "/key/" <> id_or_empty c.confirmation.key_id)

abbrev pub KeyPermitted : String → View → Call → Type 0
KeyPermitted host_id c = Permitted c.confirmation.is_open c.is_loading (asked host_id c)

module _ (host_id : String) (c : View) where
  abbrev SendsPermitted : {A : Type 0} → Ui View A → Type 0
  SendsPermitted m = UiSends (KeyPermitted host_id c) m

  get_keys_for_host-Permitted :
      (id : String) → Sends (λ w. w) (KeyPermitted host_id c) (get_keys_for_host id)
  unfolding get_keys_for_host
  get_keys_for_host-Permitted id = search permitted_rules depth 16

  generate_key_for_host-Permitted :
      (id : String) (v : Value)
      → Sends (λ w. w) (KeyPermitted host_id c) (generate_key_for_host id v)
  unfolding generate_key_for_host
  generate_key_for_host-Permitted id v = search permitted_rules depth 16

  update_key-Permitted :
      (id key : String) (v : Value) → Sends (λ w. w) (KeyPermitted host_id c) (update_key id key v)
  unfolding update_key
  update_key-Permitted id key v = search permitted_rules depth 16

  delete_key-Permitted :
      KeyPermitted host_id c (asked host_id c)
      → Sends
          (λ w. w)
          (KeyPermitted host_id c)
          (delete_key host_id (id_or_empty c.confirmation.key_id))
  unfolding delete_key
  delete_key-Permitted h = search permitted_rules depth 16

  fetch_keys-Permitted : (id : String) → SendsPermitted (fetch_keys id)
  unfolding fetch_keys
  fetch_keys-Permitted id = search (permitted_rules, get_keys_for_host-Permitted) depth 16

  handle_submit_form-Permitted : SendsPermitted (handle_submit_form host_id c)
  unfolding handle_submit_form
  handle_submit_form-Permitted =
      search
        (
          permitted_rules, fetch_keys-Permitted, generate_key_for_host-Permitted,
          update_key-Permitted,
        )
        depth 16

  handle_confirm_delete-Permitted :
      KeyPermitted host_id c (asked host_id c) → SendsPermitted (handle_confirm_delete host_id c)
  unfolding handle_confirm_delete
  handle_confirm_delete-Permitted h =
      search (permitted_rules, fetch_keys-Permitted, delete_key-Permitted) depth 16

  perform-Permitted : (a : Action) → Allowed c a → SendsPermitted (perform host_id c a)
  unfolding perform HostKeys.handle_view_key HostKeys.handle_edit_key HostKeys.handle_open_form
      HostKeys.handle_input_change HostKeys.handle_close_form HostKeys.close_notification
      HostKeys.close_confirmation HostKeys.handle_close_key_details_modal show_delete_confirmation
  perform-Permitted (view_key key) h = search permitted_rules depth 8
  perform-Permitted submit h = handle_submit_form-Permitted
  perform-Permitted confirm_delete (open', idle) =
      handle_confirm_delete-Permitted (confirmed open' idle refl)
  perform-Permitted a h = search permitted_rules depth 8

-- Whatever the state of the page of a host's keys, an event of what is shown takes one action at
-- most, and only where the state allows it: the keys that can be shown, edited or deleted are those
-- of the list, and a click on a button of a row does not show the row's key as well; a new key can
-- be asked for only while nothing is loading; the form is used only while it is open, and a
-- notification is closed only while it is open; a deletion is confirmed or cancelled only while its
-- dialog is open and nothing is loading; and the key details are closed and copied only while they
-- are open for a key. And whatever the handlers are answered, they send no DELETE request but the
-- one for the key of the open dialog.
pub keys_page-Confirmed :
    (date_text : Value → String) (copied : Copied) (host_id : String) (c : View)
    → Each (Offered c) (events (page date_text copied c))
      × Each
          (λ acts. UiSends (KeyPermitted host_id c) (run_all (perform host_id c) acts))
          (events (page date_text copied c))
keys_page-Confirmed date_text copied host_id c = (
  page-Offered date_text copied c,
  Each-UiSends (perform host_id c) (perform-Permitted host_id c) (events (page date_text copied c))
      (page-Offered date_text copied c),
)
