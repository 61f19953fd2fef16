-- ===== src/Ui/HostKeys/Page.antt =====
-- authority/manage-ui/src/components/hosts/HostKeys.tsx
-- What the component shows, and what its handlers do.
pub mod Offered
pub mod Confirmed
use agience.Base.{String, Bool, true, false, Option, none, some, List, [], ◌∷◌, ◌<>◌, if◌then◌else◌}
use agience.Js.Value.{Value, null, str, get, get?, truthy, text}
use agience.Js.Exec.{pure, lift, ◌>>=◌, ◌>>◌}
use agience.Html.{
  Attr, attr, value, on_click, on_change, on_submit, Html, ◌&◌, nothing, txt, child, el, show_if,
  of_field,
}
use agience.Ui.{Ui, update}
use agience.Ui.Common.{
  Accessor, call, button, badge, card, form_field, confirmation_modal, notification_modal,
  data_table,
}
use agience.Ui.KeyDetails.{Copied, key_details_modal}
use agience.Ui.HostKeys.{
  View, danger, close_notification, close_confirmation, handle_input_change, handle_open_form,
  handle_edit_key, handle_close_form, handle_view_key, handle_close_key_details_modal,
}
use agience.Ui.HostKeys.Handlers.{handle_submit_form, handle_confirm_delete}

-- The handlers of the elements. `copy` is one of the details' own.
pub data Action : Type 0 where
  view_key : Value → Action
  edit_key : Value → Action
  ask_delete : Value → Action
  open_form : Action
  change : String → Value → Action
  submit : Action
  close_form : Action
  close_notice : Action
  cancel_delete : Action
  confirm_delete : Action
  close_details : Action
  copy : String → String → Action

-- A `keyId` that counts as false is absent to the code that reads it.
abbrev pub given_id : Value → Option String
given_id v = if truthy v then some (text v) else none

-- The call of `showConfirmation` of the button "Delete"
unfoldable pub show_delete_confirmation : Value → Ui View (Unit {0})
unfolding update get get? truthy text ◌>>=◌
show_delete_confirmation key = do
  name ← lift (get "name" key)
  update (λ v. record v {
    confirmation = record {
      is_open = true;
      title = "Delete Key";
      message =
          "Are you sure you want to delete the key \""
          <> text name
          <> "\"? This action cannot be undone.";
      key_id = given_id (get? "id" key);
      severity = danger;
    };
  })

-- What a handler of the render of `c` does.
unfoldable pub perform : String → View → Action → Ui View (Unit {0})
perform host_id c (view_key key) = handle_view_key key
perform host_id c (edit_key key) = handle_edit_key key
perform host_id c (ask_delete key) = show_delete_confirmation key
perform host_id c open_form = handle_open_form
perform host_id c (change name v) = handle_input_change name v
perform host_id c submit = handle_submit_form host_id c
perform host_id c close_form = handle_close_form
perform host_id c close_notice = close_notification
perform host_id c cancel_delete = close_confirmation
perform host_id c confirm_delete = handle_confirm_delete host_id c
perform host_id c close_details = handle_close_key_details_modal
perform host_id c (copy text field) = pure tt

unfoldable pub key_actions : Value → Html Action
unfolding button
key_actions key = el "div" [] (
    button false false (on_click true (view_key key) ∷ []) (txt "View")
    & button false false (on_click true (edit_key key) ∷ []) (txt "Edit")
    & button false false (on_click true (ask_delete key) ∷ []) (txt "Delete"))

unfoldable pub columns : (Value → String) → List (String × Accessor Action)
unfolding badge
columns date_text =
    ("Name", call λ key. el "div" [] (el "div" [] (child (get? "name" key))))
    ∷ ("Created At", call λ key. el "div" [] (txt (date_text (get? "created_date" key))))
    ∷ (
      "Status",
      call λ key. badge (txt (if truthy (get? "isActive" key) then "Active" else "Inactive")),
    )
    ∷ ("Actions", call key_actions)
    ∷ []

unfoldable pub key_form : View → Html Action
unfolding card form_field button get? truthy
key_form c = card (if truthy c.editing_key then "Edit Key" else "Generate New Key") none (
    el "form" (on_submit submit ∷ []) (
      form_field "Name" "name" "" true (
        el "input"
          (attr "type" "text"
            ∷ attr "id" "name"
            ∷ attr "name" "name"
            ∷ value (get? "name" c.form_data)
            ∷ on_change (change "name")
            ∷ attr "required" ""
            ∷ [])
          nothing)
      & form_field "Status" "isActive" "" false (
          el "div" [] (
            el "input"
              (attr "type" "checkbox"
                ∷ attr "id" "isActive"
                ∷ attr "name" "isActive"
                ∷ value (get? "isActive" c.form_data)
                ∷ on_change (change "isActive")
                ∷ [])
              nothing
            & el "label" (attr "for" "isActive" ∷ []) (txt "Active")))
      & el "div" [] (
          button false false (attr "type" "button" ∷ on_click false close_form ∷ []) (txt "Cancel")
          & button c.is_loading false (attr "type" "submit" ∷ [])
              (txt (if truthy c.editing_key then "Update Key" else "Generate Key")))))

module _ (date_text : Value → String) (copied : Copied) where
  unfoldable pub page : View → Html Action
  unfolding button
  page c = el "div" [] (
      el "div" [] (
        el "h2" []
          (txt (if truthy c.host then "Keys for " <> text (get? "name" c.host) else "Host Keys"))
        & button false c.is_loading (on_click false open_form ∷ []) (txt "Generate New Key"))
      & show_if c.is_form_open (key_form c)
      & data_table (columns date_text) c.keys c.is_loading
          "No keys found for this host. Generate a new key to get started." (some view_key)
      & notification_modal c.notification close_notice
      & confirmation_modal c.confirmation.is_open cancel_delete confirm_delete
          (txt c.confirmation.title) (txt c.confirmation.message) "Delete" "Cancel" c.is_loading
      & key_details_modal date_text copied close_details copy c.is_key_details_modal_open
          c.selected_key)
