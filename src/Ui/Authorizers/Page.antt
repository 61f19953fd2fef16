-- ===== src/Ui/Authorizers/Page.antt =====
-- authority/manage-ui/src/components/settings/AuthorizersTab.tsx
-- What the tab shows, and what its handlers do. An id stands by its text; `date_text` is what
-- `new Date(v).toLocaleDateString()` gives.
pub mod Confirmed
use agience.Base.{String, true, false, List, [], ◌∷◌, if◌then◌else◌}
use agience.Js.Value.{Value, truthy, text}
use agience.Js.Exec.{pure, lift, when, ◌>>=◌}
use agience.Html.{on_click, Html, ◌&◌, txt, el}
use agience.Ui.{Ui}
use agience.Ui.Common.{confirmation_modal, notification_modal}
use agience.Ui.Forms
use agience.Ui.Forms.Authorizer.{rules}
use agience.Ui.Details.{authorizer_details}
use agience.Ui.Lists.{ListProps, authorizer_list}
use agience.Ui.Authorizers.{
  View, close_notification, close_confirmation, show_delete_confirmation, handle_select_authorizer,
  handle_add_authorizer, handle_edit_authorizer, handle_close_form,
}
use agience.Ui.Authorizers.Handlers.{handle_save_authorizer, handle_confirm_delete}
use agience.Ui.Authorizers.FormPage.{authorizer_form}

-- The handlers of the elements. The id is the value of the field `id`; `change_form` is one of the
-- form's own.
pub data Action : Type 0 where
  select : Value → Action
  add_authorizer : Action
  change_form : String → Value → Action
  submit_form : Action
  close_form : Action
  edit_selected : Action
  ask_delete : Value → Action
  close_notice : Action
  cancel_delete : Action
  confirm_delete : Action

-- What a submission of the form with the state `f` does to the tab; its errors are the form's own.
unfoldable pub submit : Forms.View → View → Ui View (Unit {0})
unfolding Forms.find_errors ◌>>=◌
submit f c = do
  new_errors ← lift (Forms.find_errors rules f.form_data)
  when (Forms.is_empty new_errors) (handle_save_authorizer c f.form_data)

-- What a handler of the render of `c` does, while the form has the state `f`.
unfoldable pub perform : Forms.View → View → Action → Ui View (Unit {0})
unfolding text
perform f c (select id) = handle_select_authorizer (text id)
perform f c add_authorizer = handle_add_authorizer
perform f c (change_form name v) = pure tt
perform f c submit_form = submit f c
perform f c close_form = handle_close_form
perform f c edit_selected = handle_edit_authorizer c
perform f c (ask_delete authorizer) = show_delete_confirmation authorizer
perform f c close_notice = close_notification
perform f c cancel_delete = close_confirmation
perform f c confirm_delete = handle_confirm_delete c

abbrev pub list_props : View → ListProps Action
list_props c = record {
  items = c.authorizers;
  selected = c.selected_authorizer_id;
  is_loading = c.is_loading;
  on_select = select;
  on_create = add_authorizer;
  has_temp = c.has_temp_authorizer;
}

unfoldable pub page : (Value → String) → Forms.View → View → Html Action
page date_text f c =
    let selected = c.selected_authorizer in
    el "div" [] (
      el "div" [] (authorizer_list (list_props c))
      & el "div" [] (
          if c.is_form_open
          then authorizer_form submit_form close_form change_form c.is_loading (truthy selected) f
          else if truthy selected
          then authorizer_details date_text edit_selected (ask_delete selected) selected
          else el "div" [] (
              el "p" [] (txt "Select an authorizer from the list or create a new one")
              & el "button" (on_click false add_authorizer ∷ []) (txt "Create New Authorizer")))
      & notification_modal c.notification close_notice
      & confirmation_modal c.confirmation.is_open cancel_delete confirm_delete
          (txt c.confirmation.title) (txt c.confirmation.message) "Delete" "Cancel" c.is_loading)
