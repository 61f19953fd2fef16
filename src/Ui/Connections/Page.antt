-- ===== src/Ui/Connections/Page.antt =====
-- authority/manage-ui/src/components/settings/ConnectionsTab.tsx
-- What the tab shows, and what its handlers do. An id stands by its text; `date_text` is what
-- `new Date(v).toLocaleDateString()` gives.
pub mod Confirmed
use agience.Base.{String, true, false, List, [], ◌∷◌, if◌then◌else◌}
use agience.Js.Value.{Value, truthy, text}
use agience.Js.Exec.{pure, lift, when, ◌>>=◌}
use agience.Html.{on_click, Html, ◌&◌, txt, el}
use agience.Ui.{Ui}
use agience.Ui.Common.{confirmation_modal, notification_modal}
use agience.Ui.ConnectionForm
use agience.Ui.Details.{connection_details}
use agience.Ui.Lists.{ListProps, connection_list}
use agience.Ui.Connections.{
  View, close_notification, close_confirmation, show_delete_confirmation, handle_select_connection,
  handle_add_connection, handle_edit_connection, handle_close_form,
}
use agience.Ui.Connections.Handlers.{handle_save_connection, handle_confirm_delete}
use agience.Ui.Connections.FormPage.{connection_form}

-- The handlers of the elements. The id is the value of the field `id`; `change_form` is one of the
-- form's own.
pub data Action : Type 0 where
  select : Value → Action
  add_connection : Action
  change_form : String → Value → Action
  submit_form : Action
  close_form : Action
  edit_selected : Action
  ask_delete : Value → Action
  close_notice : Action
  cancel_delete : Action
  confirm_delete : Action

-- What a submission of the form with the state `f` does to the tab; its errors are the form's own.
unfoldable pub submit : ConnectionForm.View → View → Ui View (Unit {0})
unfolding ConnectionForm.find_errors ◌>>=◌
submit f c = do
  new_errors ← lift (ConnectionForm.find_errors f.form_data)
  when (ConnectionForm.is_empty new_errors) (handle_save_connection c f.form_data)

-- What a handler of the render of `c` does, while the form has the state `f`.
unfoldable pub perform : ConnectionForm.View → View → Action → Ui View (Unit {0})
unfolding text
perform f c (select id) = handle_select_connection (text id)
perform f c add_connection = handle_add_connection
perform f c (change_form name v) = pure tt
perform f c submit_form = submit f c
perform f c close_form = handle_close_form
perform f c edit_selected = handle_edit_connection c
perform f c (ask_delete connection) = show_delete_confirmation connection
perform f c close_notice = close_notification
perform f c cancel_delete = close_confirmation
perform f c confirm_delete = handle_confirm_delete c

abbrev pub list_props : View → ListProps Action
list_props c = record {
  items = c.connections;
  selected = c.selected_connection_id;
  is_loading = c.is_loading;
  on_select = select;
  on_create = add_connection;
  has_temp = c.has_temp_connection;
}

unfoldable pub page : (Value → String) → ConnectionForm.View → View → Html Action
page date_text f c =
    let selected = c.selected_connection in
    el "div" [] (
      el "div" [] (connection_list (list_props c))
      & el "div" [] (
          if c.is_form_open
          then connection_form submit_form close_form change_form c.is_loading (truthy selected)
              c.authorizers f
          else if truthy selected
          then connection_details date_text edit_selected (ask_delete selected) selected
          else el "div" [] (
              el "p" [] (txt "Select a connection from the list or create a new one")
              & el "button" (on_click false add_connection ∷ []) (txt "Create New Connection")))
      & notification_modal c.notification close_notice
      & confirmation_modal c.confirmation.is_open cancel_delete confirm_delete
          (txt c.confirmation.title) (txt c.confirmation.message) "Delete" "Cancel" c.is_loading)
