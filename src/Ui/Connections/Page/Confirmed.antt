-- ===== src/Ui/Connections/Page/Confirmed.antt =====
-- What a user can do on the tab of the connections, and what that sends.
use mathlib.Core.List.{Memᴰ}
use agience.Base.{String, true, false, Option, none, some, List, [], ◌<>◌, ◌≡◌, refl}
use agience.Js.Value.{Value, get, truthy, text}
use agience.Js.Exec.{ok}
use agience.World.{Call}
use agience.Client.{delete_call}
use agience.Services.Joined.{get_connections_with_authorizers, get_connection_with_authorizer}
use agience.Services.Authorizers.{get_all_authorizers, get_authorizer_by_id}
use agience.Services.Connections.{
  get_all_connections, get_connection_by_id, create_connection, update_connection,
  delete_connection,
}
use agience.Html.{events}
use agience.Html.Events.{Each, Fires, Fires-map, Takes, inert, takes, takes_rules, events-Fires}
use agience.Ui.{Ui}
use agience.Ui.Common.Dialogs.{confirmation_modal-Fires, notification_modal-Fires}
use agience.Ui.Dispatch.{run_all}
use agience.Ui.Dispatch.Sending.{UiSends, Each-UiSends}
use agience.Ui.Dispatch.Deletes.{Permitted, confirmed, permitted_rules}
use agience.Ui.Forms.Parts.{error_note, labelled_field, form_buttons}
use agience.Ui.ConnectionForm
use agience.Ui.Details.{details_head, created, connection_details}
use agience.Ui.Lists.{connection_list}
use agience.Ui.Lists.Offers
use agience.Ui.Lists.Offers.{Offered, connection_list-Fires}
use agience.Ui.Connections
use agience.Ui.Connections.{View, fetch_connections, fetch_connection_details}
use agience.Ui.Connections.Handlers.{save_connection, handle_save_connection, handle_confirm_delete}
use agience.Ui.Connections.FormPage.{option, authorizer_note, connection_form}
use agience.Ui.Connections.Page.{
  Action, select, add_connection, change_form, submit_form, close_form, edit_selected, ask_delete,
  close_notice, cancel_delete, confirm_delete, submit, perform, list_props, page,
}

-- What has to hold where an action can be taken.
abbrev pub Allowed : View → Action → Type 0
Allowed c (select id) =
    (c.is_loading ≡ false) × ((item : Value) × Memᴰ item c.connections × (get "id" item ≡ ok id))
Allowed c add_connection = Unit
Allowed c (change_form name v) = (c.is_form_open ≡ true) × (c.is_loading ≡ false)
Allowed c submit_form = c.is_form_open ≡ true
Allowed c close_form = (c.is_form_open ≡ true) × (c.is_loading ≡ false)
Allowed c edit_selected = (c.is_form_open ≡ false) × (truthy c.selected_connection ≡ true)
Allowed c (ask_delete connection) =
    (c.is_form_open ≡ false)
    × (truthy c.selected_connection ≡ true)
    × (connection ≡ c.selected_connection)
Allowed c close_notice = c.notification.is_open ≡ true
Allowed c cancel_delete = (c.confirmation.is_open ≡ true) × (c.is_loading ≡ false)
Allowed c confirm_delete = (c.confirmation.is_open ≡ true) × (c.is_loading ≡ false)

module _ (c : View) where
  list-Takes : (acts : List Action) → Offered (list_props c) acts → Takes (Allowed c) acts
  list-Takes acts (Offers.inert e) = inert e
  list-Takes acts (Offers.creates free e) = takes add_connection e tt
  list-Takes acts (Offers.selects item id loaded m found e) =
      takes (select id) e (loaded, (item, m, found))

  list-Fires : Fires (Takes (Allowed c)) [] (connection_list (list_props c))
  list-Fires = Fires-map _ list-Takes (connection_list-Fires (list_props c))

  note-Fires : (found : Option Value) → Fires (Takes (Allowed c)) [] (authorizer_note found)
  unfolding authorizer_note
  note-Fires none = search takes_rules
  note-Fires (some a) = search takes_rules depth 16

  option-Fires : (authorizer : Value) → Fires (Takes (Allowed c)) [] (option authorizer)
  unfolding option
  option-Fires authorizer = search takes_rules depth 16

  form-Fires :
      (f : ConnectionForm.View)
      → c.is_form_open ≡ true
      → Fires (Takes (Allowed c)) [] (
          connection_form submit_form close_form change_form c.is_loading
            (truthy c.selected_connection)
            c.authorizers
            f)
  unfolding connection_form error_note labelled_field form_buttons
  form-Fires f open' = search (takes_rules, note-Fires, option-Fires) depth 24

  details-Fires :
      (date_text : Value → String)
      → c.is_form_open ≡ false
      → truthy c.selected_connection ≡ true
      → Fires (Takes (Allowed c)) [] (
          connection_details date_text edit_selected
            (ask_delete c.selected_connection)
            c.selected_connection)
  unfolding connection_details details_head created
  details-Fires date_text closed chosen =
      let shown : Allowed c (ask_delete c.selected_connection) = (closed, chosen, refl) in
      search takes_rules depth 20 fits 6000

  page-Fires :
      (date_text : Value → String) (f : ConnectionForm.View)
      → Fires (Takes (Allowed c)) [] (page date_text f c)
  unfolding page
  page-Fires date_text f =
      search
        (
          takes_rules, list-Fires, form-Fires, details-Fires, notification_modal-Fires,
          confirmation_modal-Fires,
        )
        depth 20

abbrev pub ConnectionPermitted : View → Call → Type 0
ConnectionPermitted c =
    Permitted c.confirmation.is_open c.is_loading
      (delete_call ("/manage/connection/" <> text c.confirmation.connection_id))

module _ (c : View) where
  abbrev SendsPermitted : {A : Type 0} → Ui View A → Type 0
  SendsPermitted m = UiSends (ConnectionPermitted c) m

  fetch_connections-Permitted : SendsPermitted fetch_connections
  unfolding fetch_connections get_connections_with_authorizers get_all_connections
      get_all_authorizers
  fetch_connections-Permitted = search permitted_rules depth 20

  fetch_connection_details-Permitted : (id : String) → SendsPermitted (fetch_connection_details id)
  unfolding fetch_connection_details get_connection_with_authorizer get_connection_by_id
      get_authorizer_by_id Connections.select_connection
  fetch_connection_details-Permitted id = search permitted_rules depth 24

  save_connection-Permitted : (form : Value) → SendsPermitted (save_connection c form)
  unfolding save_connection create_connection update_connection
  save_connection-Permitted form = search permitted_rules depth 20

  submit-Permitted : (f : ConnectionForm.View) → SendsPermitted (submit f c)
  unfolding submit handle_save_connection
  submit-Permitted f =
      search
        (
          permitted_rules, fetch_connections-Permitted, fetch_connection_details-Permitted,
          save_connection-Permitted,
        )
        depth 20

  handle_confirm_delete-Permitted :
      c.confirmation.is_open ≡ true
      → c.is_loading ≡ false
      → SendsPermitted (handle_confirm_delete c)
  unfolding handle_confirm_delete delete_connection
  handle_confirm_delete-Permitted h k =
      let asked : ConnectionPermitted c _ = confirmed h k refl in
      search (permitted_rules, fetch_connections-Permitted) depth 20

  perform-Permitted :
      (f : ConnectionForm.View) (a : Action) → Allowed c a → SendsPermitted (perform f c a)
  unfolding perform Connections.handle_select_connection Connections.handle_add_connection
      Connections.handle_close_form Connections.handle_edit_connection
      Connections.show_delete_confirmation Connections.close_notification
      Connections.close_confirmation
  perform-Permitted f submit_form h = submit-Permitted f
  perform-Permitted f confirm_delete (h, k) = handle_confirm_delete-Permitted h k
  perform-Permitted f a h = search permitted_rules depth 12

-- Whatever the state of the tab of the connections and of its form, an event of what is shown takes
-- one action at most, and only where the state allows it: a connection is selected by its id only
-- from the list, which has been loaded; the form is used only while it is open, and only the
-- selected connection is edited or deleted, while the form is closed; a notification is closed only
-- while it is open, and a deletion confirmed or cancelled only while its dialog is open and nothing
-- is loading. And whatever the handlers are answered, they send no DELETE request but the one for
-- the connection of the open dialog.
pub connections_page-Confirmed :
    (date_text : Value → String) (f : ConnectionForm.View) (c : View)
    → Each (Takes (Allowed c)) (events (page date_text f c))
      × Each
          (λ acts. UiSends (ConnectionPermitted c) (run_all (perform f c) acts))
          (events (page date_text f c))
connections_page-Confirmed date_text f c =
    let offered = events-Fires (page date_text f c) (page-Fires c date_text f) in
    (
      offered,
      Each-UiSends (perform f c) (perform-Permitted c f) (events (page date_text f c)) offered,
    )
