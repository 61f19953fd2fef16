-- ===== src/Ui/Authorizers/Page/Confirmed.antt =====
-- What a user can do on the tab of the authorizers, and what that sends.
use mathlib.Core.List.{Memᴰ}
use agience.Base.{String, Bool, true, false, List, [], ◌<>◌, ◌≡◌, refl}
use agience.Js.Value.{Value, get, truthy, text}
use agience.Js.Exec.{ok}
use agience.World.{Call}
use agience.Client.{delete_call}
use agience.Trace.Sends.{Sends-nothing}
use agience.Services.Joined.{get_authorizer_with_connections}
use agience.Services.Authorizers.{
  get_all_authorizers, get_authorizer_by_id, get_connections_for_authorizer, create_authorizer,
  update_authorizer, delete_authorizer,
}
use agience.Html.{events}
use agience.Html.Events.{Each, Fires, Fires-map, Takes, inert, takes, takes_rules, events-Fires}
use agience.Ui.{Ui, update, within}
use agience.Pages.Settings
use agience.Ui.Common.Dialogs.{confirmation_modal-Fires, notification_modal-Fires}
use agience.Ui.Dispatch.{run_all}
use agience.Ui.Dispatch.Sending.{UiSends, Each-UiSends}
use agience.Ui.Dispatch.Deletes.{Permitted, confirmed, permitted_rules}
use agience.Ui.Forms.Parts.{error_note, labelled_field, form_buttons}
use agience.Ui.Forms
use agience.Ui.Details.{details_head, created, authorizer_details}
use agience.Ui.Lists.{authorizer_list}
use agience.Ui.Lists.Offers
use agience.Ui.Lists.Offers.{Offered, authorizer_list-Fires}
use agience.Ui.Authorizers
use agience.Ui.Authorizers.{View, on_page, fetch_authorizers, fetch_authorizer_details}
use agience.Ui.Authorizers.Handlers.{save_authorizer, handle_save_authorizer, handle_confirm_delete}
use agience.Ui.Authorizers.FormPage.{type_option, authorizer_form}
use agience.Ui.Authorizers.Page.{
  Action, select, add_authorizer, change_form, submit_form, close_form, edit_selected, ask_delete,
  close_notice, cancel_delete, confirm_delete, submit, perform, list_props, page,
}

-- What has to hold where an action can be taken.
abbrev pub Allowed : View → Action → Type 0
Allowed c (select id) =
    (c.is_loading ≡ false) × ((item : Value) × Memᴰ item c.authorizers × (get "id" item ≡ ok id))
Allowed c add_authorizer = Unit
Allowed c (change_form name v) = (c.is_form_open ≡ true) × (c.is_loading ≡ false)
Allowed c submit_form = c.is_form_open ≡ true
Allowed c close_form = (c.is_form_open ≡ true) × (c.is_loading ≡ false)
Allowed c edit_selected = (c.is_form_open ≡ false) × (truthy c.selected_authorizer ≡ true)
Allowed c (ask_delete authorizer) =
    (c.is_form_open ≡ false)
    × (truthy c.selected_authorizer ≡ true)
    × (authorizer ≡ c.selected_authorizer)
Allowed c close_notice = c.notification.is_open ≡ true
Allowed c cancel_delete = (c.confirmation.is_open ≡ true) × (c.is_loading ≡ false)
Allowed c confirm_delete = (c.confirmation.is_open ≡ true) × (c.is_loading ≡ false)

module _ (c : View) where
  list-Takes : (acts : List Action) → Offered (list_props c) acts → Takes (Allowed c) acts
  list-Takes acts (Offers.inert e) = inert e
  list-Takes acts (Offers.creates free e) = takes add_authorizer e tt
  list-Takes acts (Offers.selects item id loaded m found e) =
      takes (select id) e (loaded, (item, m, found))

  list-Fires : Fires (Takes (Allowed c)) [] (authorizer_list (list_props c))
  list-Fires = Fires-map _ list-Takes (authorizer_list-Fires (list_props c))

  form-Fires :
      (f : Forms.View)
      → c.is_form_open ≡ true
      → Fires (Takes (Allowed c)) [] (
          authorizer_form submit_form close_form change_form c.is_loading
            (truthy c.selected_authorizer)
            f)
  unfolding authorizer_form type_option error_note labelled_field form_buttons
  form-Fires f open' = search takes_rules depth 24

  details-Fires :
      (date_text : Value → String)
      → c.is_form_open ≡ false
      → truthy c.selected_authorizer ≡ true
      → Fires (Takes (Allowed c)) [] (
          authorizer_details date_text edit_selected
            (ask_delete c.selected_authorizer)
            c.selected_authorizer)
  unfolding authorizer_details details_head created
  details-Fires date_text closed chosen =
      let shown : Allowed c (ask_delete c.selected_authorizer) = (closed, chosen, refl) in
      search takes_rules depth 20 fits 6000

  page-Fires :
      (date_text : Value → String) (f : Forms.View)
      → Fires (Takes (Allowed c)) [] (page date_text f c)
  unfolding page
  page-Fires date_text f =
      search
        (
          takes_rules, list-Fires, form-Fires, details-Fires, notification_modal-Fires,
          confirmation_modal-Fires,
        )
        depth 20

abbrev pub AuthorizerPermitted : View → Call → Type 0
AuthorizerPermitted c =
    Permitted c.confirmation.is_open c.is_loading
      (delete_call ("/manage/authorizer/" <> text c.confirmation.authorizer_id))

module _ (c : View) where
  abbrev SendsPermitted : {A : Type 0} → Ui View A → Type 0
  SendsPermitted m = UiSends (AuthorizerPermitted c) m

  on_page-Permitted :
      (has_any : Bool) → SendsPermitted (on_page (Settings.handle_authorizers_change has_any))
  unfolding Authorizers.on_page Settings.handle_authorizers_change within update
  on_page-Permitted has_any = Sends-nothing λ m. refl

  fetch_authorizers-Permitted : SendsPermitted fetch_authorizers
  unfolding fetch_authorizers get_all_authorizers
  fetch_authorizers-Permitted = search (permitted_rules, on_page-Permitted) depth 20

  fetch_authorizer_details-Permitted : (id : String) → SendsPermitted (fetch_authorizer_details id)
  unfolding fetch_authorizer_details get_authorizer_with_connections get_authorizer_by_id
      get_connections_for_authorizer Authorizers.select_authorizer
  fetch_authorizer_details-Permitted id = search permitted_rules depth 24

  save_authorizer-Permitted : (form : Value) → SendsPermitted (save_authorizer c form)
  unfolding save_authorizer create_authorizer update_authorizer
  save_authorizer-Permitted form = search permitted_rules depth 20

  submit-Permitted : (f : Forms.View) → SendsPermitted (submit f c)
  unfolding submit handle_save_authorizer
  submit-Permitted f =
      search
        (
          permitted_rules, fetch_authorizers-Permitted, fetch_authorizer_details-Permitted,
          save_authorizer-Permitted,
        )
        depth 20

  handle_confirm_delete-Permitted :
      c.confirmation.is_open ≡ true
      → c.is_loading ≡ false
      → SendsPermitted (handle_confirm_delete c)
  unfolding handle_confirm_delete delete_authorizer
  handle_confirm_delete-Permitted h k =
      let asked : AuthorizerPermitted c _ = confirmed h k refl in
      search (permitted_rules, fetch_authorizers-Permitted) depth 20

  perform-Permitted : (f : Forms.View) (a : Action) → Allowed c a → SendsPermitted (perform f c a)
  unfolding perform Authorizers.handle_select_authorizer Authorizers.handle_add_authorizer
      Authorizers.handle_close_form Authorizers.handle_edit_authorizer
      Authorizers.show_delete_confirmation Authorizers.close_notification
      Authorizers.close_confirmation
  perform-Permitted f submit_form h = submit-Permitted f
  perform-Permitted f confirm_delete (h, k) = handle_confirm_delete-Permitted h k
  perform-Permitted f a h = search permitted_rules depth 12

-- Whatever the state of the tab of the authorizers and of its form, an event of what is shown takes
-- one action at most, and only where the state allows it: an authorizer is selected by its id only
-- from the list, which has been loaded; the form is used only while it is open, and only the
-- selected authorizer is edited or deleted, while the form is closed; a notification is closed only
-- while it is open, and a deletion confirmed or cancelled only while its dialog is open and nothing
-- is loading. And whatever the handlers are answered, they send no DELETE request but the one for
-- the authorizer of the open dialog.
pub authorizers_page-Confirmed :
    (date_text : Value → String) (f : Forms.View) (c : View)
    → Each (Takes (Allowed c)) (events (page date_text f c))
      × Each
          (λ acts. UiSends (AuthorizerPermitted c) (run_all (perform f c) acts))
          (events (page date_text f c))
authorizers_page-Confirmed date_text f c =
    let offered = events-Fires (page date_text f c) (page-Fires c date_text f) in
    (
      offered,
      Each-UiSends (perform f c) (perform-Permitted c f) (events (page date_text f c)) offered,
    )
