-- ===== src/Ui/HostKeys/Page/Offered.antt =====
-- What a user can do on the page of a host's keys.
use mathlib.Core.List.{Memᴰ}
use agience.Base.{String, true, false, List, [], ◌∷◌, ◌≡◌, some}
use agience.Js.Value.{Value, truthy}
use agience.Html.{events, txt}
use agience.Html.Events.{Each, Fires, Fires-show_if_both, Takes, takes_rules, events-Fires}
use agience.Ui.Common.Dialogs.{confirmation_modal-Fires, notification_modal-Fires, data_table-Fires}
use agience.Ui.Common.{data_table, cell, confirmation_modal, notification_modal}
use agience.Ui.KeyDetails.{Copied, copy_row, key_details_modal}
use agience.Ui.HostKeys.{View}
use agience.Ui.HostKeys.Page.{
  Action, view_key, edit_key, ask_delete, open_form, change, submit, close_form, close_notice,
  cancel_delete, confirm_delete, close_details, copy, key_actions, columns, key_form, page,
}

-- What has to hold where an action can be taken.
abbrev pub Allowed : View → Action → Type 0
Allowed c (view_key key) = Memᴰ key c.keys
Allowed c (edit_key key) = Memᴰ key c.keys
Allowed c (ask_delete key) = Memᴰ key c.keys
Allowed c open_form = c.is_loading ≡ false
Allowed c (change name v) = c.is_form_open ≡ true
Allowed c submit = c.is_form_open ≡ true
Allowed c close_form = c.is_form_open ≡ true
Allowed c close_notice = c.notification.is_open ≡ true
Allowed c cancel_delete = (c.confirmation.is_open ≡ true) × (c.is_loading ≡ false)
Allowed c confirm_delete = (c.confirmation.is_open ≡ true) × (c.is_loading ≡ false)
Allowed c close_details = (c.is_key_details_modal_open ≡ true) × (truthy c.selected_key ≡ true)
Allowed c (copy text field) = (c.is_key_details_modal_open ≡ true) × (truthy c.selected_key ≡ true)

abbrev pub Offered : View → List Action → Type 0
Offered c = Takes (Allowed c)

module _ (c : View) where
  key_form-Fires : c.is_form_open ≡ true → Fires (Offered c) [] (key_form c)
  unfolding key_form
  key_form-Fires h = search takes_rules depth 24

  key_actions-Fires :
      (key : Value) → Memᴰ key c.keys → Fires (Offered c) (view_key key ∷ []) (key_actions key)
  unfolding key_actions
  key_actions-Fires key m = search takes_rules depth 24

  copy_row-Fires :
      (date_text : Value → String) (copied : Copied) (shown : Value) (field : String) (v : Value)
      → c.is_key_details_modal_open ≡ true
      → truthy c.selected_key ≡ true
      → Fires (Offered c) [] (copy_row date_text copied close_details copy shown field v)
  unfolding copy_row
  copy_row-Fires date_text copied shown field v h k = search takes_rules depth 24

  details-Fires :
      (date_text : Value → String) (copied : Copied)
      → Fires (Offered c) [] (
          key_details_modal date_text copied close_details copy c.is_key_details_modal_open
            c.selected_key)
  unfolding key_details_modal
  details-Fires date_text copied =
      Fires-show_if_both c.is_key_details_modal_open (truthy c.selected_key) _
        λ h k. search (takes_rules, copy_row-Fires) depth 24

  table-Fires :
      (date_text : Value → String) (message : String)
      → Fires
          (Offered c)
          []
          (data_table (columns date_text) c.keys c.is_loading message (some view_key))
  unfolding columns cell
  table-Fires date_text message = search (data_table-Fires, takes_rules, key_actions-Fires) depth 24

  notice-Fires : Fires (Offered c) [] (notification_modal c.notification close_notice)
  notice-Fires = search (notification_modal-Fires, takes_rules) depth 8

  dialog-Fires : Fires (Offered c) [] (
      confirmation_modal c.confirmation.is_open cancel_delete confirm_delete
        (txt c.confirmation.title)
        (txt c.confirmation.message)
        "Delete"
        "Cancel"
        c.is_loading)
  dialog-Fires = search (confirmation_modal-Fires, takes_rules) depth 8

  page-Fires :
      (date_text : Value → String) (copied : Copied)
      → Fires (Offered c) [] (page date_text copied c)
  unfolding page
  page-Fires date_text copied =
      search (takes_rules, key_form-Fires, table-Fires, notice-Fires, dialog-Fires, details-Fires)
        depth 24

-- Each event of the page takes one action at most, which the state allows.
pub page-Offered :
    (date_text : Value → String) (copied : Copied) (c : View)
    → Each (Offered c) (events (page date_text copied c))
page-Offered date_text copied c =
    events-Fires (page date_text copied c) (page-Fires c date_text copied)
