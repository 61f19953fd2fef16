-- ===== src/Ui/PluginFunctions/Page/Confirmed.antt =====
-- What a user can do on the tab of a plugin's functions, and what that sends.
use mathlib.Core.List.{Memᴰ}
use agience.Base.{String, true, false, List, [], ◌<>◌, ◌≡◌, ◌≢◌, refl}
use agience.Js.Value.{Value, get, text}
use agience.Js.Same.{is_same}
use agience.Js.Exec.{ok}
use agience.World.{Call, http_delete}
use agience.Client.{get_call, post_call, put_call, delete_call}
use agience.Trace.Sends.{sends_rules}
use agience.Services.PluginFunctions.{
  get_functions_for_plugin, create_function_for_plugin, update_function,
  remove_function_from_plugin, delete_function,
}
use agience.Html.{events}
use agience.Html.Events.{Each, Fires, Takes, takes_rules, events-Fires, Fires-of_field}
use agience.Ui.Common.Dialogs.{confirmation_modal-Fires, notification_modal-Fires}
use agience.Ui.Effects.{Sends-update, Sends-io}
use agience.Ui.Dispatch.{run_all}
use agience.Ui.Dispatch.Sending.{UiSends, Each-UiSends}
use agience.Ui.Lists.Offers.{spinner-Fires}
use agience.Ui.{Ui}
use agience.Ui.Forms
use agience.Ui.PluginFunctions
use agience.Ui.PluginFunctions.{View, fetch_functions, remove_and_delete, handle_save_function}
use agience.Ui.PluginFunctions.Handlers.{handle_save_edit, handle_confirm_delete}
use agience.Ui.Forms.Parts.{error_note, labelled_field, form_buttons}
use agience.Ui.PluginFunctions.FormPage.{function_form}
use agience.Ui.PluginFunctions.Page.{
  Action, add_function, change_form, submit_form, close_form, change_edit, save_edit, cancel_edit,
  edit, ask_delete, close_notice, cancel_delete, confirm_delete, listed, submit, perform,
  function_row, function_table, page,
}

-- A function of the table has the id.
abbrev Row : View → Value → Value → Type 0
Row c func id =
    (functions : List Value) × (listed c.functions ≡ ok functions)
    × Memᴰ func functions
    × (get "id" func ≡ ok id)

-- The function that is edited has a row.
abbrev Editing : View → Value → Type 0
Editing c id = (func : Value) × Row c func id × (is_same c.editing_function_id id ≡ true)

abbrev NotEditing : View → Value → Type 0
NotEditing c func = (id : Value) × Row c func id × (is_same c.editing_function_id id ≡ false)

-- What has to hold where an action can be taken.
abbrev pub Allowed : View → Action → Type 0
Allowed c add_function = c.is_loading ≡ false
Allowed c (change_form name v) = (c.is_form_open ≡ true) × (c.is_loading ≡ false)
Allowed c submit_form = c.is_form_open ≡ true
Allowed c close_form = (c.is_form_open ≡ true) × (c.is_loading ≡ false)
Allowed c (change_edit name v) = (id : Value) × Editing c id
Allowed c (save_edit id) = Editing c id
Allowed c cancel_edit = (id : Value) × Editing c id
Allowed c (edit func) = NotEditing c func
Allowed c (ask_delete func) = NotEditing c func
Allowed c close_notice = c.notification.is_open ≡ true
Allowed c cancel_delete = (c.confirmation.is_open ≡ true) × (c.is_loading ≡ false)
Allowed c confirm_delete = (c.confirmation.is_open ≡ true) × (c.is_loading ≡ false)

module _ (c : View) where
  row-Fires :
      (functions : List Value) (func : Value)
      → listed c.functions ≡ ok functions
      → Memᴰ func functions
      → Fires (Takes (Allowed c)) [] (function_row c func)
  unfolding function_row
  row-Fires functions func e m = Fires-of_field "id" func _ λ id found.
      let save = λ (h : is_same c.editing_function_id id ≡ true).
        let it : Editing c id = (func, (functions, e, m, found), h) in it in
      let some_edit = λ (h : is_same c.editing_function_id id ≡ true).
        let it : (id : Value) × Editing c id = (id, save h) in it in
      let idle = λ (h : is_same c.editing_function_id id ≡ false).
        let it : NotEditing c func = (id, (functions, e, m, found), h) in it in
      search (takes_rules, save, some_edit, idle) depth 20

  table-Fires :
      (functions : List Value)
      → listed c.functions ≡ ok functions
      → Fires (Takes (Allowed c)) [] (function_table c functions)
  unfolding function_table
  table-Fires functions e =
      let row = λ (func : Value) (m : Memᴰ func functions). row-Fires functions func e m in
      search (takes_rules, row) depth 20

  form-Fires :
      (f : Forms.View)
      → c.is_form_open ≡ true
      → Fires
          (Takes (Allowed c))
          []
          (function_form submit_form close_form change_form c.is_loading f)
  unfolding function_form error_note labelled_field form_buttons
  form-Fires f open' = search takes_rules depth 20

  page-Fires :
      (plugin_id : String) (f : Forms.View) → Fires (Takes (Allowed c)) [] (page plugin_id f c)
  unfolding page
  page-Fires plugin_id f =
      search
        (
          takes_rules, spinner-Fires, form-Fires, table-Fires, notification_modal-Fires,
          confirmation_modal-Fires,
        )
        depth 20

-- A call is no DELETE, or one of the two that the deletion of the open dialog makes.
pub data FunctionPermitted (plugin_id : String) (c : View) (call : Call) : Type 0 where
  other : call.method ≢ http_delete → FunctionPermitted plugin_id c call
  removes :
      c.confirmation.is_open ≡ true
      → c.is_loading ≡ false
      → call
        ≡ delete_call
            ("/manage/plugin/" <> plugin_id <> "/function/" <> text c.confirmation.function_id)
      → FunctionPermitted plugin_id c call
  deletes :
      c.confirmation.is_open ≡ true
      → c.is_loading ≡ false
      → call ≡ delete_call ("/manage/function/" <> text c.confirmation.function_id)
      → FunctionPermitted plugin_id c call

module _ {plugin_id : String} {c : View} where
  get_call-Permitted : (url : String) → FunctionPermitted plugin_id c (get_call url)
  get_call-Permitted url = other (λ e. cc)

  post_call-Permitted :
      (url : String) (body : Value) → FunctionPermitted plugin_id c (post_call url body)
  post_call-Permitted url body = other (λ e. cc)

  put_call-Permitted :
      (url : String) (body : Value) → FunctionPermitted plugin_id c (put_call url body)
  put_call-Permitted url body = other (λ e. cc)

ruleset call_rules = (
  sends_rules, Sends-update, Sends-io, get_call-Permitted, post_call-Permitted, put_call-Permitted,
)

module _ (plugin_id : String) (c : View) where
  abbrev SendsPermitted : {A : Type 0} → Ui View A → Type 0
  SendsPermitted m = UiSends (FunctionPermitted plugin_id c) m

  fetch_functions-Permitted : SendsPermitted (fetch_functions plugin_id)
  unfolding fetch_functions get_functions_for_plugin
  fetch_functions-Permitted = search call_rules depth 16

  handle_save_function-Permitted :
      (form : Value) → SendsPermitted (handle_save_function plugin_id form)
  unfolding handle_save_function create_function_for_plugin
  handle_save_function-Permitted form = search (call_rules, fetch_functions-Permitted) depth 16

  submit-Permitted : (f : Forms.View) → SendsPermitted (submit plugin_id f)
  unfolding submit
  submit-Permitted f = search (call_rules, handle_save_function-Permitted) depth 16

  handle_save_edit-Permitted : (id : String) → SendsPermitted (handle_save_edit plugin_id c id)
  unfolding handle_save_edit update_function
  handle_save_edit-Permitted id = search (call_rules, fetch_functions-Permitted) depth 16

  remove_and_delete-Permitted :
      c.confirmation.is_open ≡ true
      → c.is_loading ≡ false
      → SendsPermitted (remove_and_delete plugin_id (text c.confirmation.function_id))
  unfolding remove_and_delete remove_function_from_plugin delete_function
  remove_and_delete-Permitted h k =
      let first : FunctionPermitted plugin_id c _ = removes h k refl in
      let second : FunctionPermitted plugin_id c _ = deletes h k refl in search call_rules depth 16

  handle_confirm_delete-Permitted :
      c.confirmation.is_open ≡ true
      → c.is_loading ≡ false
      → SendsPermitted (handle_confirm_delete plugin_id c)
  unfolding handle_confirm_delete
  handle_confirm_delete-Permitted h k =
      search (call_rules, fetch_functions-Permitted, remove_and_delete-Permitted) depth 16

  perform-Permitted :
      (f : Forms.View) (a : Action) → Allowed c a → SendsPermitted (perform plugin_id f c a)
  unfolding perform PluginFunctions.handle_add_function PluginFunctions.handle_close_form
      PluginFunctions.handle_edit_input_change PluginFunctions.handle_cancel_edit
      PluginFunctions.handle_edit_function PluginFunctions.show_delete_confirmation
      PluginFunctions.close_notification PluginFunctions.close_confirmation
  perform-Permitted f submit_form h = submit-Permitted f
  perform-Permitted f (save_edit id) h = handle_save_edit-Permitted _
  perform-Permitted f confirm_delete (h, k) = handle_confirm_delete-Permitted h k
  perform-Permitted f a h = search call_rules depth 8

-- Whatever the state of the tab of a plugin's functions and of its form, an event of what is shown
-- takes one action at most, and only where the state allows it: a function is added only while
-- nothing is loading; the form is used only while it is open; an edited function is changed, saved,
-- with its id, and left only where the table has a row of it, and a function of the table is edited
-- or deleted only where it is not the edited one; a notification is closed only while it is open,
-- and a deletion confirmed or cancelled only while its dialog is open and nothing is loading. And
-- whatever the handlers are answered, they send no DELETE request but the two that remove the
-- function of the open dialog from the plugin and delete it.
pub functions_page-Confirmed :
    (plugin_id : String) (f : Forms.View) (c : View)
    → Each (Takes (Allowed c)) (events (page plugin_id f c))
      × Each
          (λ acts. UiSends (FunctionPermitted plugin_id c) (run_all (perform plugin_id f c) acts))
          (events (page plugin_id f c))
functions_page-Confirmed plugin_id f c =
    let offered = events-Fires (page plugin_id f c) (page-Fires c plugin_id f) in
    (
      offered,
      Each-UiSends (perform plugin_id f c) (perform-Permitted plugin_id c f)
          (events (page plugin_id f c)) offered,
    )
