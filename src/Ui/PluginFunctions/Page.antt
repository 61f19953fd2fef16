-- ===== src/Ui/PluginFunctions/Page.antt =====
-- authority/manage-ui/src/components/plugins/PluginFunctionsTab.tsx
-- What the tab shows, and what its handlers do. An id stands by its text.
pub mod Confirmed
use agience.Base.{
  String, Bool, true, false, none, not, ◌&&◌, List, [], ◌∷◌, ◌<>◌, ◌==◌, if◌then◌else◌,
}
use agience.Js.Value.{
  Value, undefined, null, bool, num, str, arr, obj, elements, lookup, or_undefined, cannot_read,
  get?, truthy, text,
}
use agience.Js.Same.{is_same}
use agience.Js.Exec.{Exn, Result, ok, thrown, pure, lift, when, ◌>>=◌, ◌>>◌}
use agience.Html.{
  Attr, attr, value, marked, disabled, on_click, on_change, Html, ◌&◌, nothing, txt, child, el,
  show_if, each, of_result, of_field,
}
use agience.Ui.{Ui}
use agience.Ui.Common.{is_empty, spinner, confirmation_modal, notification_modal}
use agience.Ui.Forms
use agience.Ui.Forms.Function.{rules}
use agience.Ui.PluginFunctions.{
  View, close_notification, close_confirmation, show_delete_confirmation, handle_add_function,
  handle_edit_function, handle_cancel_edit, handle_edit_input_change, handle_close_form,
  handle_save_function,
}
use agience.Ui.PluginFunctions.Handlers.{handle_save_edit, handle_confirm_delete}
use agience.Ui.PluginFunctions.FormPage.{function_form}

-- The handlers of the elements. `change_form` is one of the form's own.
pub data Action : Type 0 where
  add_function : Action
  change_form : String → Value → Action
  submit_form : Action
  close_form : Action
  change_edit : String → Value → Action
  save_edit : Value → Action
  cancel_edit : Action
  edit : Value → Action
  ask_delete : Value → Action
  close_notice : Action
  cancel_delete : Action
  confirm_delete : Action

abbrev no_map : Exn
no_map = record { name = "TypeError"; message = "functions.map is not a function"; status = none }

unfoldable is_zero : Value → Bool
is_zero (num t) = t == "0"
is_zero v = false

-- The functions that are listed: none if `functions.length === 0`, and else those of
-- `functions.map`.
unfoldable pub listed : Value → Result (List Value)
unfolding lookup is_zero
listed undefined = thrown (cannot_read "undefined" "length")
listed null = thrown (cannot_read "null" "length")
listed (arr vs) = ok (elements vs)
listed (str s) = if s == "" then ok [] else thrown no_map
listed (bool b) = thrown no_map
listed (num t) = thrown no_map
listed (obj fs) = if is_zero (or_undefined (lookup "length" fs)) then ok [] else thrown no_map

-- What a submission of the form with the state `f` does to the tab; its errors are the form's own.
unfoldable pub submit : String → Forms.View → Ui View (Unit {0})
unfolding Forms.find_errors ◌>>=◌
submit plugin_id f = do
  new_errors ← lift (Forms.find_errors rules f.form_data)
  when (Forms.is_empty new_errors) (handle_save_function plugin_id f.form_data)

-- What a handler of the render of `c` does, while the form has the state `f`.
unfoldable pub perform : String → Forms.View → View → Action → Ui View (Unit {0})
unfolding text
perform plugin_id f c add_function = handle_add_function
perform plugin_id f c (change_form name v) = pure tt
perform plugin_id f c submit_form = submit plugin_id f
perform plugin_id f c close_form = handle_close_form
perform plugin_id f c (change_edit name v) = handle_edit_input_change name v
perform plugin_id f c (save_edit id) = handle_save_edit plugin_id c (text id)
perform plugin_id f c cancel_edit = handle_cancel_edit
perform plugin_id f c (edit func) = handle_edit_function func
perform plugin_id f c (ask_delete func) = show_delete_confirmation func
perform plugin_id f c close_notice = close_notification
perform plugin_id f c cancel_delete = close_confirmation
perform plugin_id f c confirm_delete = handle_confirm_delete plugin_id c

abbrev edit_input : View → String → Html Action
edit_input c name =
    el "input"
      (attr "type" "text"
        ∷ attr "name" name
        ∷ value (get? name c.edit_form_data)
        ∷ on_change (change_edit name)
        ∷ [])
      nothing

unfoldable pub function_row : View → Value → Html Action
function_row c func = of_field "id" func λ id.
    let editing = is_same c.editing_function_id id in
    el "tr" (marked editing ∷ []) (
      el "td" [] (
        if editing
        then edit_input c "name"
        else el "div" []
            (el "div" [] nothing & el "div" [] (el "div" [] (child (get? "name" func)))))
      & el "td" [] (
          if editing
          then edit_input c "description"
          else el "div" [] (child (get? "description" func)))
      & el "td" [] (
          if editing
          then el "button" (on_click false (save_edit id) ∷ []) (txt "Save")
            & el "button" (on_click false cancel_edit ∷ []) (txt "Cancel")
          else el "button" (on_click false (edit func) ∷ []) (txt "Edit")
            & el "button" (on_click false (ask_delete func) ∷ []) (txt "Delete")))

unfoldable pub function_table : View → List Value → Html Action
function_table c functions = el "div" [] (
    el "table" [] (
      el "thead" [] (
        el "tr" []
          (el "th" [] (txt "Name") & el "th" [] (txt "Description") & el "th" [] (txt "Actions")))
      & el "tbody" [] (
          if is_empty functions
          then el "tr" [] (
              el "td" [] (txt "No functions found for this plugin. Add a function to get started."))
          else each (function_row c) functions)))

unfoldable pub page : String → Forms.View → View → Html Action
page plugin_id f c =
    if plugin_id == ""
    then el "div" [] (txt "Please select a plugin first.")
    else el "div" [] (
        el "div" [] (
          el "h2" [] (
            txt (
              if truthy c.plugin_name
              then "Functions for " <> text c.plugin_name
              else "Plugin Functions"))
          & el "button" (disabled c.is_loading ∷ on_click false add_function ∷ [])
              (txt "Add Function"))
        & show_if c.is_form_open (function_form submit_form close_form change_form c.is_loading f)
        & of_result (listed c.functions) (λ functions.
          if c.is_loading && is_empty functions then spinner else function_table c functions)
        & notification_modal c.notification close_notice
        & confirmation_modal c.confirmation.is_open cancel_delete confirm_delete
            (txt c.confirmation.title) (txt c.confirmation.message) "Delete" "Cancel" c.is_loading)
