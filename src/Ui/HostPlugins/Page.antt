-- ===== src/Ui/HostPlugins/Page.antt =====
-- authority/manage-ui/src/components/hosts/HostPlugins.tsx
-- What the component shows, and what its handlers do. An id stands by its text.
pub mod Confirmed
use agience.Base.{String, Bool, true, false, List, [], ◌∷◌, ◌<>◌, if◌then◌else◌}
use agience.Js.Value.{Value, get?, truthy, text}
use agience.Html.{on_click, Html, ◌&◌, txt, child, el, of_field}
use agience.Ui.{Ui}
use agience.Ui.Common.{button, spinner, confirmation_modal, notification_modal}
use agience.Ui.Cards.{card_section}
use agience.Ui.HostPlugins.{
  View, show_remove_confirmation, close_notification, close_confirmation, handle_add_plugin,
  handle_remove_plugin, unassigned_plugins,
}

-- The handlers of the elements
pub data Action : Type 0 where
  ask_remove : Value → Action
  add : Value → Action
  close_notice : Action
  cancel_remove : Action
  confirm_remove : Action

-- The id of the confirmation is only tested and put into a URL: one that is falsy is as good as none.
unfoldable pub confirmed_id : Value → String
unfolding truthy text
confirmed_id id = if truthy id then text id else ""

-- What a handler of the render of `c` does.
unfoldable pub perform : String → View → Action → Ui View (Unit {0})
unfolding get? text confirmed_id
perform host_id c (ask_remove plugin) =
    show_remove_confirmation (confirmed_id (get? "id" plugin)) (get? "name" plugin)
perform host_id c (add plugin) = handle_add_plugin host_id c (text (get? "id" plugin))
perform host_id c close_notice = close_notification
perform host_id c cancel_remove = close_confirmation
perform host_id c confirm_remove = handle_remove_plugin host_id c

-- A plugin with the button of its section
unfoldable pub plugin_entry : String → (Value → Action) → Value → Html Action
unfolding button
plugin_entry label act plugin = of_field "id" plugin λ id. el "div" [] (
    el "div" [] (
      el "div" []
        (el "h4" [] (child (get? "name" plugin)) & el "p" [] (child (get? "description" plugin)))
      & button false false (on_click false (act plugin) ∷ []) (txt label)))

unfoldable pub sections : View → Html Action
sections c = el "div" [] (
    card_section "Assigned Plugins" "No plugins assigned to this host yet."
      (plugin_entry "Remove" ask_remove) c.assigned_plugins
    & card_section "Available Plugins" "No additional plugins available." (plugin_entry "Add" add)
        (unassigned_plugins c))

unfoldable pub page : View → Html Action
page c = el "div" [] (
    el "div" [] (
      el "h2" [] (
        txt
          (if truthy c.host then "Plugins for " <> text (get? "name" c.host) else "Host Plugins")))
    & (if c.is_loading then spinner else sections c)
    & notification_modal c.notification close_notice
    & confirmation_modal c.confirmation.is_open cancel_remove confirm_remove (txt "Remove Plugin")
        (txt (
          "Are you sure you want to remove the plugin \""
          <> text c.confirmation.plugin_name
          <> "\" from this host?"))
        "Remove" "Cancel" c.is_loading)
