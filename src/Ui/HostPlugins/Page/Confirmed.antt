-- ===== src/Ui/HostPlugins/Page/Confirmed.antt =====
-- What a user can do on the page of a host's plugins, and what that sends.
use mathlib.Core.List.{Memᴰ}
use agience.Base.{String, true, false, [], ◌<>◌, ◌≡◌, refl}
use agience.Js.Value.{Value}
use agience.World.{Call}
use agience.Client.{delete_call}
use agience.Trace.Sends.{Sends}
use agience.Services.HostPlugins.{get_plugins_for_host, add_plugin_to_host, remove_plugin_from_host}
use agience.Html.{events}
use agience.Html.Events.{Each, Fires, Takes, takes_rules, events-Fires}
use agience.Ui.Common.Dialogs.{confirmation_modal-Fires, notification_modal-Fires}
use agience.Ui.Cards.{card_section}
use agience.Ui.Dispatch.{run_all}
use agience.Ui.Dispatch.Sending.{UiSends, Each-UiSends}
use agience.Ui.Dispatch.Deletes.{Permitted, confirmed, permitted_rules}
use agience.Ui.Lists.Offers.{spinner-Fires}
use agience.Ui.HostPlugins
use agience.Ui.HostPlugins.{
  View, fetch_assigned_plugins, handle_add_plugin, handle_remove_plugin, unassigned_plugins,
}
use agience.Ui.HostPlugins.Page.{
  Action, ask_remove, add, close_notice, cancel_remove, confirm_remove, perform, plugin_entry,
  sections, page,
}

-- What has to hold where an action can be taken.
abbrev pub Allowed : View → Action → Type 0
Allowed c (ask_remove plugin) = (c.is_loading ≡ false) × Memᴰ plugin c.assigned_plugins
Allowed c (add plugin) = (c.is_loading ≡ false) × Memᴰ plugin (unassigned_plugins c)
Allowed c close_notice = c.notification.is_open ≡ true
Allowed c cancel_remove = (c.confirmation.is_open ≡ true) × (c.is_loading ≡ false)
Allowed c confirm_remove = (c.confirmation.is_open ≡ true) × (c.is_loading ≡ false)

module _ (c : View) where
  entry-Fires :
      (label : String) (act : Value → Action) (plugin : Value)
      → Allowed c (act plugin)
      → Fires (Takes (Allowed c)) [] (plugin_entry label act plugin)
  unfolding plugin_entry
  entry-Fires label act plugin h = search takes_rules depth 16

  sections-Fires : c.is_loading ≡ false → Fires (Takes (Allowed c)) [] (sections c)
  unfolding sections card_section
  sections-Fires h = search (takes_rules, entry-Fires) depth 16

  page-Fires : Fires (Takes (Allowed c)) [] (page c)
  unfolding page
  page-Fires =
      search
        (
          takes_rules, spinner-Fires, sections-Fires, notification_modal-Fires,
          confirmation_modal-Fires,
        )
        depth 16

abbrev pub PluginPermitted : String → View → Call → Type 0
PluginPermitted host_id c =
    Permitted c.confirmation.is_open c.is_loading
      (delete_call ("/manage/host/" <> host_id <> "/plugin/" <> c.confirmation.plugin_id))

module _ (host_id : String) (c : View) where
  get_plugins_for_host-Permitted :
      (id : String) → Sends (λ w. w) (PluginPermitted host_id c) (get_plugins_for_host id)
  unfolding get_plugins_for_host
  get_plugins_for_host-Permitted id = search permitted_rules depth 16

  add_plugin_to_host-Permitted :
      (id plugin : String)
      → Sends (λ w. w) (PluginPermitted host_id c) (add_plugin_to_host id plugin)
  unfolding add_plugin_to_host
  add_plugin_to_host-Permitted id plugin = search permitted_rules depth 16

  remove_plugin_from_host-Permitted :
      c.confirmation.is_open ≡ true
      → c.is_loading ≡ false
      → Sends
          (λ w. w)
          (PluginPermitted host_id c)
          (remove_plugin_from_host host_id c.confirmation.plugin_id)
  unfolding remove_plugin_from_host
  remove_plugin_from_host-Permitted h k =
      let asked : PluginPermitted host_id c _ = confirmed h k refl in
      search permitted_rules depth 16

  fetch_assigned_plugins-Permitted :
      (id : String) → UiSends (PluginPermitted host_id c) (fetch_assigned_plugins id)
  unfolding fetch_assigned_plugins
  fetch_assigned_plugins-Permitted id =
      search (permitted_rules, get_plugins_for_host-Permitted) depth 16

  perform-Permitted :
      (a : Action) → Allowed c a → UiSends (PluginPermitted host_id c) (perform host_id c a)
  unfolding perform handle_add_plugin handle_remove_plugin HostPlugins.show_remove_confirmation
      HostPlugins.close_notification HostPlugins.close_confirmation
  perform-Permitted (add plugin) h =
      search (permitted_rules, fetch_assigned_plugins-Permitted, add_plugin_to_host-Permitted) depth
        16
  perform-Permitted confirm_remove (h, k) =
      search (permitted_rules, fetch_assigned_plugins-Permitted, remove_plugin_from_host-Permitted)
        depth 16
  perform-Permitted a h = search permitted_rules depth 8

-- Whatever the state of the page of a host's plugins, an event of what is shown takes one action at
-- most: it asks to remove an assigned plugin, adds one that is available and not assigned, closes
-- an open notification, or confirms or cancels a removal, only while its dialog is open; all but
-- the closing of the notification only while nothing is loading. And whatever its handlers are
-- answered, they send no DELETE request but the one that removes the plugin of the open dialog from
-- the host.
pub host_page-Confirmed :
    (host_id : String) (c : View)
    → Each (Takes (Allowed c)) (events (page c))
      × Each
          (λ acts. UiSends (PluginPermitted host_id c) (run_all (perform host_id c) acts))
          (events (page c))
host_page-Confirmed host_id c =
    let offered = events-Fires (page c) (page-Fires c) in
    (
      offered,
      Each-UiSends (perform host_id c) (perform-Permitted host_id c) (events (page c)) offered,
    )
