-- ===== src/Services/HostPlugins.antt =====
-- authority/manage-ui/src/services/api/hostPluginService.ts
use agience.Base.{String, List, ◌<>◌}
use agience.Js.Value.{Value, undefined, array_or_empty}
use agience.Js.Exec.{pure, ◌>>=◌, ◌>>◌}
use agience.World.{Io}
use agience.Client.{send, get_call, post_call, delete_call, logged}

unfoldable pub get_plugins_for_host : String → Io (List Value)
unfolding ◌>>=◌ logged
get_plugins_for_host host_id = logged ("Error fetching plugins for host " <> host_id <> ":") do
  response ← send (get_call ("/manage/host/" <> host_id <> "/plugins"))
  pure (array_or_empty response)

unfoldable pub add_plugin_to_host : String → String → Io Value
unfolding ◌>>=◌ logged
add_plugin_to_host host_id plugin_id =
    logged "Error adding plugin to host:"
      (send (post_call ("/manage/host/" <> host_id <> "/plugin/" <> plugin_id) undefined))

unfoldable pub remove_plugin_from_host : String → String → Io (Unit {0})
unfolding ◌>>=◌ logged
remove_plugin_from_host host_id plugin_id =
    logged "Error removing plugin from host:"
      do send (delete_call ("/manage/host/" <> host_id <> "/plugin/" <> plugin_id)); pure tt
