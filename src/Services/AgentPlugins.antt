-- ===== src/Services/AgentPlugins.antt =====
-- authority/manage-ui/src/services/api/agentPluginService.ts
use agience.Base.{String, List, ◌<>◌}
use agience.Js.Value.{Value, undefined, array_or_empty}
use agience.Js.Exec.{pure, ◌>>=◌, ◌>>◌}
use agience.World.{Io}
use agience.Client.{send, get_call, post_call, delete_call, logged}

unfoldable pub get_agent_plugins : String → Io (List Value)
unfolding ◌>>=◌ logged
get_agent_plugins agent_id = logged ("Error fetching plugins for agent " <> agent_id <> ":") do
  response ← send (get_call ("/manage/agent/" <> agent_id <> "/plugins"))
  pure (array_or_empty response)

unfoldable pub add_plugin_to_agent : String → String → Io Value
unfolding ◌>>=◌ logged
add_plugin_to_agent agent_id plugin_id =
    logged ("Error adding plugin " <> plugin_id <> " to agent " <> agent_id <> ":")
      (send (post_call ("/manage/agent/" <> agent_id <> "/plugin/" <> plugin_id) undefined))

unfoldable pub remove_plugin_from_agent : String → String → Io (Unit {0})
unfolding ◌>>=◌ logged
remove_plugin_from_agent agent_id plugin_id =
    logged ("Error removing plugin " <> plugin_id <> " from agent " <> agent_id <> ":")
      do send (delete_call ("/manage/agent/" <> agent_id <> "/plugin/" <> plugin_id)); pure tt

unfoldable pub get_available_plugins : Io (List Value)
unfolding ◌>>=◌ logged
get_available_plugins =
    logged "Error fetching available plugins:"
      do response ← send (get_call "/manage/plugins"); pure (array_or_empty response)
