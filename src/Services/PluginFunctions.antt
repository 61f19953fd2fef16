-- ===== src/Services/PluginFunctions.antt =====
-- authority/manage-ui/src/services/api/pluginFunctionService.ts
use agience.Base.{String, ◌<>◌}
use agience.Js.Value.{Value, undefined}
use agience.Js.Exec.{pure, ◌>>=◌, ◌>>◌}
use agience.World.{Io}
use agience.Client.{send, get_call, post_call, put_call, delete_call, logged}

unfoldable pub get_functions_for_plugin : String → Io Value
unfolding ◌>>=◌ logged
get_functions_for_plugin plugin_id =
    logged "Error fetching functions for plugin:"
      (send (get_call ("/manage/plugin/" <> plugin_id <> "/functions")))

unfoldable pub create_function_for_plugin : String → Value → Io Value
unfolding ◌>>=◌ logged
create_function_for_plugin plugin_id function_data =
    logged "Error creating function for plugin:"
      (send (post_call ("/manage/plugin/" <> plugin_id <> "/function") function_data))

unfoldable pub add_function_to_plugin : String → String → Io (Unit {0})
unfolding ◌>>=◌ logged
add_function_to_plugin plugin_id function_id = logged "Error adding function to plugin:" do
  send (post_call ("/manage/plugin/" <> plugin_id <> "/function/" <> function_id) undefined)
  pure tt

unfoldable pub remove_function_from_plugin : String → String → Io (Unit {0})
unfolding ◌>>=◌ logged
remove_function_from_plugin plugin_id function_id =
    logged "Error removing function from plugin:"
      do send (delete_call ("/manage/plugin/" <> plugin_id <> "/function/" <> function_id)); pure tt

unfoldable pub update_function : String → Value → Io Value
unfolding ◌>>=◌ logged
update_function function_id function_data =
    logged "Error updating function:"
      (send (put_call ("/manage/function/" <> function_id) function_data))

unfoldable pub delete_function : String → Io (Unit {0})
unfolding ◌>>=◌ logged
delete_function function_id =
    logged "Error deleting function:"
      do send (delete_call ("/manage/function/" <> function_id)); pure tt
