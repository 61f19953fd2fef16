-- ===== src/Services/Plugins.antt =====
-- authority/manage-ui/src/services/api/pluginService.ts
use agience.Base.{String, List, [], ◌∷◌, ◌<>◌}
use agience.Js.Value.{Value, str, get, get?, object, array_or_empty}
use agience.Js.Exec.{Result, pure, lift, map_ok, ◌>>=◌, ◌>>◌}
use agience.World.{Io}
use agience.Client.{send, get_call, post_call, put_call, delete_call, logged}

unfoldable pub get_all_plugins : Io (List Value)
unfolding ◌>>=◌ logged
get_all_plugins =
    logged "Error fetching plugins:"
      do response ← send (get_call "/manage/plugins"); pure (array_or_empty response)

unfoldable pub create_body : Value → Result Value
unfolding get get?
create_body d =
    map_ok
      (λ first. object (
        ("name", first)
        ∷ ("description", get? "description" d)
        ∷ ("provider", get? "provider" d)
        ∷ []))
      (get "name" d)

unfoldable pub update_body : String → Value → Result Value
unfolding get get?
update_body id d =
    map_ok
      (λ first. object (
        ("id", str id)
        ∷ ("name", first)
        ∷ ("description", get? "description" d)
        ∷ ("provider", get? "provider" d)
        ∷ []))
      (get "name" d)

unfoldable pub create_plugin : Value → Io Value
unfolding ◌>>=◌ logged create_body
create_plugin plugin_data =
    logged "Error creating plugin:" do
      request_data ← lift (create_body plugin_data)
      send (post_call "/manage/plugin" request_data)

unfoldable pub update_plugin : String → Value → Io Value
unfolding ◌>>=◌ logged update_body
update_plugin id plugin_data = logged ("Error updating plugin with ID " <> id <> ":") do
  request_data ← lift (update_body id plugin_data)
  send (put_call ("/manage/plugin/" <> id) request_data)

unfoldable pub delete_plugin : String → Io (Unit {0})
unfolding ◌>>=◌ logged
delete_plugin id =
    logged ("Error deleting plugin with ID " <> id <> ":")
      do send (delete_call ("/manage/plugin/" <> id)); pure tt

unfoldable pub get_plugin_by_id : String → Io Value
unfolding ◌>>=◌ logged
get_plugin_by_id id =
    logged ("Error fetching plugin with ID " <> id <> ":")
      (send (get_call ("/manage/plugin/" <> id)))
