-- ===== src/Services/Connections.antt =====
-- authority/manage-ui/src/services/api/connectionService.ts
use agience.Base.{String, List, ◌<>◌}
use agience.Js.Value.{Value, undefined, str, obj, end, field, merge, array_or_empty, own_fields}
use agience.Js.Exec.{pure, ◌>>=◌, ◌>>◌}
use agience.World.{Io}
use agience.Client.{send, get_call, post_call, put_call, delete_call, logged}

unfoldable pub get_all_connections : Io (List Value)
unfolding ◌>>=◌ logged
get_all_connections =
    logged "Error fetching connections:"
      do response ← send (get_call "/manage/connections"); pure (array_or_empty response)

unfoldable pub create_connection : Value → Io Value
unfolding ◌>>=◌ logged
create_connection connection_data =
    logged "Error creating connection:" (send (post_call "/manage/connection" connection_data))

unfoldable pub update_connection : String → Value → Io Value
unfolding ◌>>=◌ logged
update_connection id connection_data = logged ("Error updating connection with ID " <> id <> ":") (
    send (
      put_call ("/manage/connection/" <> id)
        (obj (merge (field "id" (str id) end) (own_fields connection_data)))))

unfoldable pub delete_connection : String → Io (Unit {0})
unfolding ◌>>=◌ logged
delete_connection id =
    logged ("Error deleting connection with ID " <> id <> ":")
      do send (delete_call ("/manage/connection/" <> id)); pure tt

unfoldable pub get_connection_by_id : String → Io Value
unfolding ◌>>=◌ logged
get_connection_by_id id =
    logged ("Error fetching connection with ID " <> id <> ":")
      (send (get_call ("/manage/connection/" <> id)))

unfoldable pub get_authorizers_for_connection : String → Io (List Value)
unfolding ◌>>=◌ logged
get_authorizers_for_connection connection_id =
    logged ("Error fetching authorizers for connection " <> connection_id <> ":") do
      response ← send (get_call ("/manage/connection/" <> connection_id <> "/authorizers"))
      pure (array_or_empty response)

unfoldable pub add_authorizer_to_connection : String → String → Io (Unit {0})
unfolding ◌>>=◌ logged
add_authorizer_to_connection connection_id authorizer_id =
    logged
      ("Error adding authorizer " <> authorizer_id <> " to connection " <> connection_id <> ":")
      do
        send (
            post_call ("/manage/connection/" <> connection_id <> "/authorizer/" <> authorizer_id)
              undefined)
        pure tt

unfoldable pub remove_authorizer_from_connection : String → String → Io (Unit {0})
unfolding ◌>>=◌ logged
remove_authorizer_from_connection connection_id authorizer_id =
    logged
      ("Error removing authorizer " <> authorizer_id <> " from connection " <> connection_id <> ":")
      do
        send (
            delete_call ("/manage/connection/" <> connection_id <> "/authorizer/" <> authorizer_id))
        pure tt
