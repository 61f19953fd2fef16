-- ===== src/Services/Authorizers.antt =====
-- authority/manage-ui/src/services/api/authorizerService.ts
use agience.Base.{String, List, ◌<>◌}
use agience.Js.Value.{Value, undefined, str, obj, end, field, merge, array_or_empty, own_fields}
use agience.Js.Exec.{pure, ◌>>=◌, ◌>>◌}
use agience.World.{Io}
use agience.Client.{send, get_call, post_call, put_call, delete_call, logged}

unfoldable pub get_all_authorizers : Io (List Value)
unfolding ◌>>=◌ logged
get_all_authorizers =
    logged "Error fetching authorizers:"
      do response ← send (get_call "/manage/authorizers"); pure (array_or_empty response)

unfoldable pub create_authorizer : Value → Io Value
unfolding ◌>>=◌ logged
create_authorizer authorizer_data =
    logged "Error creating authorizer:" (send (post_call "/manage/authorizer" authorizer_data))

unfoldable pub update_authorizer : String → Value → Io Value
unfolding ◌>>=◌ logged
update_authorizer id authorizer_data = logged ("Error updating authorizer with ID " <> id <> ":") (
    send (
      put_call ("/manage/authorizer/" <> id)
        (obj (merge (field "id" (str id) end) (own_fields authorizer_data)))))

unfoldable pub delete_authorizer : String → Io (Unit {0})
unfolding ◌>>=◌ logged
delete_authorizer id =
    logged ("Error deleting authorizer with ID " <> id <> ":")
      do send (delete_call ("/manage/authorizer/" <> id)); pure tt

unfoldable pub get_authorizer_by_id : String → Io Value
unfolding ◌>>=◌ logged
get_authorizer_by_id id =
    logged ("Error fetching authorizer with ID " <> id <> ":")
      (send (get_call ("/manage/authorizer/" <> id)))

unfoldable pub get_connections_for_authorizer : String → Io (List Value)
unfolding ◌>>=◌ logged
get_connections_for_authorizer authorizer_id =
    logged ("Error fetching connections for authorizer " <> authorizer_id <> ":") do
      response ← send (get_call ("/manage/authorizer/" <> authorizer_id <> "/connections"))
      pure (array_or_empty response)

unfoldable pub add_connection_to_authorizer : String → String → Io (Unit {0})
unfolding ◌>>=◌ logged
add_connection_to_authorizer authorizer_id connection_id =
    logged
      ("Error adding connection " <> connection_id <> " to authorizer " <> authorizer_id <> ":")
      do
        send (
            post_call ("/manage/authorizer/" <> authorizer_id <> "/connection/" <> connection_id)
              undefined)
        pure tt

unfoldable pub remove_connection_from_authorizer : String → String → Io (Unit {0})
unfolding ◌>>=◌ logged
remove_connection_from_authorizer authorizer_id connection_id =
    logged
      ("Error removing connection " <> connection_id <> " from authorizer " <> authorizer_id <> ":")
      do
        send (
            delete_call ("/manage/authorizer/" <> authorizer_id <> "/connection/" <> connection_id))
        pure tt
