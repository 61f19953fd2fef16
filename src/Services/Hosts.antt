-- ===== src/Services/Hosts.antt =====
-- authority/manage-ui/src/services/api/hostService.ts
use agience.Base.{String, List, ◌<>◌}
use agience.Js.Value.{Value, str, end, field, array_or_empty, spread}
use agience.Js.Exec.{pure, ◌>>=◌, ◌>>◌}
use agience.World.{Io}
use agience.Client.{send, get_call, post_call, put_call, delete_call, logged}

unfoldable pub get_all_hosts : Io (List Value)
unfolding ◌>>=◌ logged
get_all_hosts =
    logged "Error fetching hosts:"
      do response ← send (get_call "/manage/hosts"); pure (array_or_empty response)

unfoldable pub create_host : Value → Io Value
unfolding ◌>>=◌ logged
create_host host_data = logged "Error creating host:" (send (post_call "/manage/host" host_data))

unfoldable pub update_host : String → Value → Io Value
unfolding ◌>>=◌ logged
update_host id host_data =
    logged ("Error updating host with ID " <> id <> ":")
      (send (put_call ("/manage/host/" <> id) (spread host_data (field "id" (str id) end))))

unfoldable pub delete_host : String → Io (Unit {0})
unfolding ◌>>=◌ logged
delete_host id =
    logged ("Error deleting host with ID " <> id <> ":")
      do send (delete_call ("/manage/host/" <> id)); pure tt

unfoldable pub get_host_by_id : String → Io Value
unfolding ◌>>=◌ logged
get_host_by_id id =
    logged ("Error fetching host with ID " <> id <> ":") (send (get_call ("/manage/host/" <> id)))
