-- ===== src/Services/Topics.antt =====
-- authority/manage-ui/src/services/api/topicService.ts
use agience.Base.{String, List, [], ◌∷◌, ◌<>◌}
use agience.Js.Value.{Value, str, get, get?, object, array_or_empty}
use agience.Js.Exec.{Result, pure, lift, map_ok, ◌>>=◌, ◌>>◌}
use agience.World.{Io}
use agience.Client.{send, get_call, post_call, put_call, delete_call, logged}

unfoldable pub get_all_topics : Io (List Value)
unfolding ◌>>=◌ logged
get_all_topics =
    logged "Error fetching topics:"
      do response ← send (get_call "/manage/topics"); pure (array_or_empty response)

unfoldable pub create_body : Value → Result Value
unfolding get get?
create_body d =
    map_ok (λ first. object (("name", first) ∷ ("description", get? "description" d) ∷ []))
      (get "name" d)

unfoldable pub update_body : String → Value → Result Value
unfolding get get?
update_body id d =
    map_ok
      (λ first.
        object (("id", str id) ∷ ("name", first) ∷ ("description", get? "description" d) ∷ []))
      (get "name" d)

unfoldable pub create_topic : Value → Io Value
unfolding ◌>>=◌ logged create_body
create_topic topic_data =
    logged "Error creating topic:"
      do request_data ← lift (create_body topic_data); send (post_call "/manage/topic" request_data)

unfoldable pub update_topic : String → Value → Io Value
unfolding ◌>>=◌ logged update_body
update_topic id topic_data = logged ("Error updating topic with ID " <> id <> ":") do
  request_data ← lift (update_body id topic_data)
  send (put_call ("/manage/topic/" <> id) request_data)

unfoldable pub delete_topic : String → Io (Unit {0})
unfolding ◌>>=◌ logged
delete_topic id =
    logged ("Error deleting topic with ID " <> id <> ":")
      do send (delete_call ("/manage/topic/" <> id)); pure tt

unfoldable pub get_topic_by_id : String → Io Value
unfolding ◌>>=◌ logged
get_topic_by_id id =
    logged ("Error fetching topic with ID " <> id <> ":") (send (get_call ("/manage/topic/" <> id)))
