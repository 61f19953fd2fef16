-- ===== src/Services/TopicAgents.antt =====
-- authority/manage-ui/src/services/api/topicAgentService.ts
use agience.Base.{String, Bool, List, [], ◌∷◌, ◌<>◌}
use agience.Js.Value.{Value, null, bool, object, array_or_empty}
use agience.Js.Exec.{pure, ◌>>=◌, ◌>>◌}
use agience.World.{Io}
use agience.Client.{send, get_call, post_call, delete_call, logged}

abbrev all_params : Bool → Value
all_params all = object (("all", bool all) ∷ [])

unfoldable pub get_agents_for_topic : String → Bool → Io (List Value)
unfolding ◌>>=◌ logged
get_agents_for_topic topic_id all =
    logged ("Error fetching agents for topic " <> topic_id <> ":") do
      response ← send (record (get_call ("/manage/topic/" <> topic_id <> "/agents")) {
        params = all_params all;
      })
      pure (array_or_empty response)

unfoldable pub add_agent_to_topic : String → String → Bool → Io (Unit {0})
unfolding ◌>>=◌ logged
add_agent_to_topic topic_id agent_id all =
    logged ("Error adding agent " <> agent_id <> " to topic " <> topic_id <> ":") do
      send (record (post_call ("/manage/topic/" <> topic_id <> "/agent/" <> agent_id) null) {
        params = all_params all;
      })
      pure tt

unfoldable pub remove_agent_from_topic : String → String → Io (Unit {0})
unfolding ◌>>=◌ logged
remove_agent_from_topic topic_id agent_id =
    logged ("Error removing agent " <> agent_id <> " from topic " <> topic_id <> ":")
      do send (delete_call ("/manage/topic/" <> topic_id <> "/agent/" <> agent_id)); pure tt
