-- ===== src/Services/AgentTopics.antt =====
-- authority/manage-ui/src/services/api/agentTopicService.ts
use agience.Base.{String, List, ◌<>◌}
use agience.Js.Value.{Value, undefined, array_or_empty}
use agience.Js.Exec.{pure, ◌>>=◌}
use agience.World.{Io}
use agience.Client.{send, get_call, post_call, delete_call, logged}

unfoldable pub get_agent_topics : String → Io (List Value)
unfolding ◌>>=◌ logged
get_agent_topics agent_id = logged ("Error fetching topics for agent " <> agent_id <> ":") do
  response ← send (get_call ("/manage/agent/" <> agent_id <> "/topics"))
  pure (array_or_empty response)

-- Here the response is returned as it comes.
unfoldable pub get_topic_agents : String → Io Value
unfolding ◌>>=◌ logged
get_topic_agents topic_id =
    logged "Error fetching topic agents:"
      (send (get_call ("/manage/topic/" <> topic_id <> "/agents")))

unfoldable pub add_topic_to_agent : String → String → Io Value
unfolding ◌>>=◌ logged
add_topic_to_agent agent_id topic_id =
    logged "Error adding topic to agent:"
      (send (post_call ("/manage/agent/" <> agent_id <> "/topic/" <> topic_id) undefined))

unfoldable pub remove_topic_from_agent : String → String → Io Value
unfolding ◌>>=◌ logged
remove_topic_from_agent agent_id topic_id =
    logged "Error removing topic from agent:"
      (send (delete_call ("/manage/agent/" <> agent_id <> "/topic/" <> topic_id)))

unfoldable pub get_available_topics : Io (List Value)
unfolding ◌>>=◌ logged
get_available_topics =
    logged "Error fetching available topics:"
      do response ← send (get_call "/manage/topics"); pure (array_or_empty response)

unfoldable pub create_topic_for_agent : String → Value → Io Value
unfolding ◌>>=◌ logged
create_topic_for_agent agent_id topic_data =
    logged "Error creating topic for agent:"
      (send (post_call ("/manage/agent/" <> agent_id <> "/topic") topic_data))
