-- ===== src/Services/Agents.antt =====
-- authority/manage-ui/src/services/api/agentService.ts
use agience.Base.{String, List, [], ◌∷◌, ◌<>◌}
use agience.Js.Value.{
  Value, null, str, end, field, get, get?, truthy, or_else, object, iterated, array_or_empty,
  spread, text,
}
use agience.Js.Exec.{Result, pure, lift, map_ok, traverse, for_each, ◌>>=◌, ◌>>◌}
use agience.World.{Io, log}
use agience.Client.{send, get_call, post_call, put_call, delete_call, logged}
use agience.Services.AgentPlugins.{remove_plugin_from_agent}
use agience.Services.AgentTopics.{remove_topic_from_agent}

-- `/astra-avatar.png` stands in for a missing image.
abbrev pub with_image : Value → Result Value
with_image agent =
    map_ok (λ url. spread agent (field "imageUrl" (or_else url (str "/astra-avatar.png")) end))
      (get "imageUrl" agent)

unfoldable pub create_body : Value → Result Value
unfolding get get?
create_body d =
    map_ok
      (λ name. object (
        ("name", name)
        ∷ ("description", get? "description" d)
        ∷ ("persona", get? "persona" d)
        ∷ ("host_id", get? "hostId" d)
        ∷ ("executive_function_id", get? "executiveFunctionId" d)
        ∷ ("is_enabled", get? "is_enabled" d)
        ∷ []))
      (get "name" d)

unfoldable pub create_agent : Value → Io Value
unfolding ◌>>=◌ logged create_body
create_agent agent_data =
    logged "Error creating agent:"
      do api_data ← lift (create_body agent_data); send (post_call "/manage/agent" api_data)

-- Empty fields are sent as `null`.
unfoldable pub update_body : String → Value → Value
unfolding get? truthy
update_body id d = object (
    ("id", str id)
    ∷ ("name", get? "name" d)
    ∷ ("description", get? "description" d)
    ∷ ("persona", or_else (get? "persona" d) null)
    ∷ ("host_id", or_else (get? "hostId" d) null)
    ∷ ("executive_function_id", or_else (get? "executiveFunctionId" d) null)
    ∷ ("is_enabled", get? "is_enabled" d)
    ∷ [])

unfoldable pub update_agent : String → Value → Io Value
unfolding ◌>>=◌ logged log update_body get
update_agent id agent_data = logged ("Error updating agent with ID " <> id <> ":") do
  log "Original agent data for update:"
  -- the first property that is read, which fails on `null`
  lift (get "is_enabled" agent_data)
  log "is_enabled type:"
  log "is_enabled value:"
  log "Sending update data:"
  response ← send (put_call ("/manage/agent/" <> id) (update_body id agent_data))
  log "Update response:"
  pure response

unfoldable pub get_all_agents : Io (List Value)
unfolding ◌>>=◌ logged traverse
get_all_agents = logged "Error fetching agents:" do
  response ← send (get_call "/manage/agents")
  lift (traverse with_image (array_or_empty response))

unfoldable pub get_agent_by_id : String → Io Value
unfolding ◌>>=◌ logged
get_agent_by_id id =
    logged ("Error fetching agent with ID " <> id <> ":")
      do response ← send (get_call ("/manage/agent/" <> id)); lift (with_image response)

unfoldable pub remove_plugin : String → Value → Io (Unit {0})
unfolding ◌>>=◌ text get
remove_plugin id plugin = do
  plugin_id ← lift (get "id" plugin)
  remove_plugin_from_agent id (text plugin_id)

unfoldable pub remove_topic : String → Value → Io (Unit {0})
unfolding ◌>>=◌ text get
remove_topic id topic = do
  topic_id ← lift (get "id" topic)
  remove_topic_from_agent id (text topic_id)
  pure tt

-- The agent's plugins and topics are removed from it first, one after another.
unfoldable pub delete_agent : String → Io (Unit {0})
unfolding ◌>>=◌ logged for_each iterated
delete_agent id = logged ("Error deleting agent with ID " <> id <> ":") do
  agent ← get_agent_by_id id
  plugins ← lift (get "plugins" agent)
  for_each (remove_plugin id) (iterated plugins)
  topics ← lift (get "topics" agent)
  for_each (remove_topic id) (iterated topics)
  send (delete_call ("/manage/agent/" <> id))
  pure tt
