-- ===== src/Tests/ServicesRuns.antt =====
-- Runs of the services.
use agience.Base.{refl, [], ◌∷◌, ◌≡◌, true, if◌then◌else◌, ◌==◌}
use agience.Js.Value.{
  Value, bool, str, object, array, get, field, end, spread, array_or_empty, same_key,
}
use agience.Js.Exec.{ok}
use agience.World.{World, get_user}
use agience.Client.{get_call, send}
use agience.Client.Header.{send-IsSent, IsSent}
use agience.Trace.Follows.{Follows}
use agience.Services.Agents.{get_agent_by_id, delete_agent}
use agience.Services.Deletion.{delete_agent-Follows, deletion_plan}
use agience.Services.Joined.{get_connections_with_authorizers}
use agience.Services.Joining.{Fetched, get_connections_with_authorizers-Fetched}
use agience.Services.HostKeys.{to_frontend_key, update_body}
use agience.Services.KeyConversion.{KeepsKey, converted, update_body-to_frontend_key}
use agience.Services.Connections.{get_all_connections, get_connection_by_id}
use agience.Services.Authorizers.{get_all_authorizers}
use agience.Tests.Worlds.{agent, saying, serving}

abbrev agents_world : World
agents_world = saying (ok agent)

abbrev shown_agent : Value
shown_agent = spread agent (field "imageUrl" (str "/astra-avatar.png") end)

agent_fetched : (get_agent_by_id "a1" agents_world).0 ≡ ok shown_agent
unfolding get_agent_by_id send
agent_fetched = refl

delete_agent-Follows_example :
    Follows (deletion_plan "a1" shown_agent) (delete_agent "a1") agents_world
delete_agent-Follows_example = delete_agent-Follows "a1" agents_world shown_agent agent_fetched

abbrev connection : Value
connection = object (("id", str "c1") ∷ ("authorizer_id", str "z1") ∷ [])

abbrev authorizer : Value
authorizer = object (("id", str "z1") ∷ ("name", str "Key") ∷ [])

abbrev joining_world : World
joining_world = serving λ url.
    if url == "/manage/connections"
    then ok (array (connection ∷ []))
    else if url == "/manage/connection/c1"
    then ok connection
    else if url == "/manage/authorizers"
    then ok (array (authorizer ∷ []))
    else ok authorizer

abbrev joined : Value
joined = object (("id", str "c1") ∷ ("authorizer_id", str "z1") ∷ ("authorizer", authorizer) ∷ [])

connections_joined : (get_connections_with_authorizers joining_world).0 ≡ ok (joined ∷ [])
unfolding get_connections_with_authorizers get_all_connections get_all_authorizers send
    array_or_empty same_key spread
connections_joined = refl

get_connections_with_authorizers-Fetched_example : Fetched (joined ∷ []) joining_world
get_connections_with_authorizers-Fetched_example =
    get_connections_with_authorizers-Fetched joining_world (joined ∷ []) connections_joined

send-IsSent_example :
    IsSent
      (get_call "/manage/agents")
      joining_world
      (joining_world.env.identity joining_world.history get_user)
send-IsSent_example = send-IsSent (get_call "/manage/agents") joining_world

abbrev api_key : Value
api_key = object (
    ("id", str "k1") ∷ ("name", str "door") ∷ ("host_id", str "h1") ∷ ("is_active", bool true) ∷ [])

key_converted : to_frontend_key api_key ≡ ok (converted api_key)
unfolding to_frontend_key
key_converted = refl

update_body-to_frontend_key_example : KeepsKey api_key (update_body "h2" "k2" (converted api_key))
update_body-to_frontend_key_example =
    update_body-to_frontend_key "h2" "k2" api_key (converted api_key) key_converted

connection_fetched : (get_connection_by_id "c1" joining_world).0 ≡ ok connection
unfolding get_connection_by_id send
connection_fetched = refl

authorizer_named : get "authorizer_id" connection ≡ ok (str "z1")
unfolding get
authorizer_named = refl
