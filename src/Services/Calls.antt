-- ===== src/Services/Calls.antt =====
-- The one call that a function of a service sends, whatever becomes of it.
use agience.Base.{String, ◌∷◌, ◌≡◌, arith, ◌<>◌}
use agience.Js.Value.{undefined}
use agience.World.{World, log}
use agience.Client.{get_call, post_call, delete_call}
use agience.Trace.{sent, sent-send}
use agience.Services.AgentTopics.{
  get_agent_topics, get_available_topics, get_topic_agents, add_topic_to_agent,
  remove_topic_from_agent,
}
use agience.Services.Agents.{get_all_agents, get_agent_by_id}
use agience.Services.AgentPlugins.{get_agent_plugins, add_plugin_to_agent, remove_plugin_from_agent}
use agience.Services.HostKeys.{delete_key, get_keys_for_host}
use agience.Services.HostPlugins.{get_plugins_for_host, add_plugin_to_host, remove_plugin_from_host}
use agience.Services.PluginFunctions.{
  get_functions_for_plugin, remove_function_from_plugin, delete_function,
}
use agience.Services.Connections.{get_all_connections, delete_connection}
use agience.Services.Authorizers.{get_all_authorizers}

pub sent-get_agent_topics :
    (agent_id : String) (w : World)
    → sent (get_agent_topics agent_id w).1
      ≡ (get_call ("/manage/agent/" <> agent_id <> "/topics")) ∷ sent w
unfolding get_agent_topics
sent-get_agent_topics agent_id w =
    ground (arith, sent-send (get_call ("/manage/agent/" <> agent_id <> "/topics")) w)

pub sent-get_available_topics :
    (w : World) → sent (get_available_topics w).1 ≡ (get_call "/manage/topics") ∷ sent w
unfolding get_available_topics
sent-get_available_topics w = ground (arith, sent-send (get_call "/manage/topics") w)

pub sent-get_topic_agents :
    (topic_id : String) (w : World)
    → sent (get_topic_agents topic_id w).1
      ≡ (get_call ("/manage/topic/" <> topic_id <> "/agents")) ∷ sent w
unfolding get_topic_agents
sent-get_topic_agents topic_id w =
    ground (arith, sent-send (get_call ("/manage/topic/" <> topic_id <> "/agents")) w)

pub sent-add_topic_to_agent :
    (agent_id topic_id : String) (w : World)
    → sent (add_topic_to_agent agent_id topic_id w).1
      ≡ (post_call ("/manage/agent/" <> agent_id <> "/topic/" <> topic_id) undefined) ∷ sent w
unfolding add_topic_to_agent
sent-add_topic_to_agent agent_id topic_id w = ground (
  arith,
  sent-send (post_call ("/manage/agent/" <> agent_id <> "/topic/" <> topic_id) undefined) w,
)

pub sent-remove_topic_from_agent :
    (agent_id topic_id : String) (w : World)
    → sent (remove_topic_from_agent agent_id topic_id w).1
      ≡ (delete_call ("/manage/agent/" <> agent_id <> "/topic/" <> topic_id)) ∷ sent w
unfolding remove_topic_from_agent
sent-remove_topic_from_agent agent_id topic_id w =
    ground
      (arith, sent-send (delete_call ("/manage/agent/" <> agent_id <> "/topic/" <> topic_id)) w)

pub sent-get_agent_plugins :
    (agent_id : String) (w : World)
    → sent (get_agent_plugins agent_id w).1
      ≡ (get_call ("/manage/agent/" <> agent_id <> "/plugins")) ∷ sent w
unfolding get_agent_plugins
sent-get_agent_plugins agent_id w =
    ground (arith, sent-send (get_call ("/manage/agent/" <> agent_id <> "/plugins")) w)

pub sent-add_plugin_to_agent :
    (agent_id plugin_id : String) (w : World)
    → sent (add_plugin_to_agent agent_id plugin_id w).1
      ≡ (post_call ("/manage/agent/" <> agent_id <> "/plugin/" <> plugin_id) undefined) ∷ sent w
unfolding add_plugin_to_agent
sent-add_plugin_to_agent agent_id plugin_id w = ground (
  arith,
  sent-send (post_call ("/manage/agent/" <> agent_id <> "/plugin/" <> plugin_id) undefined) w,
)

pub sent-remove_plugin_from_agent :
    (agent_id plugin_id : String) (w : World)
    → sent (remove_plugin_from_agent agent_id plugin_id w).1
      ≡ (delete_call ("/manage/agent/" <> agent_id <> "/plugin/" <> plugin_id)) ∷ sent w
unfolding remove_plugin_from_agent
sent-remove_plugin_from_agent agent_id plugin_id w =
    ground
      (arith, sent-send (delete_call ("/manage/agent/" <> agent_id <> "/plugin/" <> plugin_id)) w)

pub sent-delete_key :
    (host_id key_id : String) (w : World)
    → sent (delete_key host_id key_id w).1
      ≡ (delete_call ("/manage/host/" <> host_id <> "/key/" <> key_id)) ∷ sent w
unfolding delete_key
sent-delete_key host_id key_id w =
    ground (arith, sent-send (delete_call ("/manage/host/" <> host_id <> "/key/" <> key_id)) w)

pub sent-get_keys_for_host :
    (host_id : String) (w : World)
    → sent (get_keys_for_host host_id w).1
      ≡ (get_call ("/manage/host/" <> host_id <> "/keys")) ∷ sent w
unfolding get_keys_for_host
sent-get_keys_for_host host_id w =
    let before =
      (log ("Using API endpoint: " <> "/manage/host/" <> host_id <> "/keys")
        (log ("Fetching keys for host ID: " <> host_id) w).1).1 in
    ground (arith, sent-send (get_call ("/manage/host/" <> host_id <> "/keys")) before)

pub sent-get_plugins_for_host :
    (host_id : String) (w : World)
    → sent (get_plugins_for_host host_id w).1
      ≡ (get_call ("/manage/host/" <> host_id <> "/plugins")) ∷ sent w
unfolding get_plugins_for_host
sent-get_plugins_for_host host_id w =
    ground (arith, sent-send (get_call ("/manage/host/" <> host_id <> "/plugins")) w)

pub sent-add_plugin_to_host :
    (host_id plugin_id : String) (w : World)
    → sent (add_plugin_to_host host_id plugin_id w).1
      ≡ (post_call ("/manage/host/" <> host_id <> "/plugin/" <> plugin_id) undefined) ∷ sent w
unfolding add_plugin_to_host
sent-add_plugin_to_host host_id plugin_id w = ground (
  arith,
  sent-send (post_call ("/manage/host/" <> host_id <> "/plugin/" <> plugin_id) undefined) w,
)

pub sent-remove_plugin_from_host :
    (host_id plugin_id : String) (w : World)
    → sent (remove_plugin_from_host host_id plugin_id w).1
      ≡ (delete_call ("/manage/host/" <> host_id <> "/plugin/" <> plugin_id)) ∷ sent w
unfolding remove_plugin_from_host
sent-remove_plugin_from_host host_id plugin_id w =
    ground
      (arith, sent-send (delete_call ("/manage/host/" <> host_id <> "/plugin/" <> plugin_id)) w)

pub sent-get_functions_for_plugin :
    (plugin_id : String) (w : World)
    → sent (get_functions_for_plugin plugin_id w).1
      ≡ (get_call ("/manage/plugin/" <> plugin_id <> "/functions")) ∷ sent w
unfolding get_functions_for_plugin
sent-get_functions_for_plugin plugin_id w =
    ground (arith, sent-send (get_call ("/manage/plugin/" <> plugin_id <> "/functions")) w)

pub sent-remove_function_from_plugin :
    (plugin_id function_id : String) (w : World)
    → sent (remove_function_from_plugin plugin_id function_id w).1
      ≡ (delete_call ("/manage/plugin/" <> plugin_id <> "/function/" <> function_id)) ∷ sent w
unfolding remove_function_from_plugin
sent-remove_function_from_plugin plugin_id function_id w = ground (
  arith,
  sent-send (delete_call ("/manage/plugin/" <> plugin_id <> "/function/" <> function_id)) w,
)

pub sent-delete_function :
    (function_id : String) (w : World)
    → sent (delete_function function_id w).1
      ≡ (delete_call ("/manage/function/" <> function_id)) ∷ sent w
unfolding delete_function
sent-delete_function function_id w =
    ground (arith, sent-send (delete_call ("/manage/function/" <> function_id)) w)

pub sent-get_all_connections :
    (w : World) → sent (get_all_connections w).1 ≡ (get_call "/manage/connections") ∷ sent w
unfolding get_all_connections
sent-get_all_connections w = ground (arith, sent-send (get_call "/manage/connections") w)

pub sent-get_all_authorizers :
    (w : World) → sent (get_all_authorizers w).1 ≡ (get_call "/manage/authorizers") ∷ sent w
unfolding get_all_authorizers
sent-get_all_authorizers w = ground (arith, sent-send (get_call "/manage/authorizers") w)

pub sent-delete_connection :
    (id : String) (w : World)
    → sent (delete_connection id w).1 ≡ (delete_call ("/manage/connection/" <> id)) ∷ sent w
unfolding delete_connection
sent-delete_connection id w =
    ground (arith, sent-send (delete_call ("/manage/connection/" <> id)) w)

pub sent-get_all_agents :
    (w : World) → sent (get_all_agents w).1 ≡ (get_call "/manage/agents") ∷ sent w
unfolding get_all_agents
sent-get_all_agents w = ground (arith, sent-send (get_call "/manage/agents") w)

pub sent-get_agent_by_id :
    (id : String) (w : World)
    → sent (get_agent_by_id id w).1 ≡ (get_call ("/manage/agent/" <> id)) ∷ sent w
unfolding get_agent_by_id
sent-get_agent_by_id id w = ground (arith, sent-send (get_call ("/manage/agent/" <> id)) w)
