-- ===== src/Ui/Loading.antt =====
-- What a component sends when it is mounted.
use agience.Base.{String}
use agience.Trace.Sends.{Sends, sends_rules}
use agience.Ui.Effects.{Sends-update, Sends-io}
use agience.Services.ReadOnly.{
  IsRead, get_connections_with_authorizers-reads, get_all_authorizers-reads,
}
use agience.Services.Agents.{get_all_agents, get_agent_by_id}
use agience.Services.AgentTopics.{get_agent_topics, get_available_topics, get_topic_agents}
use agience.Services.AgentPlugins.{get_agent_plugins, get_available_plugins}
use agience.Services.HostPlugins.{get_plugins_for_host}
use agience.Services.Hosts.{get_host_by_id}
use agience.Services.Plugins.{get_all_plugins}
use agience.Services.Topics.{get_topic_by_id}
use agience.Ui.{Mounted, Ui}
use agience.Ui.AgentTopics
use agience.Ui.AgentPlugins
use agience.Ui.HostPlugins
use agience.Ui.TopicAgents
use agience.Ui.Connections

get_all_agents-reads : Sends (λ w. w) IsRead get_all_agents
unfolding get_all_agents
get_all_agents-reads = search sends_rules depth 9

get_agent_by_id-reads : (id : String) → Sends (λ w. w) IsRead (get_agent_by_id id)
unfolding get_agent_by_id
get_agent_by_id-reads id = search sends_rules depth 9

get_agent_topics-reads : (id : String) → Sends (λ w. w) IsRead (get_agent_topics id)
unfolding get_agent_topics
get_agent_topics-reads id = search sends_rules depth 9

get_available_topics-reads : Sends (λ w. w) IsRead get_available_topics
unfolding get_available_topics
get_available_topics-reads = search sends_rules depth 9

get_topic_agents-reads : (id : String) → Sends (λ w. w) IsRead (get_topic_agents id)
unfolding get_topic_agents
get_topic_agents-reads id = search sends_rules depth 9

get_agent_plugins-reads : (id : String) → Sends (λ w. w) IsRead (get_agent_plugins id)
unfolding get_agent_plugins
get_agent_plugins-reads id = search sends_rules depth 9

get_available_plugins-reads : Sends (λ w. w) IsRead get_available_plugins
unfolding get_available_plugins
get_available_plugins-reads = search sends_rules depth 9

get_plugins_for_host-reads : (id : String) → Sends (λ w. w) IsRead (get_plugins_for_host id)
unfolding get_plugins_for_host
get_plugins_for_host-reads id = search sends_rules depth 9

get_host_by_id-reads : (id : String) → Sends (λ w. w) IsRead (get_host_by_id id)
unfolding get_host_by_id
get_host_by_id-reads id = search sends_rules depth 9

get_all_plugins-reads : Sends (λ w. w) IsRead get_all_plugins
unfolding get_all_plugins
get_all_plugins-reads = search sends_rules depth 9

get_topic_by_id-reads : (id : String) → Sends (λ w. w) IsRead (get_topic_by_id id)
unfolding get_topic_by_id
get_topic_by_id-reads id = search sends_rules depth 9

ruleset loading_rules = (
  sends_rules, Sends-update, Sends-io, get_all_agents-reads, get_agent_by_id-reads,
  get_agent_topics-reads, get_available_topics-reads, get_topic_agents-reads,
  get_agent_plugins-reads, get_available_plugins-reads, get_plugins_for_host-reads,
  get_host_by_id-reads, get_all_plugins-reads, get_topic_by_id-reads,
  get_connections_with_authorizers-reads, get_all_authorizers-reads,
)

abbrev pub Loads : {V : Type 0} → Ui V (Unit {0}) → Type 0
Loads {V} p = Sends (λ (m : Mounted V). m.world) IsRead p

agent_topics-Loads : (agent_id : String) → Loads (AgentTopics.fetch_data agent_id)
unfolding AgentTopics.fetch_data
agent_topics-Loads agent_id = search loading_rules depth 20

agent_plugins-Loads : (agent_id : String) → Loads (AgentPlugins.fetch_data agent_id)
unfolding AgentPlugins.fetch_data
agent_plugins-Loads agent_id = search loading_rules depth 20

host_plugins-Loads : (host_id : String) → Loads (HostPlugins.fetch_data host_id)
unfolding HostPlugins.fetch_data
host_plugins-Loads host_id = search loading_rules depth 20

topic_agents-Loads : (topic_id : String) → Loads (TopicAgents.fetch_data topic_id)
unfolding TopicAgents.fetch_data
topic_agents-Loads topic_id = search loading_rules depth 20

connections-Loads : Loads Connections.on_mount
unfolding Connections.on_mount
connections-Loads = search loading_rules depth 20

-- Whatever the server answers, mounting the tabs of an agent's topics and plugins, of a topic's
-- agents, of the connections, and the page of a host's plugins sends only GET requests, also where
-- an id is empty or a fetch fails.
pub components-Loads :
    (agent_id host_id topic_id : String)
    → Loads (AgentTopics.fetch_data agent_id)
      × Loads (AgentPlugins.fetch_data agent_id)
      × Loads (HostPlugins.fetch_data host_id)
      × Loads (TopicAgents.fetch_data topic_id)
      × Loads Connections.on_mount
components-Loads agent_id host_id topic_id = (
  agent_topics-Loads agent_id,
  agent_plugins-Loads agent_id,
  host_plugins-Loads host_id,
  topic_agents-Loads topic_id,
  connections-Loads,
)
