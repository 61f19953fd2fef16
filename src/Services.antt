-- ===== src/Services.antt =====
-- The REST services of the management UI, authority/manage-ui/src/services: one child for each
-- file. A child's functions send their requests through `Client.send`.
pub mod AgentPlugins
pub mod AgentTopics
pub mod Agents
pub mod Topics
pub mod TopicAgents
pub mod Plugins
pub mod PluginFunctions
pub mod Functions
pub mod Hosts
pub mod HostKeys
pub mod HostPlugins
pub mod Authorizers
pub mod Connections
pub mod Joined
pub mod Login
pub mod ReadOnly
pub mod Calls
pub mod Fallback
pub mod Joining
pub mod Deletion
pub mod KeyConversion
pub mod KeyList
