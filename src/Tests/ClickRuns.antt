-- ===== src/Tests/ClickRuns.antt =====
-- Pages that are shown, and what can be clicked in them.
use agience.Base.{String, [], ◌∷◌, true, none, some}
use agience.Js.Value.{Value, str, object, array}
use agience.Html.{events}
use agience.Html.Events.{Each, Takes}
use agience.Ui.Dispatch.{run_all}
use agience.Ui.Dispatch.Sending.{UiSends}
use agience.Ui.Forms
use agience.Ui.Forms.Function
use agience.Ui.AgentPlugins
use agience.Ui.AgentPlugins.Page.Confirmed.{PluginPermitted, agent_page-Confirmed}
use agience.Ui.HostPlugins
use agience.Ui.HostPlugins.Page.Confirmed.{host_page-Confirmed}
use agience.Ui.PluginFunctions
use agience.Ui.PluginFunctions.Page.Confirmed.{FunctionPermitted, functions_page-Confirmed}
use agience.Ui.TopicDetails
use agience.Ui.TopicDetails.Page.Confirmed.{TopicPermitted, topics_page-Confirmed}
use agience.Ui.Forms.Topic
use agience.Ui.Forms.Authorizer
use agience.Ui.ConnectionForm
use agience.Ui.Connections
use agience.Ui.Connections.Page.Confirmed.{ConnectionPermitted}
use agience.Ui.Authorizers
use agience.Ui.Authorizers.Page.Confirmed.{AuthorizerPermitted}
use agience.Ui.SettingsTabs.{tabs-Confirmed}
use agience.Pages.Settings
use agience.Ui.HostKeys
use agience.Ui.HostKeys.Page.Offered
use agience.Ui.HostKeys.Page.Confirmed.{KeyPermitted, keys_page-Confirmed}

abbrev pub date_text : Value → String
date_text v = "today"

abbrev pub item : Value
item = object (("id", str "i1") ∷ ("name", str "first") ∷ ("description", str "an item") ∷ [])

-- A key is about to be deleted.
abbrev keys : HostKeys.View
keys = record HostKeys.initial {
  keys = item ∷ [];
  confirmation = record HostKeys.initial.confirmation { is_open = true; key_id = some "i1" };
}

keys_page-Confirmed_example :
    Each (Offered.Offered keys) (events (HostKeys.Page.page date_text none keys))
    × Each
        (λ acts. UiSends (KeyPermitted "h1" keys) (run_all (HostKeys.Page.perform "h1" keys) acts))
        (events (HostKeys.Page.page date_text none keys))
keys_page-Confirmed_example = keys_page-Confirmed date_text none "h1" keys

-- A plugin is about to be removed from a host.
abbrev removing : HostPlugins.View
removing = record HostPlugins.initial {
  assigned_plugins = item ∷ [];
  confirmation = record HostPlugins.initial.confirmation { is_open = true };
}

host_page-Confirmed_example :
    Each
      (Takes (HostPlugins.Page.Confirmed.Allowed removing))
      (events (HostPlugins.Page.page removing))
    × Each
        (λ acts.
          UiSends
            (HostPlugins.Page.Confirmed.PluginPermitted "h1" removing)
            (run_all (HostPlugins.Page.perform "h1" removing) acts))
        (events (HostPlugins.Page.page removing))
host_page-Confirmed_example = host_page-Confirmed "h1" removing

-- A plugin of an agent is shown.
abbrev plugins : AgentPlugins.View
plugins = record AgentPlugins.initial { assigned_plugins = item ∷ [] }

abbrev lower : String → String
lower s = s

agent_page-Confirmed_example :
    Each
      (Takes (AgentPlugins.Page.Confirmed.Allowed "a1" plugins))
      (events (AgentPlugins.Page.page lower "a1" plugins))
    × Each
        (λ acts.
          UiSends
            (PluginPermitted "a1" plugins)
            (run_all (AgentPlugins.Page.perform "a1" [] plugins) acts))
        (events (AgentPlugins.Page.page lower "a1" plugins))
agent_page-Confirmed_example = agent_page-Confirmed lower "a1" [] plugins

-- A function of a plugin is edited, and the form is open.
abbrev functions : PluginFunctions.View
functions = record PluginFunctions.initial {
  functions = array (item ∷ []);
  is_form_open = true;
  editing_function_id = str "i1";
}

functions_page-Confirmed_example :
    Each
      (Takes (PluginFunctions.Page.Confirmed.Allowed functions))
      (events (PluginFunctions.Page.page "p1" Function.initial functions))
    × Each
        (λ acts.
          UiSends
            (FunctionPermitted "p1" functions)
            (run_all (PluginFunctions.Page.perform "p1" Function.initial functions) acts))
        (events (PluginFunctions.Page.page "p1" Function.initial functions))
functions_page-Confirmed_example = functions_page-Confirmed "p1" Function.initial functions

-- A topic is selected and about to be deleted.
abbrev topics : TopicDetails.View
topics = record TopicDetails.initial {
  topics = item ∷ [];
  selected_topic = item;
  topic_to_delete = item;
  show_confirmation = true;
}

abbrev topic_form : Forms.View
topic_form = Topic.initial (object [])

topics_page-Confirmed_example :
    Each
      (Takes (TopicDetails.Page.Confirmed.Allowed topics))
      (events (TopicDetails.Page.page date_text topic_form topics))
    × Each
        (λ acts.
          UiSends
            (TopicPermitted topics)
            (run_all (TopicDetails.Page.perform "i1" topic_form topics) acts))
        (events (TopicDetails.Page.page date_text topic_form topics))
topics_page-Confirmed_example = topics_page-Confirmed date_text "i1" topic_form topics

-- A connection is edited, and an authorizer is about to be deleted.
abbrev connections : Connections.View
connections = record Connections.initial {
  connections = item ∷ [];
  authorizers = item ∷ [];
  selected_connection = item;
  is_form_open = true;
}

abbrev connection_form : ConnectionForm.View
connection_form = ConnectionForm.initial item

abbrev authorizers : Authorizers.View
authorizers = record (Authorizers.initial (Settings.initial [])) {
  authorizers = item ∷ [];
  selected_authorizer = item;
  confirmation = record { is_open = true; title = ""; message = ""; authorizer_id = str "i1" };
}

abbrev authorizer_form : Forms.View
authorizer_form = Authorizer.initial item

tabs-Confirmed_example :
    (Each
        (Takes (Connections.Page.Confirmed.Allowed connections))
        (events (Connections.Page.page date_text connection_form connections))
      × Each
          (λ acts.
            UiSends
              (ConnectionPermitted connections)
              (run_all (Connections.Page.perform connection_form connections) acts))
          (events (Connections.Page.page date_text connection_form connections)))
    × (Each
          (Takes (Authorizers.Page.Confirmed.Allowed authorizers))
          (events (Authorizers.Page.page date_text authorizer_form authorizers))
        × Each
            (λ acts.
              UiSends
                (AuthorizerPermitted authorizers)
                (run_all (Authorizers.Page.perform authorizer_form authorizers) acts))
            (events (Authorizers.Page.page date_text authorizer_form authorizers)))
tabs-Confirmed_example =
    tabs-Confirmed date_text connection_form connections authorizer_form authorizers
