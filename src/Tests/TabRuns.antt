-- ===== src/Tests/TabRuns.antt =====
-- Runs of the settings, the agents of a topic, and what can still be assigned.
use agience.Base.{refl, [], ◌∷◌, ◌≡◌, true}
use agience.Js.Value.{Value, null, str, object, array, get?}
use agience.Js.Exec.{thrown, ok}
use agience.Ui.{Mounted, Ui}
use agience.Ui.Connections
use agience.Ui.ConnectionForm
use agience.Ui.ConnectionForm.Validation.{Outcome, is_complete, handle_submit-Outcome}
use agience.Ui.TopicAgents
use agience.Ui.AgentTopics
use agience.Ui.AgentPlugins
use agience.Ui.HostPlugins
use agience.Ui.HostPlugins.Adding.{Added, handle_add_plugin-Added}
use agience.Ui.Hosts
use agience.Ui.Loading.{Loads, components-Loads}
use agience.Tests.Worlds.{offline, agent, saying}

abbrev connection_form : Value
connection_form =
    object (("name", str "mail") ∷ ("description", str " ") ∷ ("authorizer_id", str "z1") ∷ [])

abbrev filled_view : ConnectionForm.View
filled_view = record { form_data = connection_form; errors = object [] }

abbrev form_mounted : Mounted ConnectionForm.View
form_mounted = record { view = filled_view; world = saying (ok null) }

abbrev accept : Value → Ui ConnectionForm.View (Unit {0})
accept form m = (ok tt, m)

form_name : get? "name" connection_form ≡ str "mail"
unfolding get?
form_name = refl

form_description : get? "description" connection_form ≡ str " "
unfolding get?
form_description = refl

handle_submit-Outcome_example :
    Outcome filled_view accept form_mounted "mail" " "
      (is_complete filled_view accept form_mounted "mail" " ")
handle_submit-Outcome_example =
    handle_submit-Outcome filled_view accept form_mounted "mail" " " form_name form_description

abbrev topic_view : TopicAgents.View
topic_view = record TopicAgents.initial { assigned_agents = array (agent ∷ []) }

abbrev topic_tab : Mounted TopicAgents.View
topic_tab = record { view = topic_view; world = saying (ok (array [])) }

abbrev host_page : Mounted HostPlugins.View
host_page = record { view = HostPlugins.initial; world = saying (ok (array [])) }

handle_add_plugin-Added_example : Added "h1" "p1" HostPlugins.initial host_page
handle_add_plugin-Added_example =
    handle_add_plugin-Added "h1" "p1" HostPlugins.initial host_page refl

components-Loads_example :
    Loads (AgentTopics.fetch_data "a1")
    × Loads (AgentPlugins.fetch_data "a1")
    × Loads (HostPlugins.fetch_data "")
    × Loads (TopicAgents.fetch_data "t1")
    × Loads Connections.on_mount
components-Loads_example = components-Loads "a1" "" "t1"

-- A complete form, and a server that cannot be reached.
abbrev host_form : Value
host_form = object (("name", str "barn") ∷ ("description", str "north") ∷ [])

abbrev host_view : Hosts.View
host_view = record (Hosts.initial null) { form_data = host_form; is_modal_open = true }

abbrev hosts_tab : Mounted Hosts.View
hosts_tab = record { view = host_view; world = saying (thrown offline) }
