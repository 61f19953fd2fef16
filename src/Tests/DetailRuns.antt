-- ===== src/Tests/DetailRuns.antt =====
-- Runs of the tabs of agents, plugins, topics and authorizers, and of the forms.
use agience.Base.{subst, some, ◌⊎◌, refl, [], ◌∷◌, ◌≡◌, true, false}
use agience.Js.Value.{
  Value, Fields, null, str, obj, object, array, truthy, get, field, end, array_or_empty,
}
use agience.Js.Blank.{lacks_text}
use agience.Js.Exec.{ok}
use agience.Ui.{Mounted, Ui}
use agience.Services.Authorizers.{get_all_authorizers}
use agience.Client.{send}
use agience.Pages.Settings
use agience.Pages.Plugins
use agience.Ui.AgentCredentials
use agience.Ui.AgentCredentials.{Pending, on_agent_id, settle, nth}
use agience.Ui.AgentCredentials.Fresh
use agience.Ui.AgentCredentials.Fresh.{settle-Fresh}
use agience.Ui.Settling.{Settled, fetches-Settled}
use agience.Ui.AgentDetails
use agience.Ui.AgentDetails.{form_of}
use agience.Ui.AgentDetails.Deleted
use agience.Ui.AgentDetails.Deleted.{handle_confirm_delete-AgentDeleted}
use agience.Ui.AgentDetails.Saved.{Saved, handle_save-Saved}
use agience.Ui.AgentDetails.Resaved.{Resent, update_body-form_of}
use agience.Ui.Authorizers
use agience.Ui.Authorizers.{open_tab}
use agience.Ui.Authorizers.Agreement.{Knows, Reach, is_answered, Reach-Knows}
use agience.Ui.TopicDetails
use agience.Ui.TopicDetails.Deletion
use agience.Ui.TopicDetails.Deletion.{handle_delete_topic-TopicDeleted}
use agience.Ui.PluginDetails
use agience.Ui.Forms
use agience.Ui.Forms.Plugin
use agience.Ui.HostKeys
use agience.Ui.HostKeys.Saving.{Generated, handle_submit_form-Generated}
use agience.Tests.Worlds.{saying, agent}

abbrev agent_view : AgentDetails.View
agent_view = record AgentDetails.initial {
  selected_agent = agent;
  form_data = object (("name", str "Ada") ∷ []);
}

abbrev agent_tab : Mounted AgentDetails.View
agent_tab = record { view = agent_view; world = saying (ok agent) }

agent_chosen : truthy agent_view.selected_agent ≡ true
unfolding truthy
agent_chosen = refl

handle_confirm_delete-AgentDeleted_example : Deleted.Deleted agent_view agent_tab
handle_confirm_delete-AgentDeleted_example =
    handle_confirm_delete-AgentDeleted agent_view agent_tab agent_chosen

agent_named : get "name" agent_view.form_data ≡ ok (str "Ada")
unfolding get
agent_named = refl

ada_filled : lacks_text (str "Ada") ≡ ok false
unfolding lacks_text
ada_filled = refl

handle_save-Saved_example : Saved agent_view agent_tab false
handle_save-Saved_example =
    handle_save-Saved agent_view agent_tab (str "Ada") false agent_named ada_filled

-- An agent as the server sends it.
abbrev fetched : Fields
fetched = field "name" (str "Ada") (field "host_id" (str "h1") end)

abbrev shown_form : Value
shown_form = object (
    ("name", str "Ada")
    ∷ ("description", Value.undefined)
    ∷ ("persona", Value.undefined)
    ∷ ("hostId", null)
    ∷ ("executiveFunctionId", Value.undefined)
    ∷ ("is_enabled", Value.undefined)
    ∷ [])

fetched_shown : form_of (obj fetched) ≡ ok shown_form
unfolding form_of
fetched_shown = refl

update_body-form_of_example : Resent "a1" (obj fetched) shown_form
update_body-form_of_example = update_body-form_of "a1" fetched shown_form fetched_shown

abbrev authorizers_tab : Mounted Authorizers.View
authorizers_tab = record {
  view = Authorizers.initial (Settings.initial []);
  world = saying (ok (array (agent ∷ [])));
}

-- The tab is opened twice.
abbrev authorizers_opened : Mounted Authorizers.View
authorizers_opened = (open_tab authorizers_tab.view authorizers_tab).1

abbrev authorizers_reopened : Mounted Authorizers.View
authorizers_reopened = (open_tab authorizers_opened.view authorizers_opened).1

all_fetched : (get_all_authorizers authorizers_opened.world).0 ≡ ok (agent ∷ [])
unfolding get_all_authorizers send array_or_empty open_tab
all_fetched = refl

authorizers_reached :
    Reach authorizers_tab
      (is_answered (get_all_authorizers authorizers_opened.world).0)
      authorizers_reopened
authorizers_reached = Reach.opening (Reach.opening Reach.here)

authorizers_known : Reach authorizers_tab true authorizers_reopened
authorizers_known =
    subst (λ r. Reach authorizers_tab (is_answered r) authorizers_reopened) all_fetched
      authorizers_reached

Reach-Knows_example : Knows true authorizers_reopened.view
Reach-Knows_example =
    Reach-Knows [] authorizers_tab.world true authorizers_reopened authorizers_known

abbrev topic_view : TopicDetails.View
topic_view = record TopicDetails.initial {
  topic_to_delete = object (("id", str "t1") ∷ []);
  show_confirmation = true;
}

abbrev topics_page : Mounted TopicDetails.View
topics_page = record { view = topic_view; world = saying (ok (array [])) }

topic_marked : truthy topic_view.topic_to_delete ≡ true
unfolding truthy
topic_marked = refl

handle_delete_topic-TopicDeleted_example : Deletion.Deleted "t1" topic_view topics_page
handle_delete_topic-TopicDeleted_example =
    handle_delete_topic-TopicDeleted "t1" topic_view topics_page topic_marked

abbrev plugin_view : PluginDetails.View
plugin_view = PluginDetails.initial (Plugins.initial [])

abbrev plugin_form : Value
plugin_form =
    object (("name", str "mail") ∷ ("description", str " ") ∷ ("provider", str "Collection") ∷ [])

no_plugin : truthy plugin_view.selected_plugin ≡ false
unfolding truthy
no_plugin = refl

abbrev filled_in : Forms.View
filled_in = record { form_data = plugin_form; errors = object [] }

abbrev form_shown : Mounted Forms.View
form_shown = record { view = filled_in; world = saying (ok null) }

abbrev accept : Ui Forms.View (Unit {0})
accept m = (ok tt, m)

-- Two agents asked for, one after another, and the first answered.
abbrev second_asked : AgentCredentials.View
second_asked = on_agent_id "a2" (on_agent_id "a1" AgentCredentials.initial)

second_reached : Fresh.Reach AgentCredentials.initial second_asked
second_reached =
    Fresh.Reach.next
      (Fresh.Reach.next Fresh.Reach.here (Fresh.Step.changed AgentCredentials.initial "a1"))
      (Fresh.Step.changed (on_agent_id "a1" AgentCredentials.initial) "a2")

abbrev first_run : Pending
first_run = record { agent_id = "a1"; is_mounted = false }

first_waits : nth 1 second_asked.pending ≡ some first_run
unfolding on_agent_id
first_waits = refl

settle-Fresh_example :
    ("a1" ≡ second_asked.agent_id)
    ⊎ ((settle 1 (ok agent) second_asked).selected_agent ≡ second_asked.selected_agent)
settle-Fresh_example = settle-Fresh 1 (ok agent) first_run second_reached first_waits

fetches-Settled_example : Settled "t1"
fetches-Settled_example = fetches-Settled "t1"

abbrev keys_page : Mounted HostKeys.View
keys_page = record { view = HostKeys.initial; world = saying (ok agent) }

no_key_edited : truthy HostKeys.initial.editing_key ≡ false
unfolding truthy
no_key_edited = refl

handle_submit_form-Generated_example : Generated "h1" HostKeys.initial keys_page
handle_submit_form-Generated_example =
    handle_submit_form-Generated "h1" HostKeys.initial keys_page refl no_key_edited
