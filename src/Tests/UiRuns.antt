-- ===== src/Tests/UiRuns.antt =====
-- Runs of the components.
use agience.Base.{refl, [], ◌∷◌, ◌≡◌, true, ◌==◌, if◌then◌else◌}
use agience.Js.Value.{Value, str, object, array, get, truthy, text}
use agience.Js.Exec.{ok, thrown}
use agience.World.{World, log}
use agience.Client.{send}
use agience.Ui.{Mounted}
use agience.Ui.AgentTopics
use agience.Ui.AgentTopics.Saving.{Saved, handle_save_topic-Saved}
use agience.Ui.PluginFunctions
use agience.Ui.PluginFunctions.{remove_and_delete}
use agience.Ui.PluginFunctions.Deletion.{
  Ends, Unanswered, remove_and_delete-Ends, handle_confirm_delete-Unanswered, removal, deletion,
  refetch,
}
use agience.Services.PluginFunctions.{
  remove_function_from_plugin, delete_function, get_functions_for_plugin,
}
use agience.Tests.Worlds.{saying, serving, offline}

abbrev mounted_in : {V : Type 0} → V → World → Mounted V
mounted_in v w = record { view = v; world = w }

abbrev topics_view : AgentTopics.View
topics_view = record AgentTopics.initial {
  confirmation = record { is_open = true; topic_id = "t1"; topic_name = str "news" };
}

abbrev topics_tab : Mounted AgentTopics.View
topics_tab = mounted_in topics_view (saying (ok (array [])))

abbrev topic_form : Value
topic_form = object (("name", str "news") ∷ [])

form_named : get "name" topic_form ≡ ok (str "news")
unfolding get
form_named = refl

handle_save_topic-Saved_example : Saved "a1" topics_view topic_form topics_tab
handle_save_topic-Saved_example =
    handle_save_topic-Saved "a1" topics_view topic_form (str "news") topics_tab form_named

abbrev functions_view : PluginFunctions.View
functions_view = record PluginFunctions.initial {
  confirmation = record PluginFunctions.initial.confirmation { function_id = str "f1" };
}

-- The server takes the function from the plugin, and cannot be reached for the deletion.
abbrev functions_tab : Mounted PluginFunctions.View
functions_tab =
    mounted_in functions_view
      (serving λ url. if url == "/manage/function/f1" then thrown offline else ok (array []))

remove_and_delete-Ends_example :
    Ends
      (remove_function_from_plugin "p1" "f1" functions_tab.world).0
      (delete_function "f1" (remove_function_from_plugin "p1" "f1" functions_tab.world).1).0
      (remove_and_delete "p1" "f1" functions_tab).0
remove_and_delete-Ends_example = remove_and_delete-Ends "p1" "f1" functions_tab

function_chosen : truthy functions_view.confirmation.function_id ≡ true
unfolding truthy
function_chosen = refl

function_removed : (removal "p1" functions_view functions_tab).0 ≡ ok tt
unfolding remove_function_from_plugin send text
function_removed = refl

function_unanswered : (deletion "p1" functions_view functions_tab).0 ≡ thrown offline
unfolding delete_function remove_function_from_plugin send text
function_unanswered = refl

functions_fetched : (refetch "p1" functions_view functions_tab).0 ≡ ok (array [])
unfolding get_functions_for_plugin delete_function remove_function_from_plugin send text log
functions_fetched = refl

handle_confirm_delete-Unanswered_example : Unanswered "p1" functions_view functions_tab
handle_confirm_delete-Unanswered_example =
    handle_confirm_delete-Unanswered "p1" functions_view functions_tab offline (array [])
      function_chosen refl function_removed function_unanswered refl functions_fetched
