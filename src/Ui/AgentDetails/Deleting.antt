-- ===== src/Ui/AgentDetails/Deleting.antt =====
-- authority/manage-ui/src/components/agents/AgentDetailsTab.tsx: handleDelete and handleConfirmDelete.
use agience.Base.{String, Bool, true, false, not, [], ◌∷◌, ◌||◌, ◌<>◌, if◌then◌else◌}
use agience.Js.Value.{Value, null, get?, truthy, iterated, text}
use agience.Js.Exec.{pure, lift, try_catch, try_finally, when, ◌>>=◌, ◌>>◌}
use agience.World.{log_error, emit, set_search}
use agience.Ui.{Ui, io, success, error, warning}
use agience.Js.Text.{includes, length_text}
use agience.Services.Agents.{delete_agent}
use agience.Ui.AgentDetails.{
  View, empty_form, set_loading, select_agent, set_form, show_notification, fetch_agents,
  show_delete_confirmation, close_confirmation,
}

unfoldable pub delete_error : String → String
delete_error message =
    if includes "foreign key constraint" message
    then "Cannot delete agent because it is referenced by other entities. Please remove all dependencies first."
    else "Failed to delete agent: " <> message

-- `v && v.length > 0`
abbrev pub has_some : Value → Bool
has_some v = elim (iterated v) [ [] ↦ false | _ ∷ _ ↦ true ]

abbrev pub warning_text : String → String → String
warning_text plugins topics =
    "This agent has " <> plugins <> " plugins and " <> topics
    <> " topics attached. These will be removed when deleting the agent."

module _ (c : View) where
  unfoldable pub handle_delete : Ui View (Unit {0})
  unfolding show_delete_confirmation truthy
  handle_delete =
      if not (truthy c.selected_agent) || truthy c.temp_agent_id
      then pure tt
      else show_delete_confirmation c.selected_agent

  -- What is warned of before a deletion. Both lengths are read where one of the lists has elements.
  unfoldable pub warn : Ui View (Unit {0})
  unfolding iterated show_notification get? ◌>>=◌
  warn =
      when (has_some (get? "plugins" c.selected_agent) || has_some (get? "topics" c.selected_agent))
        do
          plugins ← lift (length_text (get? "plugins" c.selected_agent))
          topics ← lift (length_text (get? "topics" c.selected_agent))
          show_notification "Warning" (warning_text plugins topics) warning

  unfoldable pub handle_confirm_delete : Ui View (Unit {0})
  unfolding select_agent set_form fetch_agents close_confirmation delete_error set_loading
      show_notification io emit log_error truthy get? text ◌>>=◌
  handle_confirm_delete =
      if truthy c.selected_agent
      then try_finally
          (try_catch
            (do
              set_loading true
              warn
              io (delete_agent (text (get? "id" c.selected_agent)))
              select_agent null
              set_form empty_form
              io (emit (set_search []))
              fetch_agents
              show_notification "Success" "Agent deleted successfully" success)
            (λ e. do
              io (log_error "Error deleting agent:")
              show_notification "Error" (delete_error e.message) error))
          (do set_loading false; close_confirmation)
      else pure tt
