-- ===== src/Ui/AgentDetails/Saving.antt =====
-- authority/manage-ui/src/components/agents/AgentDetailsTab.tsx: handleSave.
use agience.Base.{String, true, false, not, List, ◌&&◌, ◌<>◌, if◌then◌else◌}
use agience.Js.Value.{Value, null, get, get?, truthy, text}
use agience.Js.Exec.{
  Result, ok, thrown, pure, throw, lift, try_catch, try_finally, when, both, ◌>>=◌, ◌>>◌,
}
use agience.World.{log_error}
use agience.Ui.{Ui, io, success, error}
use agience.Js.Blank.{lacks_text}
use agience.Js.Text.{includes}
use agience.Services.Agents.{create_agent, update_agent, get_all_agents}
use agience.Ui.AgentDetails.{
  View, set_loading, set_agents, set_temp_agent, show_notification, fetch_agent_details,
}

unfoldable pub save_error : String → String
save_error message =
    if includes "validation" message
    then "Validation error: Please check all fields"
    else if includes "already exists" message
    then "An agent with this name already exists"
    else "Failed to save agent: " <> message

-- `Promise.all` of the list and the details. A saved agent that is `null` throws after the list has
-- been asked for, and nothing waits for that answer.
refresh : Value → Result Value → Ui View (List Value)
unfolding io both text ◌>>=◌
refresh saved (ok id) = do
  (updated_agents, _) ← both (io get_all_agents) (fetch_agent_details (text id))
  pure updated_agents
refresh saved (thrown e) = do try_catch (do io get_all_agents; pure tt) (λ _. pure tt); throw e

-- A temporary agent is no longer one once it has been saved.
unfoldable pub clear_temp : View → Ui View (Unit {0})
unfolding set_temp_agent truthy
clear_temp c = when (truthy c.temp_agent_id) (set_temp_agent null)

module _ (c : View) where
  -- The request of a save, with what it reports.
  unfoldable pub save_agent : Ui View Value
  unfolding io show_notification truthy get? text ◌>>=◌
  save_agent =
      if truthy c.selected_agent && not (truthy c.temp_agent_id)
      then (do
        saved_agent ← io (update_agent (text (get? "id" c.selected_agent)) c.form_data)
        show_notification "Success" "Agent updated successfully" success
        pure saved_agent)
      else do
        saved_agent ← io (create_agent c.form_data)
        show_notification "Success" "Agent created successfully" success
        pure saved_agent

  unfoldable pub save_valid : Ui View (Unit {0})
  unfolding set_agents refresh get ◌>>=◌
  save_valid = do
    saved_agent ← save_agent
    clear_temp c
    updated_agents ← refresh saved_agent (get "id" saved_agent)
    set_agents updated_agents

  unfoldable pub handle_save : Ui View (Unit {0})
  unfolding save_valid save_error set_loading show_notification io log_error get ◌>>=◌
  handle_save =
      try_finally
        (try_catch
          (do
            set_loading true
            name ← lift (get "name" c.form_data)
            blank ← lift (lacks_text name)
            (if blank
                then show_notification "Error" "Agent name is required" error
                else save_valid))
          (λ e. do
            io (log_error "Error saving agent:")
            show_notification "Error" (save_error e.message) error))
        (set_loading false)
