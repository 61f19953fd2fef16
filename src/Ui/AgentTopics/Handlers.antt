-- ===== src/Ui/AgentTopics/Handlers.antt =====
-- authority/manage-ui/src/components/agents/AgentTopicsTab.tsx
-- The handlers that read the state of their render.
use agience.Base.{String, true, false, not, none, some, ◌||◌, ◌<>◌, ◌==◌, if◌then◌else◌, find}
use agience.Js.Value.{Value, get, get?, is_text, text}
use agience.Js.Exec.{pure, lift, try_catch, try_finally, when, ◌>>=◌, ◌>>◌}
use agience.World.{log_error}
use agience.Ui.{Ui, update, io, success, error}
use agience.Services.AgentTopics.{add_topic_to_agent, remove_topic_from_agent}
use agience.Ui.AgentTopics.{
  View, set_loading, show_notification, show_remove_confirmation, close_confirmation,
  fetch_assigned_topics, fetch_available_topics, topic_name_of,
}

-- The handlers that a render of the state `c` has made.
module _ (agent_id : String) (c : View) where
  unfoldable pub handle_remove_topic : Ui View (Unit {0})
  unfolding fetch_assigned_topics set_loading show_notification close_confirmation
  handle_remove_topic = if agent_id == "" || c.confirmation.topic_id == "" then pure tt else do
    set_loading true
    try_finally
        (try_catch
          (do
            io (remove_topic_from_agent agent_id c.confirmation.topic_id)
            fetch_assigned_topics agent_id
            show_notification "Topic Removed"
                ("Successfully removed topic \""
                  <> text c.confirmation.topic_name
                  <> "\" from the agent.")
                success)
          (λ e. do
            io (log_error "Error removing topic:")
            show_notification "Error"
                ("Failed to remove topic \""
                  <> text c.confirmation.topic_name
                  <> "\". Please try again.")
                error))
        (do set_loading false; close_confirmation)

  unfoldable pub handle_add_topic : String → Ui View (Unit {0})
  unfolding fetch_assigned_topics set_loading show_notification
  handle_add_topic topic_id = if agent_id == "" then pure tt else do
    set_loading true
    try_finally
        (try_catch
          (do
            io (add_topic_to_agent agent_id topic_id)
            fetch_assigned_topics agent_id
            show_notification "Topic Added"
                ("Successfully added topic \""
                  <> topic_name_of topic_id c.available_topics
                  <> "\" to the agent.")
                success)
          (λ e. do
            io (log_error "Error adding topic:")
            show_notification "Error"
                ("Failed to add topic \""
                  <> topic_name_of topic_id c.available_topics
                  <> "\". Please try again.")
                error))
        (set_loading false)

  -- The second look for the topic is in the case of the first.
  unfoldable pub handle_toggle_topic : String → Ui View (Unit {0})
  unfolding handle_add_topic show_remove_confirmation
  handle_toggle_topic topic_id =
      elim (find (λ t. is_text (get? "id" t) topic_id) c.assigned_topics) [
        | some topic ↦ show_remove_confirmation topic_id (get? "name" topic)
        | none ↦ handle_add_topic topic_id
      ]

  -- No request creates the topic: the calls that would are commented out in the source.
  unfoldable pub handle_save_topic : Value → Ui View (Unit {0})
  unfolding fetch_assigned_topics fetch_available_topics show_notification
  handle_save_topic topic_data = do
    update (λ v. record v { is_submitting = true })
    try_finally
        (try_catch
          (do
            name ← lift (get "name" topic_data)
            if agent_id == ""
                then show_notification "Success"
                    ("Topic \"" <> text name <> "\" created successfully") success
                else show_notification "Success"
                    ("Topic \"" <> text name <> "\" created and assigned to agent successfully")
                    success
            update (λ v. record v { show_topic_form = false })
            fetch_available_topics agent_id
            when (not (agent_id == "")) (fetch_assigned_topics agent_id))
          (λ e. do
            io (log_error "Error creating topic:")
            name ← lift (get "name" topic_data)
            show_notification "Error"
                ("Failed to create topic \"" <> text name <> "\". Please try again.") error))
        (update (λ v. record v { is_submitting = false }))

  unfoldable pub handle_create_topic : Ui View (Unit {0})
  unfolding update
  handle_create_topic = update (λ v. record v { show_topic_form = true })

  unfoldable pub handle_cancel_form : Ui View (Unit {0})
  unfolding update
  handle_cancel_form = update (λ v. record v { show_topic_form = false })
