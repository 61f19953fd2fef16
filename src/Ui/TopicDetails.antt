-- ===== src/Ui/TopicDetails.antt =====
-- authority/manage-ui/src/components/topics/TopicDetails.tsx
pub mod Deletion
pub mod FormPage
pub mod Page
use agience.Base.{
  String, Bool, true, false, not, Option, none, some, List, [], ◌∷◌, ◌==◌, if◌then◌else◌,
}
use agience.Js.Value.{Value, null, str, get, get?, truthy, object, text}
use agience.Js.Exec.{pure, lift, try_catch, try_finally, when, ◌>>=◌, ◌>>◌}
use agience.World.{log_error, emit, set_search}
use agience.Ui.{
  Ui, update, io, find_by_id, Kind, success, error, Notification, no_notification, opened,
}
use agience.Services.Topics.{get_all_topics, create_topic, update_topic, delete_topic}

-- Whether the notification is open stands beside its text.
pub record View : Type 0 where
  pub topics : List Value
  pub selected_topic : Value
  pub is_loading : Bool
  pub show_form : Bool
  pub show_confirmation : Bool
  pub notification : Notification
  pub topic_to_delete : Value
  pub form_data : Value

abbrev pub empty_form : Value
empty_form = object (("name", str "") ∷ ("description", str "") ∷ [])

abbrev pub initial : View
initial = record {
  topics = [];
  selected_topic = null;
  is_loading = true;
  show_form = false;
  show_confirmation = false;
  notification = no_notification;
  topic_to_delete = null;
  form_data = empty_form;
}

unfoldable pub set_loading : Bool → Ui View (Unit {0})
unfolding update
set_loading b = update λ v. record v { is_loading = b }

unfoldable pub select_topic : Value → Ui View (Unit {0})
unfolding update
select_topic topic = update λ v. record v { selected_topic = topic }

unfoldable pub set_show_form : Bool → Ui View (Unit {0})
unfolding update
set_show_form b = update λ v. record v { show_form = b }

unfoldable pub set_form : Value → Ui View (Unit {0})
unfolding update
set_form form = update λ v. record v { form_data = form }

unfoldable pub set_show_confirmation : Bool → Ui View (Unit {0})
unfolding update
set_show_confirmation b = update λ v. record v { show_confirmation = b }

unfoldable pub set_topic_to_delete : Value → Ui View (Unit {0})
unfolding update
set_topic_to_delete topic = update λ v. record v { topic_to_delete = topic }

unfoldable pub show_notification_modal : String → String → Kind → Ui View (Unit {0})
unfolding update
show_notification_modal title message kind =
    update λ v. record v { notification = opened title message kind }

unfoldable pub select_found : Option Value → Ui View (Unit {0})
unfolding select_topic ◌>>=◌
select_found none = pure tt
select_found (some topic) = select_topic topic

-- Every render with the id `topic_id` in its address has made this.
unfoldable pub fetch_topics : String → Ui View (Unit {0})
unfolding set_loading update io find_by_id select_found log_error show_notification_modal ◌>>=◌
fetch_topics topic_id =
    try_finally
      (try_catch
        (do
          set_loading true
          topics_data ← io get_all_topics
          update (λ v. record v { topics = topics_data })
          when (not (topic_id == ""))
              (do topic ← lift (find_by_id topic_id topics_data); select_found topic))
        (λ e. do
          io (log_error "Error fetching topics:")
          show_notification_modal "Error" "Failed to fetch topics" error))
      (set_loading false)

unfoldable pub handle_select_topic : Value → Ui View (Unit {0})
unfolding select_topic io emit get text ◌>>=◌
handle_select_topic topic = do
  select_topic topic
  id ← lift (get "id" topic)
  io (emit (set_search (("id", text id) ∷ [])))

unfoldable pub handle_add_topic : Ui View (Unit {0})
unfolding set_form select_topic set_show_form io emit ◌>>=◌
handle_add_topic = do
  set_form empty_form
  select_topic null
  set_show_form true
  io (emit (set_search []))

unfoldable pub handle_edit_topic : Value → Ui View (Unit {0})
unfolding set_form select_topic set_show_form get get? ◌>>=◌
handle_edit_topic topic = do
  name ← lift (get "name" topic)
  set_form (object (("name", name) ∷ ("description", get? "description" topic) ∷ []))
  select_topic topic
  set_show_form true

unfoldable pub handle_delete_click : Value → Ui View (Unit {0})
unfolding set_topic_to_delete set_show_confirmation ◌>>=◌
handle_delete_click topic = do set_topic_to_delete topic; set_show_confirmation true

-- The handlers that a render of the state `c` has made, with the id of its address.
module _ (topic_id : String) (c : View) where
  unfoldable pub handle_delete_topic : Ui View (Unit {0})
  unfolding set_show_confirmation set_topic_to_delete select_topic show_notification_modal io emit
      log_error truthy get? text ◌>>=◌
  handle_delete_topic =
      if truthy c.topic_to_delete
      then try_catch
          (do
            io (delete_topic (text (get? "id" c.topic_to_delete)))
            fetch_topics topic_id
            set_show_confirmation false
            set_topic_to_delete null
            select_topic null
            io (emit (set_search []))
            show_notification_modal "Success" "Topic deleted successfully" success)
          (λ e. do
            io (log_error "Error deleting topic:")
            show_notification_modal "Error" "Failed to delete topic" error)
      else pure tt

  -- The request of a save, with what it reports.
  unfoldable pub save_topic : Value → Ui View (Unit {0})
  unfolding io emit show_notification_modal select_topic get get? truthy text ◌>>=◌
  save_topic form_data =
      if truthy c.selected_topic
      then (do
        io (update_topic (text (get? "id" c.selected_topic)) form_data)
        show_notification_modal "Success" "Topic updated successfully" success)
      else do
        new_topic ← io (create_topic form_data)
        show_notification_modal "Success" "Topic created successfully" success
        select_topic new_topic
        id ← lift (get "id" new_topic)
        io (emit (set_search (("id", text id) ∷ [])))

  unfoldable pub handle_save_topic : Value → Ui View (Unit {0})
  unfolding save_topic fetch_topics set_show_form show_notification_modal io log_error ◌>>=◌
  handle_save_topic form_data =
      try_catch (do save_topic form_data; set_show_form false; fetch_topics topic_id)
        (λ e. do
          io (log_error "Error saving topic:")
          show_notification_modal "Error" "Failed to save topic" error)
