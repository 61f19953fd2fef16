-- ===== src/Ui/TopicDetails/Page.antt =====
-- authority/manage-ui/src/components/topics/TopicDetails.tsx
-- What the component shows, and what its handlers do. `date_text` is what
-- `new Date(v).toLocaleDateString()` gives.
pub mod Confirmed
use agience.Base.{String, true, false, none, some, List, [], ◌∷◌, ◌<>◌, if◌then◌else◌}
use agience.Js.Value.{Value, str, get?, truthy, or_else, text}
use agience.Js.Same.{is_same}
use agience.Js.Exec.{pure, lift, when, try_catch, ◌>>=◌, ◌>>◌}
use agience.World.{log_error}
use agience.Html.{marked, on_click, Html, ◌&◌, txt, child, el, each, of_field, show_where}
use agience.Ui.{Ui, update, io}
use agience.Ui.Common.{card, spinner, confirmation_modal, notification_modal}
use agience.Ui.Forms
use agience.Ui.Forms.Topic.{rules}
use agience.Ui.TopicDetails.{
  View, set_show_form, set_show_confirmation, handle_select_topic, handle_add_topic,
  handle_edit_topic, handle_delete_click, handle_delete_topic, handle_save_topic,
}
use agience.Ui.TopicDetails.FormPage.{topic_form}

-- The handlers of the elements. `change_form` is one of the form's own.
pub data Action : Type 0 where
  select : Value → Action
  add_topic : Action
  change_form : String → Value → Action
  submit_form : Action
  close_form : Action
  edit : Value → Action
  ask_delete : Value → Action
  close_notice : Action
  cancel_delete : Action
  confirm_delete : Action

-- `setShowNotification(false)`
unfoldable pub close_notification : Ui View (Unit {0})
unfolding update
close_notification =
    update λ v. record v { notification = record v.notification { is_open = false } }

-- What a submission of the form with the state `f` does to the page; its errors are the form's own.
unfoldable pub submit : String → Forms.View → View → Ui View (Unit {0})
unfolding Forms.find_errors io log_error ◌>>=◌
submit topic_id f c = do
  new_errors ← lift (Forms.find_errors rules f.form_data)
  when (Forms.is_empty new_errors) (
      try_catch (handle_save_topic topic_id c f.form_data)
        (λ e. io (log_error "Error submitting form:")))

-- What a handler of the render of `c` does, while the form has the state `f`.
unfoldable pub perform : String → Forms.View → View → Action → Ui View (Unit {0})
perform topic_id f c (select topic) = handle_select_topic topic
perform topic_id f c add_topic = handle_add_topic
perform topic_id f c (change_form name v) = pure tt
perform topic_id f c submit_form = submit topic_id f c
perform topic_id f c close_form = set_show_form false
perform topic_id f c (edit topic) = handle_edit_topic topic
perform topic_id f c (ask_delete topic) = handle_delete_click topic
perform topic_id f c close_notice = close_notification
perform topic_id f c cancel_delete = set_show_confirmation false
perform topic_id f c confirm_delete = handle_delete_topic topic_id c

unfoldable pub topic_entry : View → Value → Html Action
topic_entry c topic = of_field "id" topic λ id.
    el "div" (marked (is_same (get? "id" c.selected_topic) id) ∷ on_click false (select topic) ∷ [])
      (el "div" [] (
        el "div" [] (
          el "h3" [] (child (get? "name" topic))
          & el "p" [] (child (or_else (get? "description" topic) (str "No description"))))))

unfoldable pub topic_entries : View → List Value → Html Action
topic_entries c [] = el "div" [] (
    el "p" [] (txt "No topics found")
    & el "button" (on_click false add_topic ∷ []) (txt "Create your first topic"))
topic_entries c (t ∷ ts) = each (topic_entry c) (t ∷ ts)

unfoldable pub topic_list : View → Html Action
topic_list c =
    card "My Topics"
      (some (el "button" (on_click false add_topic ∷ []) (el "span" [] (txt "New Topic"))))
      (el "div" [] (if c.is_loading then spinner else topic_entries c c.topics))

unfoldable pub topic_card : (Value → String) → Value → Html Action
topic_card date_text topic =
    card ("Topic Details: " <> text (get? "name" topic))
      (some (
        el "div" [] (
          el "button" (on_click false (edit topic) ∷ []) (txt "Edit")
          & el "button" (on_click false (ask_delete topic) ∷ []) (txt "Delete"))))
      (el "div" [] (
        el "div" [] (
          el "h4" [] (txt "Description")
          & el "p" [] (child (or_else (get? "description" topic) (str "No description provided"))))
        & show_where (get? "created_date" topic) (
            el "div" [] (
              el "h4" [] (txt "Created")
              & el "p" [] (txt (date_text (get? "created_date" topic)))))))

unfoldable pub page : (Value → String) → Forms.View → View → Html Action
page date_text f c = el "div" [] (
    el "div" [] (topic_list c)
    & el "div" [] (
        if c.show_form
        then topic_form submit_form close_form change_form c.is_loading f c.form_data
        else if truthy c.selected_topic
        then topic_card date_text c.selected_topic
        else el "div" []
            (el "p" [] (txt "Select a topic from the list or create a new one to get started.")))
    & confirmation_modal c.show_confirmation cancel_delete confirm_delete (txt "Delete Topic")
        (txt (
          "Are you sure you want to delete the topic \""
          <> text (get? "name" c.topic_to_delete)
          <> "\"? This action cannot be undone."))
        "Delete" "Cancel" false
    & notification_modal c.notification close_notice)
