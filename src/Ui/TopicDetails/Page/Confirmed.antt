-- ===== src/Ui/TopicDetails/Page/Confirmed.antt =====
-- What a user can do on the page of the topics, and what that sends.
use mathlib.Core.List.{Memᴰ}
use agience.Base.{String, true, false, Option, none, some, List, [], ◌∷◌, ◌<>◌, ◌≡◌, refl}
use agience.Js.Value.{Value, get?, truthy, text}
use agience.World.{Call}
use agience.Client.{delete_call}
use agience.Services.Topics.{get_all_topics, create_topic, update_topic, delete_topic}
use agience.Html.{events}
use agience.Html.Events.{Each, Fires, Takes, takes_rules, events-Fires}
use agience.Ui.{Ui}
use agience.Ui.Common.{card}
use agience.Ui.Common.Dialogs.{confirmation_modal-Fires, notification_modal-Fires}
use agience.Ui.Dispatch.{run_all}
use agience.Ui.Dispatch.Sending.{UiSends, Each-UiSends}
use agience.Ui.Dispatch.Deletes.{Permitted, confirmed, permitted_rules}
use agience.Ui.Lists.Offers.{spinner-Fires}
use agience.Ui.Forms
use agience.Ui.TopicDetails
use agience.Ui.TopicDetails.{
  View, select_found, fetch_topics, handle_delete_topic, handle_save_topic, save_topic,
}
use agience.Ui.TopicDetails.FormPage.{labelled_field, topic_form}
use agience.Ui.TopicDetails.Page.{
  Action, select, add_topic, change_form, submit_form, close_form, edit, ask_delete, close_notice,
  cancel_delete, confirm_delete, submit, perform, topic_entry, topic_entries, topic_list,
  topic_card, page, close_notification,
}

-- The topic is the selected one, and the form is closed.
abbrev Shown : View → Value → Type 0
Shown c topic =
    (c.show_form ≡ false) × (truthy c.selected_topic ≡ true) × (topic ≡ c.selected_topic)

-- What has to hold where an action can be taken.
abbrev pub Allowed : View → Action → Type 0
Allowed c (select topic) = (c.is_loading ≡ false) × Memᴰ topic c.topics
Allowed c add_topic = Unit
Allowed c (change_form name v) = (c.show_form ≡ true) × (c.is_loading ≡ false)
Allowed c submit_form = c.show_form ≡ true
Allowed c close_form = (c.show_form ≡ true) × (c.is_loading ≡ false)
Allowed c (edit topic) = Shown c topic
Allowed c (ask_delete topic) = Shown c topic
Allowed c close_notice = c.notification.is_open ≡ true
Allowed c cancel_delete = c.show_confirmation ≡ true
Allowed c confirm_delete = c.show_confirmation ≡ true

module _ (c : View) where
  entry-Fires :
      (topic : Value)
      → c.is_loading ≡ false
      → Memᴰ topic c.topics
      → Fires (Takes (Allowed c)) [] (topic_entry c topic)
  unfolding topic_entry
  entry-Fires topic loaded m = search takes_rules depth 16

  entries-Fires :
      (topics : List Value)
      → c.is_loading ≡ false
      → ((t : Value) → Memᴰ t topics → Memᴰ t c.topics)
      → Fires (Takes (Allowed c)) [] (topic_entries c topics)
  unfolding topic_entries
  entries-Fires [] loaded m = search takes_rules depth 16
  entries-Fires (t ∷ ts) loaded m =
      let entry = λ (u : Value) (k : Memᴰ u (t ∷ ts)). entry-Fires u loaded (m u k) in
      search (takes_rules, entry) depth 16

  list-Fires : Fires (Takes (Allowed c)) [] (topic_list c)
  unfolding topic_list card
  list-Fires =
      let entries = λ (loaded : c.is_loading ≡ false). entries-Fires c.topics loaded (λ t m. m) in
      search (takes_rules, spinner-Fires, entries) depth 16

  form-Fires :
      (f : Forms.View)
      → c.show_form ≡ true
      → Fires
          (Takes (Allowed c))
          []
          (topic_form submit_form close_form change_form c.is_loading f c.form_data)
  unfolding topic_form labelled_field card
  form-Fires f open' = search takes_rules depth 20

  card-Fires :
      (date_text : Value → String)
      → c.show_form ≡ false
      → truthy c.selected_topic ≡ true
      → Fires (Takes (Allowed c)) [] (topic_card date_text c.selected_topic)
  unfolding topic_card card
  card-Fires date_text closed chosen =
      let shown : Shown c c.selected_topic = (closed, chosen, refl) in search takes_rules depth 20

  page-Fires :
      (date_text : Value → String) (f : Forms.View)
      → Fires (Takes (Allowed c)) [] (page date_text f c)
  unfolding page
  page-Fires date_text f =
      search
        (
          takes_rules, list-Fires, form-Fires, card-Fires, notification_modal-Fires,
          confirmation_modal-Fires,
        )
        depth 20

-- This dialog is not closed to its buttons while something is loading.
abbrev pub TopicPermitted : View → Call → Type 0
TopicPermitted c =
    Permitted c.show_confirmation false
      (delete_call ("/manage/topic/" <> text (get? "id" c.topic_to_delete)))

module _ (topic_id : String) (c : View) where
  abbrev SendsPermitted : {A : Type 0} → Ui View A → Type 0
  SendsPermitted m = UiSends (TopicPermitted c) m

  select_found-Permitted : (found : Option Value) → SendsPermitted (select_found found)
  unfolding select_found TopicDetails.select_topic
  select_found-Permitted none = search permitted_rules
  select_found-Permitted (some topic) = search permitted_rules

  fetch_topics-Permitted : SendsPermitted (fetch_topics topic_id)
  unfolding fetch_topics get_all_topics
  fetch_topics-Permitted = search (permitted_rules, select_found-Permitted) depth 16

  save_topic-Permitted : (form : Value) → SendsPermitted (save_topic topic_id c form)
  unfolding save_topic create_topic update_topic
  save_topic-Permitted form = search permitted_rules depth 20

  submit-Permitted : (f : Forms.View) → SendsPermitted (submit topic_id f c)
  unfolding submit handle_save_topic
  submit-Permitted f =
      search (permitted_rules, fetch_topics-Permitted, save_topic-Permitted) depth 16

  handle_delete_topic-Permitted :
      c.show_confirmation ≡ true → SendsPermitted (handle_delete_topic topic_id c)
  unfolding handle_delete_topic delete_topic
  handle_delete_topic-Permitted h =
      let asked : TopicPermitted c _ = confirmed h refl refl in
      search (permitted_rules, fetch_topics-Permitted) depth 20

  perform-Permitted :
      (f : Forms.View) (a : Action) → Allowed c a → SendsPermitted (perform topic_id f c a)
  unfolding perform close_notification TopicDetails.handle_select_topic
      TopicDetails.handle_add_topic TopicDetails.set_show_form TopicDetails.handle_edit_topic
      TopicDetails.handle_delete_click TopicDetails.set_show_confirmation
  perform-Permitted f submit_form h = submit-Permitted f
  perform-Permitted f confirm_delete h = handle_delete_topic-Permitted h
  perform-Permitted f a h = search permitted_rules depth 12

-- Whatever the state of the page of the topics and of its form, an event of what is shown takes one
-- action at most, and only where the state allows it: a topic is selected only from the list, once
-- that has been loaded; the form is used only while it is open, and only the selected topic is
-- edited or deleted, while the form is closed; a notification is closed, and a deletion confirmed
-- or cancelled, only while it is open. And whatever the handlers are answered, they send no DELETE
-- request but the one for the topic of the open dialog.
pub topics_page-Confirmed :
    (date_text : Value → String) (topic_id : String) (f : Forms.View) (c : View)
    → Each (Takes (Allowed c)) (events (page date_text f c))
      × Each
          (λ acts. UiSends (TopicPermitted c) (run_all (perform topic_id f c) acts))
          (events (page date_text f c))
topics_page-Confirmed date_text topic_id f c =
    let offered = events-Fires (page date_text f c) (page-Fires c date_text f) in
    (
      offered,
      Each-UiSends (perform topic_id f c) (perform-Permitted topic_id c f)
          (events (page date_text f c)) offered,
    )
