-- ===== src/Ui/TopicDetails/Deletion.antt =====
-- Deleting a topic, from the confirmation to the notification.
use agience.Base.{
  String, true, false, List, ◌≡◌, arith, ◌⊎◌, inl, inr, refl, Bool-cases, Option-cases, not, ◌==◌,
}
use agience.Js.Value.{Value, null, text, truthy, get?}
use agience.Js.Exec.{Exn, Result, ok, thrown, Result-cases}
use agience.World.{World}
use agience.Trace.{sent}
use agience.Services.Topics.{delete_topic, get_all_topics}
use agience.Ui.{Mounted, find_by_id, success, error}
use agience.Ui.TopicDetails.{View, handle_delete_topic, fetch_topics}

-- A list after it has been fetched again.
abbrev refreshed : Result (List Value) → List Value → List Value
refreshed (ok topics) old = topics
refreshed (thrown e) old = old

fetch_topics-run :
    (id : String) (m : Mounted View)
    → fetch_topics id m ≡ (
      ok tt,
      record m {
        world = (fetch_topics id m).1.world;
        view = record m.view {
          topics = refreshed (get_all_topics m.world).0 m.view.topics;
          is_loading = false;
          selected_topic = (fetch_topics id m).1.view.selected_topic;
          notification = (fetch_topics id m).1.view.notification;
        };
      },
    )
unfolding fetch_topics
fetch_topics-run id m = elim (Result-cases (get_all_topics m.world).0) [
  | inr (e, failed) ↦ rw failed refl
  | inl (topics, fetched) ↦ elim (Bool-cases (not (id == ""))) [
    | inr unnamed ↦ rw (fetched, unnamed) refl
    | inl named ↦ elim (Result-cases (find_by_id id topics)) [
      | inr (e, untold) ↦ rw (fetched, named, untold) refl
      | inl (o, told) ↦ elim (Option-cases o) [
        | inl missing ↦ rw (fetched, named, told, missing) refl
        | inr (t, found) ↦ rw (fetched, named, told, found) refl
      ]
    ]
  ]
]

module _ (id : String) (c : View) (m : Mounted View) where
  abbrev deletion : Result (Unit {0}) × World
  deletion = delete_topic (text (get? "id" c.topic_to_delete)) m.world

  record Succeeds : Type 0 where
    answer : deletion.0 ≡ ok tt
    closed : (handle_delete_topic id c m).1.view.show_confirmation ≡ false
    forgotten : (handle_delete_topic id c m).1.view.topic_to_delete ≡ null
    unselected : (handle_delete_topic id c m).1.view.selected_topic ≡ null
    topics :
        (handle_delete_topic id c m).1.view.topics
        ≡ refreshed (get_all_topics deletion.1).0 m.view.topics
    idle : (handle_delete_topic id c m).1.view.is_loading ≡ false
    reported : (handle_delete_topic id c m).1.view.notification.kind ≡ success

  record Fails : Type 0 where
    answer : (e : Exn) × (deletion.0 ≡ thrown e)
    confirming : (handle_delete_topic id c m).1.view.show_confirmation ≡ m.view.show_confirmation
    marked : (handle_delete_topic id c m).1.view.topic_to_delete ≡ m.view.topic_to_delete
    selected : (handle_delete_topic id c m).1.view.selected_topic ≡ m.view.selected_topic
    topics : (handle_delete_topic id c m).1.view.topics ≡ m.view.topics
    requests : sent (handle_delete_topic id c m).1.world ≡ sent deletion.1
    reported : (handle_delete_topic id c m).1.view.notification.kind ≡ error

  pub record Deleted : Type 0 where
    returns : (handle_delete_topic id c m).0 ≡ ok tt
    outcome : Succeeds ⊎ Fails

  module _ (h : truthy c.topic_to_delete ≡ true) where
    fails : (e : Exn) → deletion.0 ≡ thrown e → Fails
    unfolding handle_delete_topic
    fails e answer = record {
      answer = (e, answer);
      confirming = rw (h, answer) refl;
      marked = rw (h, answer) refl;
      selected = rw (h, answer) refl;
      topics = rw (h, answer) refl;
      requests = rw (h, answer) refl;
      reported = rw (h, answer) refl;
    }

    succeeds : deletion.0 ≡ ok tt → Succeeds
    unfolding handle_delete_topic
    succeeds answer = record {
      answer = answer;
      closed = rw (h, answer, fetch_topics-run) refl;
      forgotten = rw (h, answer, fetch_topics-run) refl;
      unselected = rw (h, answer, fetch_topics-run) refl;
      topics = rw (h, answer, fetch_topics-run) refl;
      idle = rw (h, answer, fetch_topics-run) refl;
      reported = rw (h, answer, fetch_topics-run) refl;
    }

    handle_delete_topic_ends : (handle_delete_topic id c m).0 ≡ ok tt
    unfolding handle_delete_topic
    handle_delete_topic_ends = ground arith

  -- With a topic to delete, the handler returns. Either the server has deleted it: then the
  -- confirmation is closed, no topic is marked for deletion or selected, the list is what was
  -- fetched afterwards, or as it was where that failed, and in both cases the notification is a
  -- success. Or the deletion failed: then no other request has been sent, the confirmation, the
  -- mark, the selection and the list are as they were, and the notification is an error.
  pub handle_delete_topic-TopicDeleted : truthy c.topic_to_delete ≡ true → Deleted
  handle_delete_topic-TopicDeleted h = record {
    returns = handle_delete_topic_ends h;
    outcome = elim (Result-cases deletion.0) [
      | inl (_, answer) ↦ inl (succeeds h answer)
      | inr (e, answer) ↦ inr (fails h e answer)
    ];
  }
