-- ===== src/Ui/PluginFunctions/Deletion.antt =====
-- Deleting a function of a plugin.

use agience.Base.{
  String, true, false, ℕ, Option, none, some, ◌∷◌, ◌<>◌, ◌≡◌, ◌≢◌, ◌==◌, arith, ◌⊎◌, inl, inr, ap,
  ◌∙◌, refl, Bool-cases,
}
use agience.Js.Value.{Value, text, truthy}
use agience.Js.Exec.{Exn, Result, ok, thrown, Result-cases}
use agience.Client.{get_call, delete_call}
use agience.World.{World, log}
use agience.Trace.{sent}
use agience.Services.PluginFunctions.{
  get_functions_for_plugin, remove_function_from_plugin, delete_function,
}
use agience.Services.Calls.{
  sent-get_functions_for_plugin, sent-remove_function_from_plugin, sent-delete_function,
}
use agience.Ui.{Mounted, success}
use agience.Ui.PluginFunctions.{View, remove_and_delete, is_other_response}
use agience.Ui.PluginFunctions.Handlers.{handle_confirm_delete}

-- How a run of the two deletions ends, told from the server's two answers.
pub data Ends (removed deleted : Result (Unit {0})) : Result (Unit {0}) → Type 0 where
  removal_failed : (e : Exn) → removed ≡ thrown e → Ends removed deleted (thrown e)
  both_done : removed ≡ ok tt → deleted ≡ ok tt → Ends removed deleted (ok tt)
  deletion_failed :
      (e : Exn) (status : ℕ)
      → removed ≡ ok tt
      → deleted ≡ thrown e
      → e.status ≡ some status
      → status ≢ 404
      → Ends removed deleted (thrown e)
  -- The error is taken for "already deleted".
  deletion_ignored :
      (e : Exn)
      → removed ≡ ok tt
      → deleted ≡ thrown e
      → (e.status ≡ none) ⊎ (e.status ≡ some 404)
      → Ends removed deleted (ok tt)

status_cases :
    (o : Option ℕ)
    → ((is_other_response o ≡ true) × ((s : ℕ) × (o ≡ some s) × (s ≢ 404)))
      ⊎ ((is_other_response o ≡ false) × ((o ≡ none) ⊎ (o ≡ some 404)))
status_cases none = inr (refl, inl refl)
status_cases (some s) = elim (Bool-cases (is_other_response (some s))) [
  | inl other ↦ inl (other, (s, refl, ground arith))
  | inr same ↦ inr (same, inr (ground arith))
]

-- The two deletions end in one of four ways. A failure of the removal is thrown. Both are done, and
-- nothing is thrown. The deletion fails with a status other than 404, and that is thrown. Or the
-- deletion fails with 404 or without any response, and nothing is thrown.
pub remove_and_delete-Ends :
    (plugin_id function_id : String) (m : Mounted View)
    → Ends
        (remove_function_from_plugin plugin_id function_id m.world).0
        (delete_function function_id
          (remove_function_from_plugin plugin_id function_id m.world).1).0
        (remove_and_delete plugin_id function_id m).0
unfolding remove_and_delete
remove_and_delete-Ends plugin_id function_id m =
    elim (Result-cases (remove_function_from_plugin plugin_id function_id m.world).0) [
      | inr (e, failed) ↦ rw failed (removal_failed e refl)
      | inl (_, removed) ↦
          elim (Result-cases
            (delete_function function_id
              (remove_function_from_plugin plugin_id function_id m.world).1).0) [
                | inl (_, deleted) ↦ rw (removed, deleted) (both_done refl refl)
                | inr (e, failed) ↦ elim (status_cases e.status) [
                  | inl (other, (status, is, ne)) ↦
                      rw (removed, failed, other) (deletion_failed e status refl refl is ne)
                  | inr (same, why) ↦ rw (removed, failed, same) (deletion_ignored e refl refl why)
                ]
              ]
    ]

module _ (plugin_id : String) (c : View) (m : Mounted View) where
  abbrev pub removal : Result (Unit {0}) × World
  removal = remove_function_from_plugin plugin_id (text c.confirmation.function_id) m.world

  abbrev pub deletion : Result (Unit {0}) × World
  deletion = delete_function (text c.confirmation.function_id) removal.1

  abbrev pub refetch : Result Value × World
  refetch =
      get_functions_for_plugin plugin_id
        (log "Function was removed from plugin but might already be deleted" deletion.1).1

  pub record Unanswered : Type 0 where
    returns : (handle_confirm_delete plugin_id c m).0 ≡ ok tt
    closed : (handle_confirm_delete plugin_id c m).1.view.confirmation.is_open ≡ false
    reported : (handle_confirm_delete plugin_id c m).1.view.notification.kind ≡ success
    requests :
        sent (handle_confirm_delete plugin_id c m).1.world
        ≡ get_call ("/manage/plugin/" <> plugin_id <> "/functions")
          ∷ delete_call ("/manage/function/" <> text c.confirmation.function_id)
          ∷ delete_call
              ("/manage/plugin/" <> plugin_id <> "/function/" <> text c.confirmation.function_id)
          ∷ sent m.world

  -- If the function has been removed from the plugin, its deletion fails without a response, as
  -- when the network is down, and the list can be fetched afterwards, the handler still reports a
  -- success and closes the confirmation, and it has sent the deletion once.
  pub handle_confirm_delete-Unanswered :
      (e : Exn) (functions : Value)
      → truthy c.confirmation.function_id ≡ true
      → (plugin_id == "") ≡ false
      → removal.0 ≡ ok tt
      → deletion.0 ≡ thrown e
      → e.status ≡ none
      → refetch.0 ≡ ok functions
      → Unanswered
  unfolding handle_confirm_delete
  handle_confirm_delete-Unanswered e fs h p removed failed unanswered fetched = record {
    returns = rw (h, p, removed, failed, unanswered, fetched) refl;
    closed = rw h refl;
    reported = rw (h, p, removed, failed, unanswered, fetched) refl;
    requests =
        rw (h, p, removed, failed, unanswered, fetched)
          (sent-get_functions_for_plugin plugin_id
              (log "Function was removed from plugin but might already be deleted" deletion.1).1
            ∙ ap (λ l. get_call ("/manage/plugin/" <> plugin_id <> "/functions") ∷ l)
                (sent-delete_function (text c.confirmation.function_id) removal.1
                  ∙ ap
                      (λ l.
                        delete_call ("/manage/function/" <> text c.confirmation.function_id) ∷ l)
                      (sent-remove_function_from_plugin plugin_id (text c.confirmation.function_id)
                        m.world)));
  }
