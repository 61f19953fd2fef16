-- ===== src/Ui/AgentPlugins/Toggling.antt =====
-- Toggling a plugin of an agent.
use agience.Base.{
  String, false, none, some, find, List, ◌∷◌, ◌<>◌, ◌==◌, ◌≡◌, arith, ◌⊎◌, inl, inr, true,
  Option-cases,
}
use agience.Js.Value.{Value, get?, is_text, undefined}
use agience.Js.Exec.{Exn, Result, ok, thrown, Result-cases}
use agience.Client.{get_call, post_call}
use agience.World.{World}
use agience.Trace.{sent}
use agience.Services.AgentPlugins.{get_agent_plugins, add_plugin_to_agent}
use agience.Services.Calls.{sent-get_agent_plugins, sent-add_plugin_to_agent}
use agience.Ui.{Mounted, success, error}
use agience.Ui.AgentPlugins.{View, handle_toggle_plugin}

-- The list after it has been fetched again: a failure leaves it.
abbrev refreshed : Result (List Value) → List Value → List Value
refreshed (ok plugins) old = plugins
refreshed (thrown e) old = old

module _ (agent_id : String) (c : View) (plugin_id : String) (m : Mounted View) where
  -- The plugin is assigned: the tab asks before it removes it.
  pub record Asks : Type 0 where
    plugin : Value
    assigned : find (λ p. is_text (get? "id" p) plugin_id) c.assigned_plugins ≡ some plugin
    untouched : (handle_toggle_plugin agent_id c plugin_id m).1.world ≡ m.world
    asked :
        (handle_toggle_plugin agent_id c plugin_id m).1.view.confirmation
        ≡ record { is_open = true; plugin_id = plugin_id; plugin_name = get? "name" plugin }

  -- The plugin is not assigned, and the server has added it.
  pub record Adds : Type 0 where
    unassigned : find (λ p. is_text (get? "id" p) plugin_id) c.assigned_plugins ≡ none
    answer : (added : Value) × ((add_plugin_to_agent agent_id plugin_id m.world).0 ≡ ok added)
    requests :
        sent (handle_toggle_plugin agent_id c plugin_id m).1.world
        ≡ get_call ("/manage/agent/" <> agent_id <> "/plugins")
          ∷ post_call ("/manage/agent/" <> agent_id <> "/plugin/" <> plugin_id) undefined
          ∷ sent m.world
    plugins :
        (handle_toggle_plugin agent_id c plugin_id m).1.view.assigned_plugins
        ≡ refreshed
            (get_agent_plugins agent_id (add_plugin_to_agent agent_id plugin_id m.world).1).0
            m.view.assigned_plugins
    reported : (handle_toggle_plugin agent_id c plugin_id m).1.view.notification.kind ≡ success

  -- The plugin is not assigned, and adding it failed.
  pub record Fails : Type 0 where
    unassigned : find (λ p. is_text (get? "id" p) plugin_id) c.assigned_plugins ≡ none
    answer : (cause : Exn) × ((add_plugin_to_agent agent_id plugin_id m.world).0 ≡ thrown cause)
    requests :
        sent (handle_toggle_plugin agent_id c plugin_id m).1.world
        ≡ post_call ("/manage/agent/" <> agent_id <> "/plugin/" <> plugin_id) undefined
          ∷ sent m.world
    plugins :
        (handle_toggle_plugin agent_id c plugin_id m).1.view.assigned_plugins
        ≡ m.view.assigned_plugins
    reported : (handle_toggle_plugin agent_id c plugin_id m).1.view.notification.kind ≡ error

  asks :
      (p : Value) → find (λ q. is_text (get? "id" q) plugin_id) c.assigned_plugins ≡ some p → Asks
  unfolding handle_toggle_plugin
  asks p found = record {
    plugin = p;
    assigned = found;
    untouched = rw (found, handle_toggle_plugin);
    asked = rw (found, handle_toggle_plugin);
  }

  adds :
      (v : Value)
      → (agent_id == "") ≡ false
      → find (λ p. is_text (get? "id" p) plugin_id) c.assigned_plugins ≡ none
      → (add_plugin_to_agent agent_id plugin_id m.world).0 ≡ ok v
      → Adds
  unfolding handle_toggle_plugin
  adds v h missing answer =
      let w' : World = (add_plugin_to_agent agent_id plugin_id m.world).1 in
      record {
        unassigned = missing;
        answer = (v, answer);
        requests =
            rw (missing, handle_toggle_plugin)
              (ground (
                arith,
                sent-add_plugin_to_agent agent_id plugin_id m.world,
                sent-get_agent_plugins agent_id w',
              ));
        plugins = rw (missing, handle_toggle_plugin) (ground arith);
        reported = rw (missing, handle_toggle_plugin) (ground arith);
      }

  fails :
      (e : Exn)
      → (agent_id == "") ≡ false
      → find (λ p. is_text (get? "id" p) plugin_id) c.assigned_plugins ≡ none
      → (add_plugin_to_agent agent_id plugin_id m.world).0 ≡ thrown e
      → Fails
  unfolding handle_toggle_plugin
  fails e h missing answer = record {
    unassigned = missing;
    answer = (e, answer);
    requests =
        rw (missing, handle_toggle_plugin)
          (ground (arith, sent-add_plugin_to_agent agent_id plugin_id m.world));
    plugins = rw (missing, handle_toggle_plugin) (ground arith);
    reported = rw (missing, handle_toggle_plugin) (ground arith);
  }

  -- With an agent selected, toggling a plugin has three outcomes. If the plugin is assigned,
  -- nothing is sent and the confirmation asks for its removal. If it is not, one request adds it:
  -- where that succeeds, the agent's plugins are fetched again, the list becomes what that gave, or
  -- stays where it failed, and a success is reported; where it fails, nothing else is sent, the
  -- list stays and an error is reported.
  pub handle_toggle_plugin_cases : (agent_id == "") ≡ false → Asks ⊎ (Adds ⊎ Fails)
  handle_toggle_plugin_cases h =
      elim (Option-cases (find (λ p. is_text (get? "id" p) plugin_id) c.assigned_plugins)) [
        | inr (p, found) ↦ inl (asks p found)
        | inl missing ↦ elim (Result-cases (add_plugin_to_agent agent_id plugin_id m.world).0) [
          | inl (v, answer) ↦ inr (inl (adds v h missing answer))
          | inr (e, answer) ↦ inr (inr (fails e h missing answer))
        ]
      ]
