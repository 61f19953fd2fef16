-- ===== src/Ui/HostPlugins/Adding.antt =====
-- Adding a plugin to a host.
use agience.Base.{String, false, List, ◌∷◌, ◌<>◌, ◌==◌, ◌≡◌, arith, ◌⊎◌, inl, inr}
use agience.Js.Value.{Value, undefined}
use agience.Js.Exec.{Exn, Result, ok, thrown, Result-cases}
use agience.World.{World}
use agience.Client.{get_call, post_call}
use agience.Trace.{sent}
use agience.Services.HostPlugins.{get_plugins_for_host, add_plugin_to_host}
use agience.Services.Calls.{sent-get_plugins_for_host, sent-add_plugin_to_host}
use agience.Ui.{Mounted, success, error}
use agience.Ui.HostPlugins.{View, handle_add_plugin}

abbrev refreshed : Result (List Value) → List Value → List Value
refreshed (ok plugins) old = plugins
refreshed (thrown e) old = old

module _ (host_id plugin_id : String) (c : View) (m : Mounted View) where
  abbrev addition : Result Value × World
  addition = add_plugin_to_host host_id plugin_id m.world

  record Succeeds : Type 0 where
    answer : (added : Value) × (addition.0 ≡ ok added)
    requests :
        sent (handle_add_plugin host_id c plugin_id m).1.world
        ≡ get_call ("/manage/host/" <> host_id <> "/plugins")
          ∷ post_call ("/manage/host/" <> host_id <> "/plugin/" <> plugin_id) undefined
          ∷ sent m.world
    plugins :
        (handle_add_plugin host_id c plugin_id m).1.view.assigned_plugins
        ≡ refreshed (get_plugins_for_host host_id addition.1).0 m.view.assigned_plugins
    reported : (handle_add_plugin host_id c plugin_id m).1.view.notification.kind ≡ success

  record Fails : Type 0 where
    answer : (cause : Exn) × (addition.0 ≡ thrown cause)
    requests :
        sent (handle_add_plugin host_id c plugin_id m).1.world
        ≡ post_call ("/manage/host/" <> host_id <> "/plugin/" <> plugin_id) undefined ∷ sent m.world
    plugins :
        (handle_add_plugin host_id c plugin_id m).1.view.assigned_plugins ≡ m.view.assigned_plugins
    reported : (handle_add_plugin host_id c plugin_id m).1.view.notification.kind ≡ error

  pub record Added : Type 0 where
    returns : (handle_add_plugin host_id c plugin_id m).0 ≡ ok tt
    idle : (handle_add_plugin host_id c plugin_id m).1.view.is_loading ≡ false
    outcome : Succeeds ⊎ Fails

  succeeds : (v : Value) → (host_id == "") ≡ false → addition.0 ≡ ok v → Succeeds
  unfolding handle_add_plugin
  succeeds v h answer = record {
    answer = (v, answer);
    requests = ground (
      arith,
      sent-add_plugin_to_host host_id plugin_id m.world,
      sent-get_plugins_for_host host_id addition.1,
    );
    plugins = ground arith;
    reported = ground arith;
  }

  fails : (e : Exn) → (host_id == "") ≡ false → addition.0 ≡ thrown e → Fails
  unfolding handle_add_plugin
  fails e h answer = record {
    answer = (e, answer);
    requests = ground (arith, sent-add_plugin_to_host host_id plugin_id m.world);
    plugins = ground arith;
    reported = ground arith;
  }

  handle_add_plugin_ends :
      (host_id == "") ≡ false
      → ((handle_add_plugin host_id c plugin_id m).0 ≡ ok tt)
        × ((handle_add_plugin host_id c plugin_id m).1.view.is_loading ≡ false)
  unfolding handle_add_plugin
  handle_add_plugin_ends h = (ground arith, ground arith)

  -- With a host, adding a plugin returns and leaves the loading state off. Either the server has
  -- added it: then the host's plugins have been fetched, the list is what that gave, or as it was
  -- where it failed, and a success is reported in both cases. Or it has not: then nothing else has
  -- been sent, the list is as it was, and an error is reported.
  pub handle_add_plugin-Added : (host_id == "") ≡ false → Added
  handle_add_plugin-Added h = record {
    returns = (handle_add_plugin_ends h).0;
    idle = (handle_add_plugin_ends h).1;
    outcome = elim (Result-cases addition.0) [
      | inl (v, answer) ↦ inl (succeeds v h answer)
      | inr (e, answer) ↦ inr (fails e h answer)
    ];
  }
