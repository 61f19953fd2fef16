-- ===== src/Ui/PluginDetails/Saving.antt =====
-- Saving a plugin that is new, in the tab and in the page around it.
use agience.Base.{false, ◌≡◌, arith, ◌⊎◌, inl, inr, refl, Bool-cases}
use agience.Js.Value.{Value, get, truthy}
use agience.Js.Exec.{Exn, Result, ok, thrown, Result-cases}
use agience.World.{World}
use agience.Services.Plugins.{create_plugin}
use agience.Ui.{Mounted, success, error}
use agience.Pages.PluginSteps.{handle_select_plugin-run, handle_plugin_change-run, selected_query}
use agience.Ui.PluginDetails.{View, handle_save_plugin}

module _ (c : View) (form_data : Value) (m : Mounted View) where
  abbrev creation : Result Value × World
  creation = create_plugin form_data m.world

  -- The server has made a plugin, and the list is fetched after the address has its id.
  record Succeeds : Type 0 where
    plugin : Value
    id : Value
    answer : creation.0 ≡ ok plugin
    named : get "id" plugin ≡ ok id
    shown : (handle_save_plugin c form_data m).1.view.selected_plugin ≡ plugin
    selected : (handle_save_plugin c form_data m).1.view.page.selected_plugin_id ≡ id
    addressed :
        (handle_save_plugin c form_data m).1.view.page.search
        ≡ selected_query id false c.page.search
    finished : (handle_save_plugin c form_data m).1.view.page.has_temp_plugin ≡ false
    closed : (handle_save_plugin c form_data m).1.view.is_form_open ≡ false
    reported : (handle_save_plugin c form_data m).1.view.notification.kind ≡ success

  record Fails : Type 0 where
    selected : (handle_save_plugin c form_data m).1.view.page ≡ m.view.page
    form : (handle_save_plugin c form_data m).1.view.is_form_open ≡ m.view.is_form_open
    reported : (handle_save_plugin c form_data m).1.view.notification.kind ≡ error

  pub record Created : Type 0 where
    returns : (handle_save_plugin c form_data m).0 ≡ ok tt
    idle : (handle_save_plugin c form_data m).1.view.is_loading ≡ false
    outcome : Succeeds ⊎ Fails

  module _ (n : truthy c.selected_plugin ≡ false) where
    fails_unanswered : (e : Exn) → creation.0 ≡ thrown e → Fails
    unfolding handle_save_plugin
    fails_unanswered e answer = record {
      selected = rw (n, answer) refl;
      form = rw (n, answer) refl;
      reported = rw (n, answer) refl;
    }

    fails_unnamed :
        (plugin : Value) (e : Exn) → creation.0 ≡ ok plugin → get "id" plugin ≡ thrown e → Fails
    unfolding handle_save_plugin
    fails_unnamed plugin e answer unnamed = record {
      selected = rw (n, answer, unnamed) refl;
      form = rw (n, answer, unnamed) refl;
      reported = rw (n, answer, unnamed) refl;
    }

    succeeds : (plugin id : Value) → creation.0 ≡ ok plugin → get "id" plugin ≡ ok id → Succeeds
    unfolding handle_save_plugin
    succeeds plugin id answer named = elim (Bool-cases c.page.has_temp_plugin) [
      | inl temp ↦ record {
        plugin = plugin;
        id = id;
        answer = answer;
        named = named;
        shown =
            rw (n, answer, named, handle_select_plugin-run, temp, handle_plugin_change-run) refl;
        selected =
            rw (n, answer, named, handle_select_plugin-run, temp, handle_plugin_change-run) refl;
        addressed =
            rw (n, answer, named, handle_select_plugin-run, temp, handle_plugin_change-run) refl;
        finished =
            rw (n, answer, named, handle_select_plugin-run, temp, handle_plugin_change-run) refl;
        closed =
            rw (n, answer, named, handle_select_plugin-run, temp, handle_plugin_change-run) refl;
        reported =
            rw (n, answer, named, handle_select_plugin-run, temp, handle_plugin_change-run) refl;
      }
      | inr lasting ↦ record {
        plugin = plugin;
        id = id;
        answer = answer;
        named = named;
        shown =
            rw (n, answer, named, handle_select_plugin-run, lasting, handle_plugin_change-run) refl;
        selected =
            rw (n, answer, named, handle_select_plugin-run, lasting, handle_plugin_change-run) refl;
        addressed =
            rw (n, answer, named, handle_select_plugin-run, lasting, handle_plugin_change-run) refl;
        finished =
            rw (n, answer, named, handle_select_plugin-run, lasting, handle_plugin_change-run) refl;
        closed =
            rw (n, answer, named, handle_select_plugin-run, lasting, handle_plugin_change-run) refl;
        reported =
            rw (n, answer, named, handle_select_plugin-run, lasting, handle_plugin_change-run) refl;
      }
    ]

  handle_save_plugin_ends :
      ((handle_save_plugin c form_data m).0 ≡ ok tt)
      × ((handle_save_plugin c form_data m).1.view.is_loading ≡ false)
  unfolding handle_save_plugin
  handle_save_plugin_ends = (ground arith, ground arith)

  -- With no plugin selected in the tab, saving the form returns and the tab is no longer loading.
  -- Either the server has made a plugin whose id can be read: then the tab shows it, the page has
  -- its id selected and, through the page's own handler, in its address, nothing new is being
  -- created, the form is closed and the notification is a success. Or it has not: then the page and
  -- the form are as they were and the notification is an error.
  pub handle_save_plugin-Created : truthy c.selected_plugin ≡ false → Created
  handle_save_plugin-Created n = record {
    returns = handle_save_plugin_ends.0;
    idle = handle_save_plugin_ends.1;
    outcome = elim (Result-cases creation.0) [
      | inr (e, answer) ↦ inr (fails_unanswered n e answer)
      | inl (plugin, answer) ↦ elim (Result-cases (get "id" plugin)) [
        | inl (id, named) ↦ inl (succeeds n plugin id answer named)
        | inr (e, unnamed) ↦ inr (fails_unnamed n plugin e answer unnamed)
      ]
    ];
  }
