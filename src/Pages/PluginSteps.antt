-- ===== src/Pages/PluginSteps.antt =====
-- What the handlers and the effect of the page of the plugins do to its state.
use agience.Base.{String, Bool, false, List, ◌≡◌, refl, inl, inr, Bool-cases, if◌then◌else◌}
use agience.Js.Value.{Value, text, truthy}
use agience.Js.Exec.{Result, ok, thrown, Result-cases}
use agience.Ui.{Mounted, Query, set_param, delete_param}
use agience.Services.Plugins.{get_all_plugins}
use agience.Pages.{get_param}
use agience.Pages.Plugins.{
  View, handle_select_plugin, handle_plugin_change, on_search, fetch_plugins,
}

-- A list after it has been fetched again.
abbrev pub refreshed : Result (List Value) → List Value → List Value
refreshed (ok plugins) old = plugins
refreshed (thrown e) old = old

pub handle_plugin_change-run :
    (m : Mounted View)
    → handle_plugin_change m ≡ (
      ok tt,
      record m {
        world = (handle_plugin_change m).1.world;
        view = record m.view {
          plugins = refreshed (get_all_plugins m.world).0 m.view.plugins;
          is_loading = false;
          has_temp_plugin = false;
        };
      },
    )
unfolding handle_plugin_change
handle_plugin_change-run m = elim (Result-cases (get_all_plugins m.world).0) [
  | inl (plugins, fetched) ↦ rw fetched refl
  | inr (e, failed) ↦ rw failed refl
]

-- The query after a selection by a render with the query `q`.
abbrev pub selected_query : Value → Bool → Query → Query
selected_query id functions q =
    if truthy id
    then (if functions
        then set_param "tab" "functions" (set_param "id" (text id) q)
        else set_param "id" (text id) q)
    else set_param "tab" "details" (delete_param "id" q)

abbrev pub selected_tab : Value → Bool → String → String
selected_tab id functions old =
    if truthy id then (if functions then "functions" else old) else "details"

pub handle_select_plugin-run :
    (c : View) (id : Value) (functions : Bool) (m : Mounted View)
    → handle_select_plugin c id functions m ≡ (
      ok tt,
      record m {
        world = (handle_select_plugin c id functions m).1.world;
        view = record m.view {
          selected_plugin_id = id;
          active_tab = selected_tab id functions m.view.active_tab;
          search = selected_query id functions c.search;
        };
      },
    )
unfolding handle_select_plugin
handle_select_plugin-run c id functions m = elim (Bool-cases (truthy id)) [
  | inr none' ↦ rw none' refl
  | inl given ↦ elim (Bool-cases functions) [
    | inl opens ↦ rw (given, opens) refl
    | inr stays ↦ rw (given, stays) refl
  ]
]

pub fetch_plugins-run :
    (m : Mounted View)
    → fetch_plugins m ≡ (
      ok tt,
      record m {
        world = (fetch_plugins m).1.world;
        view = record m.view {
          plugins = refreshed (get_all_plugins m.world).0 m.view.plugins;
          is_loading = false;
        };
      },
    )
unfolding fetch_plugins
fetch_plugins-run m = elim (Result-cases (get_all_plugins m.world).0) [
  | inl (plugins, fetched) ↦ rw fetched refl
  | inr (e, failed) ↦ rw failed refl
]

abbrev pub followed_tab : Value → String → String
followed_tab v old = if truthy v then text v else old

abbrev pub followed_id : Value → Value → Value
followed_id v old = if truthy v then v else old

pub on_search-run :
    (c : View) (m : Mounted View)
    → (on_search c m).1.view ≡ record m.view {
      active_tab = followed_tab (get_param "tab" c.search) m.view.active_tab;
      selected_plugin_id = followed_id (get_param "id" c.search) m.view.selected_plugin_id;
      plugins = refreshed (get_all_plugins m.world).0 m.view.plugins;
      is_loading = false;
    }
unfolding on_search
on_search-run c m = elim (Bool-cases (truthy (get_param "tab" c.search))) [
  | inl tabbed ↦ elim (Bool-cases (truthy (get_param "id" c.search))) [
    | inl given ↦ rw (tabbed, given, fetch_plugins-run) refl
    | inr absent ↦ rw (tabbed, absent, fetch_plugins-run) refl
  ]
  | inr untabbed ↦ elim (Bool-cases (truthy (get_param "id" c.search))) [
    | inl given ↦ rw (untabbed, given, fetch_plugins-run) refl
    | inr absent ↦ rw (untabbed, absent, fetch_plugins-run) refl
  ]
]
