-- ===== src/Pages/Plugins.antt =====
-- authority/manage-ui/src/pages/Plugins.tsx
use agience.Base.{String, Bool, true, false, List, [], refl, if◌then◌else◌}
use agience.Js.Value.{Value, null, str, truthy, text}
use agience.Js.Exec.{try_catch, try_finally, when, ◌>>=◌, ◌>>◌}
use agience.World.{log_error}
use agience.Ui.{Ui, update, io, Query, set_param, delete_param}
use agience.Services.Plugins.{get_all_plugins}
use agience.Pages.{Tabbed, get_param, set_search_params, set_tab, change_tab, follow_tab}

-- No plugin is selected where the selection is `null` or empty.
pub record View : Type 0 where
  pub active_tab : String
  pub selected_plugin_id : Value
  pub plugins : List Value
  pub is_loading : Bool
  pub has_temp_plugin : Bool
  pub search : Query

abbrev pub initial : Query → View
initial q = record {
  active_tab = "details";
  selected_plugin_id = null;
  plugins = [];
  is_loading = false;
  has_temp_plugin = false;
  search = q;
}

abbrev pub tabbed : Tabbed View
tabbed = record {
  tab = λ v. v.active_tab;
  search = λ v. v.search;
  with_tab = λ t v. record v { active_tab = t };
  with_search = λ q v. record v { search = q };
  tab-with_tab = λ _ _. refl;
  search-with_tab = λ _ _. refl;
  tab-with_search = λ _ _. refl;
  search-with_search = λ _ _. refl;
}

unfoldable pub select_id : Value → Ui View (Unit {0})
unfolding update
select_id id = update λ v. record v { selected_plugin_id = id }

unfoldable pub set_temp : Bool → Ui View (Unit {0})
unfolding update
set_temp b = update λ v. record v { has_temp_plugin = b }

unfoldable pub fetch_plugins : Ui View (Unit {0})
unfolding update io log_error ◌>>=◌
fetch_plugins =
    try_finally
      (try_catch
        (do
          update (λ v. record v { is_loading = true })
          data' ← io get_all_plugins
          update (λ v. record v { plugins = data' }))
        (λ e. io (log_error "Error fetching plugins:")))
      (update (λ v. record v { is_loading = false }))

-- The effect of a new query.
unfoldable pub on_search : View → Ui View (Unit {0})
unfolding follow_tab select_id get_param truthy ◌>>=◌
on_search c = do
  follow_tab tabbed c
  when (truthy (get_param "id" c.search)) (select_id (get_param "id" c.search))
  fetch_plugins

unfoldable pub handle_tab_change : View → String → Ui View (Unit {0})
unfolding change_tab
handle_tab_change c t = change_tab tabbed c t

-- An id that is `undefined`, `null` or empty selects nothing.
unfoldable pub handle_select_plugin : View → Value → Bool → Ui View (Unit {0})
unfolding select_id set_tab set_search_params set_param delete_param truthy text ◌>>=◌
handle_select_plugin c id switch_to_functions = do
  select_id id
  (if truthy id
      then (if switch_to_functions
          then (do
            set_tab tabbed "functions"
            set_search_params tabbed
                (set_param "tab" "functions" (set_param "id" (text id) c.search)))
          else set_search_params tabbed (set_param "id" (text id) c.search))
      else (do
        set_tab tabbed "details"
        set_search_params tabbed (set_param "tab" "details" (delete_param "id" c.search))))

unfoldable pub handle_create_plugin : View → Ui View (Unit {0})
unfolding handle_select_plugin set_temp ◌>>=◌
handle_create_plugin c = do handle_select_plugin c (str "") false; set_temp true

unfoldable pub handle_plugin_change : Ui View (Unit {0})
unfolding fetch_plugins set_temp ◌>>=◌
handle_plugin_change = do fetch_plugins; set_temp false
