-- ===== src/Pages/Selecting.antt =====
-- Selecting a plugin, and the address that goes with the selection.
use agience.Base.{
  String, Bool, true, false, ◌≡◌, ◌==◌, arith, refl, inl, inr, Bool-cases, ◌∙◌, ap, if◌then◌else◌,
}
use agience.Js.Value.{null, str, text, truthy}
use agience.Ui.{Mounted, Query, set_param, delete_param}
use agience.Services.Plugins.{get_all_plugins}
use agience.Pages.{get_param}
use agience.Pages.Queries.{
  get_param-set_param, get_param-set_param_other, get_param-delete_param,
  get_param-delete_param_other,
}
use agience.Pages.Plugins.{View, handle_select_plugin, on_search}
use agience.Pages.PluginSteps.{
  refreshed, selected_query, selected_tab, handle_select_plugin-run, followed_tab, followed_id,
  on_search-run,
}

module _ (s : String) (functions : Bool) (m : Mounted View) where
  abbrev chosen : Mounted View
  chosen = (handle_select_plugin m.view (str s) functions m).1

  -- The page after the effect that follows the selection.
  abbrev after : View
  after = (on_search chosen.view chosen).1.view

  pub record Selected : Type 0 where
    selected : after.selected_plugin_id ≡ str s
    named : get_param "id" after.search ≡ (if truthy (str s) then str s else null)
    opened : truthy (str s) ≡ true → functions ≡ true → after.active_tab ≡ "functions"
    closed : truthy (str s) ≡ false → after.active_tab ≡ "details"
    others :
        (k : String)
        → ("id" == k) ≡ false
        → ("tab" == k) ≡ false
        → get_param k after.search ≡ get_param k m.view.search

  on_search_chosen : after ≡ record m.view {
    active_tab =
        followed_tab
          (get_param "tab" (selected_query (str s) functions m.view.search))
          (selected_tab (str s) functions m.view.active_tab);
    selected_plugin_id =
        followed_id (get_param "id" (selected_query (str s) functions m.view.search)) (str s);
    search = selected_query (str s) functions m.view.search;
    plugins = refreshed (get_all_plugins chosen.world).0 m.view.plugins;
    is_loading = false;
  }
  on_search_chosen =
      on_search-run chosen.view chosen
      ∙ ap
          (λ n. record n.view {
            active_tab = followed_tab (get_param "tab" n.view.search) n.view.active_tab;
            selected_plugin_id =
                followed_id (get_param "id" n.view.search) n.view.selected_plugin_id;
            plugins = refreshed (get_all_plugins chosen.world).0 n.view.plugins;
            is_loading = false;
          })
          (ap (λ p. p.1) (handle_select_plugin-run m.view (str s) functions m))

  abbrev query : Query
  query = selected_query (str s) functions m.view.search

  query_id : get_param "id" query ≡ (if truthy (str s) then str s else null)
  unfolding text
  query_id = elim (Bool-cases (truthy (str s))) [
    | inr empty ↦ rw empty (
        get_param-set_param_other "id" "tab" "details" (delete_param "id" m.view.search) refl
        ∙ get_param-delete_param "id" m.view.search)
    | inl given ↦ elim (Bool-cases functions) [
      | inl opens ↦
          rw (given, opens)
            (get_param-set_param_other "id" "tab" "functions" (set_param "id" s m.view.search) refl
              ∙ get_param-set_param "id" s m.view.search)
      | inr stays ↦ rw (given, stays) (get_param-set_param "id" s m.view.search)
    ]
  ]

  query_others :
      (k : String)
      → ("id" == k) ≡ false
      → ("tab" == k) ≡ false
      → get_param k query ≡ get_param k m.view.search
  unfolding text
  query_others k i t = elim (Bool-cases (truthy (str s))) [
    | inr empty ↦ rw empty (
        get_param-set_param_other k "tab" "details" (delete_param "id" m.view.search) t
        ∙ get_param-delete_param_other k "id" m.view.search i)
    | inl given ↦ elim (Bool-cases functions) [
      | inl opens ↦
          rw (given, opens)
            (get_param-set_param_other k "tab" "functions" (set_param "id" s m.view.search) t
              ∙ get_param-set_param_other k "id" s m.view.search i)
      | inr stays ↦ rw (given, stays) (get_param-set_param_other k "id" s m.view.search i)
    ]
  ]

  followed_itself : followed_id (if truthy (str s) then str s else null) (str s) ≡ str s
  unfolding truthy
  followed_itself = ground arith

  tab_opened :
      truthy (str s) ≡ true
      → functions ≡ true
      → followed_tab (get_param "tab" query) (selected_tab (str s) functions m.view.active_tab)
        ≡ "functions"
  unfolding text truthy
  tab_opened given opens =
      rw (given, opens, get_param-set_param "tab" "functions" (set_param "id" s m.view.search)) refl

  tab_closed :
      truthy (str s) ≡ false
      → followed_tab (get_param "tab" query) (selected_tab (str s) functions m.view.active_tab)
        ≡ "details"
  unfolding text truthy
  tab_closed empty =
      rw (empty, get_param-set_param "tab" "details" (delete_param "id" m.view.search)) refl

  -- After a selection in the list of plugins and the effect that follows it, the selected id is the
  -- one given, and the query has it under `id`, or has no id where it is empty. Where the functions
  -- were asked for and the id is not empty, their tab is active, and where it is empty, the tab of
  -- the details. Every other parameter of the query reads as before.
  pub handle_select_plugin-Selected : Selected
  handle_select_plugin-Selected = record {
    selected = ap (λ v. v.selected_plugin_id) on_search_chosen ∙ rw query_id followed_itself;
    named = ap (λ v. get_param "id" v.search) on_search_chosen ∙ query_id;
    opened = λ given opens. ap (λ v. v.active_tab) on_search_chosen ∙ tab_opened given opens;
    closed = λ empty. ap (λ v. v.active_tab) on_search_chosen ∙ tab_closed empty;
    others = λ k i t. ap (λ v. get_param k v.search) on_search_chosen ∙ query_others k i t;
  }
