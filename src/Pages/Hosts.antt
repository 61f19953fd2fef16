-- ===== src/Pages/Hosts.antt =====
-- authority/manage-ui/src/pages/Hosts.tsx
pub mod Temporary
use agience.Base.{
  String, Bool, true, false, Option, none, some, List, [], ◌∷◌, ◌==◌, ◌||◌, ◌<>◌, refl,
  if◌then◌else◌,
}
use agience.Js.Value.{Value, null, str, object, array, text, truthy}
use agience.Js.Exec.{pure, lift, try_catch, try_finally, when, ◌>>=◌, ◌>>◌}
use agience.World.{log_error}
use agience.Ui.{Ui, update, io, Query, set_param, find_by_id}
use agience.Services.Hosts.{get_all_hosts}
use agience.Pages.{Tabbed, get_param, set_search_params, set_tab, change_tab}

-- The selected host is `null` at first.
pub record View : Type 0 where
  pub active_tab : String
  pub hosts : List Value
  pub is_loading : Bool
  pub selected_host : Value
  pub has_temp_host : Bool
  pub search : Query

abbrev pub initial : Query → View
initial q = record {
  active_tab = "details";
  hosts = [];
  is_loading = false;
  selected_host = null;
  has_temp_host = false;
  search = q;
}

abbrev pub tabbed : Tabbed View
tabbed = record {
  tab = λ v. v.active_tab;
  search = λ v. v.search;
  with_tab = λ t v. record v { active_tab = t };
  with_search = λ q v. record v { search = q };
  tab-with_tab = λ _ _. refl;
  search-with_tab = λ _ _. refl;
  tab-with_search = λ _ _. refl;
  search-with_search = λ _ _. refl;
}

-- `tabs.some(tab => tab.id === t)`
abbrev pub is_tab : String → Bool
is_tab t = t == "details" || (t == "keys" || t == "plugins")

-- `searchParams.get('tab') || 'details'`
unfoldable pub tab_param : View → String
unfolding get_param truthy text
tab_param c =
    if truthy (get_param "tab" c.search) then text (get_param "tab" c.search) else "details"

-- The effect of the tab that the query names; the parameter is never empty.
unfoldable pub on_tab : View → Ui View (Unit {0})
unfolding set_tab tab_param
on_tab c = when (is_tab (tab_param c)) (set_tab tabbed (tab_param c))

unfoldable pub select_host : Value → Ui View (Unit {0})
unfolding update
select_host host = update λ v. record v { selected_host = host }

unfoldable pub set_loading : Bool → Ui View (Unit {0})
unfolding update
set_loading b = update λ v. record v { is_loading = b }

unfoldable pub set_hosts : List Value → Ui View (Unit {0})
unfolding update
set_hosts hosts = update λ v. record v { hosts = hosts }

unfoldable pub select_found : Option Value → Ui View (Unit {0})
unfolding select_host ◌>>=◌
select_found none = pure tt
select_found (some host) = select_host host

-- The effect of the host that the query names.
unfoldable pub on_host_id : View → Ui View (Unit {0})
unfolding set_loading set_hosts select_found find_by_id get_param truthy text io log_error ◌>>=◌
on_host_id c = do
  set_loading true
  try_finally
      (try_catch
        (do
          fetched_hosts ← io get_all_hosts
          set_hosts fetched_hosts
          when (truthy (get_param "id" c.search)) (do
            host ← lift (find_by_id (text (get_param "id" c.search)) fetched_hosts)
            select_found host))
        (λ e. io (log_error "Error fetching hosts:")))
      (set_loading false)

unfoldable pub handle_tab_change : View → String → Ui View (Unit {0})
unfolding change_tab
handle_tab_change c t = change_tab tabbed c t

unfoldable pub address_found : View → String → Option Value → Ui View (Unit {0})
unfolding select_host set_search_params set_param ◌>>=◌
address_found c id none = pure tt
address_found c id (some host) = do
  select_host host
  set_search_params tabbed (set_param "id" id c.search)

unfoldable pub handle_select_host : View → String → Ui View (Unit {0})
unfolding find_by_id address_found ◌>>=◌
handle_select_host c id = do host ← lift (find_by_id id c.hosts); address_found c id host

-- `now` is `Date.now()`, and `created` the date that is made next.
unfoldable pub temp_host : String → String → Value
temp_host now created = object (
    ("id", str ("temp-" <> now))
    ∷ ("name", str "New Host")
    ∷ ("description", str "")
    ∷ ("created_date", str created)
    ∷ ("scopes", array [])
    ∷ [])

unfoldable pub handle_create_host : View → String → String → Ui View (Unit {0})
unfolding update select_host set_search_params set_param temp_host ◌>>=◌
handle_create_host c now created = do
  update (λ v. record v { hosts = temp_host now created ∷ v.hosts })
  select_host (temp_host now created)
  update (λ v. record v { has_temp_host = true })
  set_search_params tabbed (set_param "id" ("temp-" <> now) c.search)
