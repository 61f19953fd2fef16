-- ===== src/Pages.antt =====
-- Pages whose state follows the query of the address, and what they share: the parts of a page that
-- hold its tab and its query, and the handler and the effect that every page has for them.
pub mod Following
pub mod Hosts
pub mod Plugins
pub mod PluginSteps
pub mod Queries
pub mod Selecting
pub mod Settings
pub mod Tabs
use agience.Base.{String, [], ◌∷◌, ◌≡◌, ◌==◌, if◌then◌else◌}
use agience.Js.Value.{Value, null, str, truthy, text}
use agience.Js.Exec.{when, ◌>>=◌, ◌>>◌}
use agience.World.{emit, set_search}
use agience.Ui.{Ui, update, io, Query, set_param}

-- `searchParams.get(k)`
unfoldable pub get_param : String → Query → Value
get_param k [] = null
get_param k ((j, v) ∷ q) = if j == k then str v else get_param k q

-- Where a page keeps its active tab and the query of its address.
pub record Tabbed (V : Type 0) : Type 0 where
  pub tab : V → String
  pub search : V → Query
  pub with_tab : String → V → V
  pub with_search : Query → V → V
  pub tab-with_tab : (t : String) (v : V) → tab (with_tab t v) ≡ t
  pub search-with_tab : (t : String) (v : V) → search (with_tab t v) ≡ search v
  pub tab-with_search : (q : Query) (v : V) → tab (with_search q v) ≡ tab v
  pub search-with_search : (q : Query) (v : V) → search (with_search q v) ≡ q

module _ {V : Type 0} (page : Tabbed V) where
  -- `setSearchParams(q)`
  unfoldable pub set_search_params : Query → Ui V (Unit {0})
  unfolding update io emit ◌>>=◌
  set_search_params q = do update (page.with_search q); io (emit (set_search q))

  unfoldable pub set_tab : String → Ui V (Unit {0})
  unfolding update
  set_tab t = update (page.with_tab t)

  -- The page is told of a new tab by the render `c`.
  unfoldable pub change_tab : V → String → Ui V (Unit {0})
  unfolding set_tab set_search_params ◌>>=◌
  change_tab c t = do set_tab t; set_search_params (set_param "tab" t (page.search c))

  -- `const tab = searchParams.get('tab'); if (tab) setActiveTab(tab);`
  unfoldable pub follow_tab : V → Ui V (Unit {0})
  unfolding set_tab get_param truthy text
  follow_tab c =
      when (truthy (get_param "tab" (page.search c)))
        (set_tab (text (get_param "tab" (page.search c))))
