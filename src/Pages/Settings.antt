-- ===== src/Pages/Settings.antt =====
-- authority/manage-ui/src/pages/Settings.tsx
use agience.Base.{String, Bool, true, false, ◌==◌, refl, if◌then◌else◌}
use agience.Ui.{Ui, update, Query}
use agience.Pages.{Tabbed, change_tab, follow_tab}

pub record View : Type 0 where
  pub active_tab : String
  pub has_authorizers : Bool
  pub search : Query

abbrev pub initial : Query → View
initial q = record { active_tab = "authorizers"; has_authorizers = false; search = q }

abbrev pub tabbed : Tabbed View
tabbed = record {
  tab = λ v. v.active_tab;
  search = λ v. v.search;
  with_tab = λ t v. record v { active_tab = t };
  with_search = λ q v. record v { search = q };
  tab-with_tab = λ _ _. refl;
  search-with_tab = λ _ _. refl;
  tab-with_search = λ _ _. refl;
  search-with_search = λ _ _. refl;
}

unfoldable pub on_search : View → Ui View (Unit {0})
unfolding follow_tab
on_search c = follow_tab tabbed c

unfoldable pub handle_tab_change : View → String → Ui View (Unit {0})
unfolding change_tab
handle_tab_change c t = change_tab tabbed c t

unfoldable pub handle_authorizers_change : Bool → Ui View (Unit {0})
unfolding update
handle_authorizers_change has_any = update λ v. record v { has_authorizers = has_any }

-- What the page shows below its tabs.
pub data Content : Type 0 where
  authorizers_tab connections_tab no_authorizers nothing : Content

unfoldable pub content : View → Content
content v =
    if v.active_tab == "authorizers"
    then authorizers_tab
    else if v.active_tab == "connections"
    then elim v.has_authorizers [ true ↦ connections_tab | false ↦ no_authorizers ]
    else nothing
