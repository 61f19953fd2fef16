-- ===== src/Pages/Tabs.antt =====
-- authority/manage-ui/src/pages/Agent.tsx and Topic.tsx: pages that hold only a tab.
use agience.Base.{String, refl}
use agience.Ui.{Ui, Query}
use agience.Pages.{Tabbed, change_tab, follow_tab}

pub record View : Type 0 where
  pub active_tab : String
  pub search : Query

abbrev pub tabbed : Tabbed View
tabbed = record {
  tab = λ v. v.active_tab;
  search = λ v. v.search;
  with_tab = λ t v. record v { active_tab = t };
  with_search = λ q v. record v { search = q };
  tab-with_tab = λ _ _. refl;
  search-with_tab = λ _ _. refl;
  tab-with_search = λ _ _. refl;
  search-with_search = λ _ _. refl;
}

abbrev pub initial_agent : Query → View
initial_agent q = record { active_tab = "Agents"; search = q }

abbrev pub initial_topic : Query → View
initial_topic q = record { active_tab = "details"; search = q }

-- The effect and the handler of the page of an agent.
unfoldable pub on_agent_search : View → Ui View (Unit {0})
unfolding follow_tab
on_agent_search c = follow_tab tabbed c

unfoldable pub handle_agent_tab_change : View → String → Ui View (Unit {0})
unfolding change_tab
handle_agent_tab_change c t = change_tab tabbed c t

-- And those of the page of a topic.
unfoldable pub on_topic_search : View → Ui View (Unit {0})
unfolding follow_tab
on_topic_search c = follow_tab tabbed c

unfoldable pub handle_topic_tab_change : View → String → Ui View (Unit {0})
unfolding change_tab
handle_topic_tab_change c t = change_tab tabbed c t
