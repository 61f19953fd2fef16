-- ===== src/Tests/PageRuns.antt =====
-- Runs of the pages.
use agience.Base.{[], ◌∷◌, true}
use agience.Js.Value.{array}
use agience.Js.Exec.{ok}
use agience.World.{World}
use agience.Ui.{Mounted}
use agience.Pages.{get_param}
use agience.Pages.Tabs
use agience.Pages.Following
use agience.Pages.Following.{Agrees, Reach, Reach-Agrees}
use agience.Pages.Plugins
use agience.Pages.Hosts
use agience.Pages.Hosts.Temporary.{Lost, handle_create_host-Lost}
use agience.Pages.Selecting.{Selected, handle_select_plugin-Selected}
use agience.Tests.Worlds.{saying}

abbrev silent : World
silent = saying (ok (array []))

abbrev topic_page : Mounted Tabs.View
topic_page = record { view = Tabs.initial_topic (("id", "t1") ∷ []); world = silent }

nothing_named : Agrees Tabs.tabbed topic_page.view
unfolding get_param
nothing_named t named given = cc

abbrev agents_clicked : Mounted Tabs.View
agents_clicked = Following.after_click Tabs.tabbed "agents" topic_page

click_on_agents : Reach Tabs.tabbed topic_page agents_clicked
click_on_agents = Reach.next Reach.here (Following.Step.click topic_page "agents")

Reach-Agrees_example : Agrees Tabs.tabbed agents_clicked.view
Reach-Agrees_example = Reach-Agrees Tabs.tabbed nothing_named click_on_agents

abbrev plugins_page : Mounted Plugins.View
plugins_page = record { view = Plugins.initial (("tab", "functions") ∷ []); world = silent }

handle_select_plugin-Selected_example : Selected "p1" true plugins_page
handle_select_plugin-Selected_example = handle_select_plugin-Selected "p1" true plugins_page

abbrev hosts_page : Mounted Hosts.View
hosts_page = record { view = Hosts.initial []; world = silent }

handle_create_host-Lost_example : Lost "1700000000000" "2025-02-23" hosts_page
handle_create_host-Lost_example = handle_create_host-Lost "1700000000000" "2025-02-23" hosts_page
