-- ===== src/Ui/Preview.antt =====
-- The descriptions in the tables of hosts and plugins:
-- authority/manage-ui/src/components/hosts/HostTable.tsx and plugins/PluginTable.tsx. A text is the list
-- of its UTF-16 units, since `substring` may cut a pair of surrogates in two.
pub mod Bounds
use agience.Base.{String, ℕ, List, ◌++◌, take, ltb, ◌==◌, if◌then◌else◌}
use agience.Js.Text.{utf_units, units}

-- `s.length > n ? `${s.substring(0, n)}...` : s`
unfoldable pub shortened : ℕ → String → List ℕ
unfolding utf_units units
shortened n s = if ltb n (units s) then take n (utf_units s) ++ utf_units "..." else utf_units s

-- In the table, and in the cards of a small screen.
unfoldable pub host_cell : String → List ℕ
unfolding utf_units
host_cell description =
    if description == "" then utf_units "No description provided" else shortened 100 description

unfoldable pub host_card : String → List ℕ
unfolding utf_units
host_card description =
    if description == "" then utf_units "No description provided" else shortened 80 description

-- Here the length is asked for before an empty description is replaced.
unfoldable pub plugin_text : ℕ → String → List ℕ
unfolding utf_units units
plugin_text n description =
    if ltb n (units description)
    then take n (utf_units description) ++ utf_units "..."
    else if description == ""
    then utf_units "No description provided"
    else utf_units description

unfoldable pub plugin_cell : String → List ℕ
plugin_cell description = plugin_text 100 description

unfoldable pub plugin_card : String → List ℕ
plugin_card description = plugin_text 80 description
