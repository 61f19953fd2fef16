-- ===== src/Ui/Preview/Bounds.antt =====
-- How long a shown description can be, and when it is the description itself.
use agience.Base.{String, true, ℕ, ◌+◌, ◌≤◌, ◌<◌, List, take, length, ltb, ◌≡◌, arith}
use agience.Js.Text.{utf_units, units}
use agience.Ui.Preview.{host_cell, host_card, plugin_cell, plugin_card}

longer : (n k : ℕ) → n < k → ltb n k ≡ true
longer n k h = ground arith

-- A shown text of at most `n + 3` units, which is the description where that has at most `n`, and
-- begins with the first `n` units of it where it has more.
pub record Shortens (n : ℕ) (description : String) (shown : List ℕ) : Type 0 where
  bounded : length shown ≤ n + 3
  whole : units description ≤ n → shown ≡ utf_units description
  prefix : n < units description → take n shown ≡ take n (utf_units description)

pub record Shown (d : String) : Type 0 where
  host_cell_shown : Shortens 100 d (host_cell d)
  host_card_shown : Shortens 80 d (host_card d)
  plugin_cell_shown : Shortens 100 d (plugin_cell d)
  plugin_card_shown : Shortens 80 d (plugin_card d)
