-- ===== src/Ui/Search.antt =====
-- The searches in the lists of an agent's topics and plugins and of a topic's agents:
-- authority/manage-ui/src/components/agents/AgentTopicsTab.tsx (filterTopics), AgentPluginsTab.tsx
-- (filterPlugins) and topics/TopicAgentsTab.tsx (filterAgents). `toLowerCase` is a parameter.
pub mod Matching
use agience.Base.{String, Bool, true, false, none, List, [], ◌∷◌, ◌==◌, if◌then◌else◌}
use agience.Js.Value.{Value, undefined, null, bool, num, str, arr, obj, cannot_read, get}
use agience.Js.Exec.{Exn, Result, ok, thrown}
use agience.Js.Text.{includes}

abbrev pub no_lower_case : Exn
no_lower_case = record {
  name = "TypeError";
  message = "toLowerCase is not a function";
  status = none;
}

-- `m ? x : y` and `m || y` on results
abbrev pub choose : {A : Type 0} → Result Bool → Result A → Result A → Result A
choose (ok true) x y = x
choose (ok false) x y = y
choose (thrown e) x y = thrown e

abbrev pub either : Result Bool → Result Bool → Result Bool
either m y = choose m (ok true) y

abbrev pub push : {A : Type 0} → A → Result (List A) → Result (List A)
push a (ok rest) = ok (a ∷ rest)
push a (thrown e) = thrown e

abbrev pub test : (Value → Result Bool) → Result Value → Result Bool
test p (ok v) = p v
test p (thrown e) = thrown e

-- `vs.filter(p)` with a test that may throw
unfoldable pub filter_with : (Value → Result Bool) → List Value → Result (List Value)
filter_with p [] = ok []
filter_with p (v ∷ vs) = let rest = filter_with p vs in choose (p v) (push v rest) rest

module _ (lower : String → String) where
  -- `v.toLowerCase().includes(term)`
  unfoldable pub lower_includes : String → Value → Result Bool
  unfolding includes
  lower_includes term (str s) = ok (includes term (lower s))
  lower_includes term undefined = thrown (cannot_read "undefined" "toLowerCase")
  lower_includes term null = thrown (cannot_read "null" "toLowerCase")
  lower_includes term (bool _) = thrown no_lower_case
  lower_includes term (num _) = thrown no_lower_case
  lower_includes term (arr _) = thrown no_lower_case
  lower_includes term (obj _) = thrown no_lower_case

  -- `v?.toLowerCase().includes(term)`, where `undefined` counts as false
  unfoldable pub lower_includes? : String → Value → Result Bool
  unfolding lower_includes
  lower_includes? term undefined = ok false
  lower_includes? term null = ok false
  lower_includes? term (str s) = lower_includes term (str s)
  lower_includes? term (bool b) = lower_includes term (bool b)
  lower_includes? term (num n) = lower_includes term (num n)
  lower_includes? term (arr vs) = lower_includes term (arr vs)
  lower_includes? term (obj fs) = lower_includes term (obj fs)

  -- `v.name.toLowerCase().includes(term) || v.description.toLowerCase().includes(term)`
  unfoldable pub has_term : String → Value → Result Bool
  unfolding lower_includes get
  has_term term v =
      either (test (lower_includes term) (get "name" v))
        (test (lower_includes term) (get "description" v))

  -- `v.name.toLowerCase().includes(term) || v.description?.toLowerCase().includes(term)`
  unfoldable pub has_term? : String → Value → Result Bool
  unfolding lower_includes lower_includes? get
  has_term? term v =
      either (test (lower_includes term) (get "name" v))
        (test (lower_includes? term) (get "description" v))

  unfoldable pub filter_topics : String → List Value → Result (List Value)
  unfolding filter_with has_term
  filter_topics search_term topics =
      if search_term == "" then ok topics else filter_with (has_term (lower search_term)) topics

  unfoldable pub filter_plugins : String → List Value → Result (List Value)
  unfolding filter_with has_term
  filter_plugins search_term plugins =
      if search_term == "" then ok plugins else filter_with (has_term (lower search_term)) plugins

  unfoldable pub filter_agents : String → List Value → Result (List Value)
  unfolding filter_with has_term?
  filter_agents search_term agents =
      if search_term == "" then ok agents else filter_with (has_term? (lower search_term)) agents
