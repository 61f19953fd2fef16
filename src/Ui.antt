-- ===== src/Ui.antt =====
-- Components of the UI: a component's state beside the outside world, and the notifications that
-- they share. A handler runs from its first to its last statement; it reads the state of the render
-- that made it, which is its argument, and its `set…` calls change the current state.
pub mod AgentTopics
pub mod AgentCredentials
pub mod AgentDetails
pub mod AgentPlugins
pub mod ConnectionForm
pub mod Cards
pub mod Common
pub mod Details
pub mod Connections
pub mod Dispatch
pub mod Effects
pub mod HostKeys
pub mod KeyDetails
pub mod HostPlugins
pub mod Forms
pub mod Hosts
pub mod PluginDetails
pub mod TopicDetails
pub mod Authorizers
pub mod Keeps
pub mod Lists
pub mod Loading
pub mod PluginFunctions
pub mod Preview
pub mod Search
pub mod SettingsTabs
pub mod Settling
pub mod Tables
pub mod TopicAgents
pub mod Unassigned
use agience.Base.{Option, none, some, String, Bool, true, false, ◌==◌, List, [], ◌∷◌, if◌then◌else◌}
use agience.Js.Exec.{Exec, Result, ok, thrown}
use agience.Js.Value.{Value, get, is_text}
use agience.World.{World, Io}

pub record Mounted (V : Type 0) : Type 0 where
  pub view : V
  pub world : World

abbrev pub Ui : Type 0 → Type 0 → Type 0
Ui V A = Exec (Mounted V) A

module _ {V : Type 0} where
  unfoldable pub update : (V → V) → Ui V (Unit {0})
  update f m = (ok tt, record m { view = f m.view })

  unfoldable pub io : {A : Type 0} → Io A → Ui V A
  io p m = let (r, w) = p m.world in (r, record m { world = w })

-- A handler of a parent, which has `part` of the state, called by its child.
module _ {V W A : Type 0} where
  unfoldable pub within : (V → W) → (W → V → V) → Ui W A → Ui V A
  within part put p m =
      let (r, n) = p (record { view = part m.view; world = m.world }) in
      (r, record { view = put n.view m.view; world = n.world })

-- `list.find(t => t.id === id)`, which throws at an element that is `null`
unfoldable pub find_by_id : String → List Value → Result (Option Value)
unfolding get is_text
find_by_id id [] = ok none
find_by_id id (t ∷ ts) =
    let rest = find_by_id id ts in
    elim (get "id" t) [
      | ok found ↦ if is_text found id then ok (some t) else rest
      | thrown e ↦ thrown e
    ]

-- `type: 'success' | 'error' | 'info' | 'warning'`
pub data Kind : Type 0 where
  success error info warning : Kind

pub record Notification : Type 0 where
  pub is_open : Bool
  pub title : String
  pub message : String
  pub kind : Kind

abbrev pub no_notification : Notification
no_notification = record { is_open = false; title = ""; message = ""; kind = info }

abbrev pub opened : String → String → Kind → Notification
opened title message kind = record { is_open = true; title = title; message = message; kind = kind }

-- `prop || url`; an absent id is empty.
abbrev pub context_id : String → String → String
context_id prop url = elim (prop == "") [ true ↦ url | false ↦ prop ]

-- `URLSearchParams`: the pairs of a query, in their order.
abbrev pub Query : Type 0
Query = List (String × String)

unfoldable pub delete_param : String → Query → Query
delete_param k [] = []
delete_param k ((j, v) ∷ q) = if j == k then delete_param k q else (j, v) ∷ delete_param k q

-- The first pair of the name takes the value, and its others go; a new pair comes last.
unfoldable pub set_param : String → String → Query → Query
unfolding delete_param
set_param k v [] = (k, v) ∷ []
set_param k v ((j, w) ∷ q) = if j == k then (j, v) ∷ delete_param k q else (j, w) ∷ set_param k v q
