-- ===== src/Ui/AgentCredentials.antt =====
-- authority/manage-ui/src/components/agents/AgentCredentialsTab.tsx: the effect of the tab, whose
-- requests are answered later and in any order.
pub mod Fresh
use agience.Base.{
  String, Bool, true, false, Option, none, some, ℕ, zero, suc, List, [], ◌∷◌, map, ◌==◌,
  if◌then◌else◌,
}
use agience.Js.Value.{Value, null}
use agience.Js.Exec.{Result, ok, thrown}

-- A run of the effect that waits for its answer: the id it asked for, and its `isMounted`.
pub record Pending : Type 0 where
  pub agent_id : String
  pub is_mounted : Bool

-- The prop `agentId`, where an absent id is empty, and the runs that wait, the newest first.
pub record View : Type 0 where
  pub agent_id : String
  pub selected_agent : Value
  pub pending : List Pending

abbrev pub initial : View
initial = record { agent_id = ""; selected_agent = null; pending = [] }

-- The function that an effect returns.
abbrev pub clean_up : Pending → Pending
clean_up p = record p { is_mounted = false }

-- The clean-up of the run before, and of no other, is due; those before it have had theirs.
unfoldable pub unmount : View → View
unmount v = record v { pending = map clean_up v.pending }

-- The effect runs for a new prop, after the clean-up.
unfoldable pub on_agent_id : String → View → View
unfolding unmount
on_agent_id id v =
    let w = unmount v in
    if id == "" then record w { agent_id = id } else record w {
      agent_id = id;
      pending = record { agent_id = id; is_mounted = true } ∷ w.pending;
    }

abbrev pub nth : ℕ → List Pending → Option Pending
nth i [] = none
nth zero (p ∷ ps) = some p
nth (suc i) (p ∷ ps) = nth i ps

abbrev pub without : ℕ → List Pending → List Pending
without i [] = []
without zero (p ∷ ps) = ps
without (suc i) (p ∷ ps) = p ∷ without i ps

abbrev pub shown : Result Value → Value
shown (ok agent) = agent
shown (thrown e) = null

-- What follows the `await` of one run, once it has its answer.
abbrev pub resume : Option Pending → Result Value → Value → Value
resume none r old = old
resume (some p) r old = if p.is_mounted then shown r else old

-- The run at place `i` gets its answer.
unfoldable pub settle : ℕ → Result Value → View → View
settle i r v = record v {
  selected_agent = resume (nth i v.pending) r v.selected_agent;
  pending = without i v.pending;
}
