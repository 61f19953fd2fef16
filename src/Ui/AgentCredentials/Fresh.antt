-- ===== src/Ui/AgentCredentials/Fresh.antt =====
-- No answer for an agent that is no longer asked for is shown, however answers and props interleave.
use agience.Base.{
  String, true, Option, none, some, ℕ, zero, suc, List, [], ◌∷◌, map, ◌==◌, ◌≡◌, ◌⊎◌, refl, ap,
  subst, inl, inr, All, Bool-cases,
}
use agience.Js.Value.{Value}
use agience.Js.Exec.{Result}
use agience.Ui.AgentCredentials.{
  Pending, View, initial, clean_up, unmount, on_agent_id, nth, without, settle,
}

-- The prop changes, the tab is taken away, or a run gets its answer.
pub data Step : View → View → Type 0 where
  changed : (v : View) (id : String) → Step v (on_agent_id id v)
  unmounted : (v : View) → Step v (unmount v)
  answered : (v : View) (i : ℕ) (r : Result Value) → Step v (settle i r v)

pub data Reach (v : View) : View → Type 0 where
  here : Reach v v
  next : {u w : View} → Reach v u → Step u w → Reach v w

-- A run that is still mounted asked for the prop of now.
abbrev IsCurrent : String → Pending → Type 0
IsCurrent id p = p.is_mounted ≡ true → p.agent_id ≡ id

abbrev IsFresh : View → Type 0
IsFresh v = All (IsCurrent v.agent_id) v.pending

clean_up-IsCurrent : (id : String) (ps : List Pending) → All (IsCurrent id) (map clean_up ps)
clean_up-IsCurrent id [] = tt
clean_up-IsCurrent id (p ∷ ps) = (λ h. cc, clean_up-IsCurrent id ps)

without-IsCurrent :
    (id : String) (i : ℕ) (ps : List Pending)
    → All (IsCurrent id) ps
    → All (IsCurrent id) (without i ps)
without-IsCurrent id i [] h = tt
without-IsCurrent id zero (p ∷ ps) h = h.1
without-IsCurrent id (suc i) (p ∷ ps) h = (h.0, without-IsCurrent id i ps h.1)

abbrev present : Pending → Option Pending → Pending
present q none = q
present q (some p) = p

nth-IsCurrent :
    (id : String) (i : ℕ) (ps : List Pending) (p : Pending)
    → All (IsCurrent id) ps
    → nth i ps ≡ some p
    → IsCurrent id p
nth-IsCurrent id i [] p h e = cc
nth-IsCurrent id zero (q ∷ ps) p h e = subst (IsCurrent id) (ap (present q) e) h.0
nth-IsCurrent id (suc i) (q ∷ ps) p h e = nth-IsCurrent id i ps p h.1 e

Step-IsFresh : {v w : View} → Step v w → IsFresh v → IsFresh w
unfolding on_agent_id unmount settle
Step-IsFresh (changed v id) h = elim (Bool-cases (id == "")) [
  | inl absent ↦ rw absent (clean_up-IsCurrent id v.pending)
  | inr given ↦ rw given (λ _. refl, clean_up-IsCurrent id v.pending)
]
Step-IsFresh (unmounted v) h = clean_up-IsCurrent v.agent_id v.pending
Step-IsFresh (answered v i r) h = without-IsCurrent v.agent_id i v.pending h

Reach-IsFresh : {v w : View} → IsFresh v → Reach v w → IsFresh w
Reach-IsFresh h here = h
Reach-IsFresh h (next r s) = Step-IsFresh s (Reach-IsFresh h r)

-- In every state that the tab can reach, with its prop changing at any time and the answers coming
-- in any order, a run that gets its answer either asked for the agent that is the prop now, or
-- changes nothing of what is shown.
pub settle-Fresh :
    {v : View} (i : ℕ) (r : Result Value) (p : Pending)
    → Reach initial v
    → nth i v.pending ≡ some p
    → (p.agent_id ≡ v.agent_id) ⊎ ((settle i r v).selected_agent ≡ v.selected_agent)
unfolding settle
settle-Fresh {v} i r p reached waiting = elim (Bool-cases p.is_mounted) [
  | inl mounted ↦
      inl (nth-IsCurrent v.agent_id i v.pending p (Reach-IsFresh tt reached) waiting mounted)
  | inr stale ↦ inr (rw (waiting, stale) refl)
]
