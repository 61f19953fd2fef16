-- ===== src/Ui/Dispatch/Sending.antt =====
-- What the events of a page send, if each takes one allowed action at most. No code of its own.
use agience.Base.{List, [], ◌∷◌, ◌≡◌, subst}
use agience.World.{Call}
use agience.Js.Value.{Value}
use agience.Js.Exec.{pure}
use agience.Trace.Sends.{Sends, Sends-pure, Sends-try_finally}
use agience.Html.Events.{Each, Takes, inert, takes}
use agience.Ui.{Mounted, Ui}
use agience.Ui.Dispatch.{run_all}

-- What a program of a component sends satisfies `P`.
abbrev pub UiSends : {V A : Type 0} → (Call → Type 0) → Ui V A → Type 0
UiSends {V} P m = Sends (λ (s : Mounted V). s.world) P m

module _ {V A : Type 0} {Allowed : A → Type 0} {P : Call → Type 0} (perform : A → Ui V (Unit {0}))
    (sends : (a : A) → Allowed a → UiSends P (perform a)) where
  run_all-Sends : (acts : List A) → Takes Allowed acts → UiSends P (run_all perform acts)
  unfolding run_all
  run_all-Sends [] h = Sends-pure tt
  run_all-Sends (a ∷ []) (takes b same h) =
      let e : b ≡ a = cc in
      Sends-try_finally (perform a) (pure tt) (sends a (subst Allowed e h)) (Sends-pure tt)
  run_all-Sends (a ∷ a' ∷ acts) (takes b same h) = absurd cc
  run_all-Sends (a ∷ acts) (inert same) = absurd cc

  pub Each-UiSends :
      (es : List (Value → List A))
      → Each (Takes Allowed) es
      → Each (λ acts. UiSends P (run_all perform acts)) es
  Each-UiSends [] h = tt
  Each-UiSends (e ∷ es) (h, hs) = (λ v. run_all-Sends (e v) (h v), Each-UiSends es hs)
