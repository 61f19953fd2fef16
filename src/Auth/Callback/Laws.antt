-- ===== src/Auth/Callback/Laws.antt =====
-- The return from the identity provider is handled once.
use agience.Base.{true, false, List, ◌∷◌, ◌≡◌, ℕ, zero, suc, inl, inr, refl, ap, ◌∙◌}
use agience.Js.Value.{Value}
use agience.Js.Exec.{Exn, Result, ok, thrown, Result-cases}
use agience.World.{Event, oidc, signin_redirect_callback, set_location, navigated, console_error}
use agience.Ui.{Mounted}
use agience.Auth.Callback.{View, handle_callback}

-- The runs of one component's effect: strict mode runs it more than once.
pub mounts : ℕ → Mounted View → Mounted View
mounts zero m = m
mounts (suc n) m = mounts n (handle_callback m).1

-- What the first run leaves in the history, by the answer of the client: a sign-in goes home, a
-- failure back to the sign-in page.
pub data Handled (before : List Event) : Result Value → List Event → Type 0 where
  signed_in :
      (u : Value)
      → Handled before (ok u) (set_location "/" ∷ oidc signin_redirect_callback ∷ before)
  refused :
      (e : Exn)
      → Handled before (thrown e) (
          navigated "/login" true
          ∷ console_error "Signin error:"
          ∷ oidc signin_redirect_callback
          ∷ before)

-- What the OpenID client answers to the callback.
abbrev pub answer_of : Mounted View → Result Value
answer_of m = m.world.env.identity m.world.history signin_redirect_callback

handle_callback_first :
    (m : Mounted View)
    → m.view.callback_handled ≡ false
    → ((handle_callback m).1.view.callback_handled ≡ true)
      × Handled m.world.history (answer_of m) (handle_callback m).1.world.history
unfolding handle_callback
handle_callback_first m fresh = elim (Result-cases (answer_of m)) [
  | inl (u, answer) ↦ (rw (fresh, answer) refl, rw (fresh, answer) (signed_in u))
  | inr (e, answer) ↦ (rw (fresh, answer) refl, rw (fresh, answer) (refused e))
]

handle_callback_again :
    (m : Mounted View) → m.view.callback_handled ≡ true → (handle_callback m).1 ≡ m
unfolding handle_callback
handle_callback_again m h = simp h

mounts-handled : (n : ℕ) (m : Mounted View) → m.view.callback_handled ≡ true → mounts n m ≡ m
unfolding mounts
mounts-handled zero m h = refl
mounts-handled (suc n) m h = ap (mounts n) (handle_callback_again m h) ∙ mounts-handled n m h

-- However often the effect is run, at least once, the callback is handled exactly once: where the
-- client accepts it, it ends at the home page, and where the client refuses it, at the sign-in page
-- with a line on the console.
pub mounts-Handled :
    (n : ℕ) (m : Mounted View)
    → m.view.callback_handled ≡ false
    → Handled m.world.history (answer_of m) (mounts (suc n) m).world.history
unfolding mounts
mounts-Handled n m fresh =
    let (handled, first) = handle_callback_first m fresh in
    rw (mounts-handled n (handle_callback m).1 handled) first
