-- ===== src/Tests/AuthRuns.antt =====
-- Runs of the sign-in and of the start script.
use agience.Base.{refl, [], ◌∷◌, ◌≡◌, ◌⊎◌}
use agience.Js.Value.{null, object, str}
use agience.Js.Exec.{ok}
use agience.Ui.{Mounted}
use agience.Auth.Provider
use agience.Auth.Provider.{mounted, user_unloaded, protected_route, run, logout}
use agience.Auth.Provider.Laws.{
  protected_route-run, logout-SignedOut, page_for, last_user, SignedOut,
}
use agience.Auth.Callback
use agience.Auth.Callback.Laws.{answer_of, mounts, Handled, mounts-Handled}
use agience.Auth.TokenLogin
use agience.Auth.TokenLogin.Laws.{Accepted, Rejected, login_cases}
use agience.Tests.Worlds.{saying, ada, signed_out}

abbrev provider : Mounted Provider.View
provider = record { view = Provider.initial; world = saying (ok null) }

protected_route-run_example :
    protected_route (run (mounted ∷ user_unloaded ∷ []) provider).view
    ≡ page_for (last_user (mounted ∷ user_unloaded ∷ []) provider)
protected_route-run_example = protected_route-run mounted (user_unloaded ∷ []) provider

logout-SignedOut_example : SignedOut signed_out (logout signed_out).0 (logout signed_out).1.history
logout-SignedOut_example = logout-SignedOut signed_out

abbrev callback : Mounted Callback.View
callback = record { view = Callback.initial; world = signed_out }

mounts-Handled_example :
    Handled callback.world.history (answer_of callback) (mounts 2 callback).world.history
mounts-Handled_example = mounts-Handled 1 callback refl

abbrev login_page : Mounted TokenLogin.View
login_page = record {
  view = TokenLogin.initial;
  world = saying (ok (object (("token", str "t1") ∷ [])));
}

login_cases_example : Accepted ada login_page ⊎ Rejected ada login_page
login_cases_example = login_cases ada login_page
