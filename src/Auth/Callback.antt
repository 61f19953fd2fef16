-- ===== src/Auth/Callback.antt =====
-- authority/manage-ui/src/pages/AuthCallback.tsx
pub mod Laws
use agience.Base.{Bool, true, false, if◌then◌else◌}
use agience.Js.Exec.{ok, try_catch, ◌>>=◌, ◌>>◌}
use agience.World.{log_error, emit, set_location, navigated}
use agience.Ui.{Ui, update, io}
use agience.World.{signin_redirect_callback, call_oidc}

-- `callbackHandled.current`, which outlives the renders of the component.
pub record View : Type 0 where
  pub callback_handled : Bool

abbrev pub initial : View
initial = record { callback_handled = false }

unfoldable pub handle_callback : Ui View (Unit {0})
unfolding update io call_oidc emit log_error ◌>>=◌
handle_callback m =
    if m.view.callback_handled
    then (ok tt, m)
    else (do
      update (λ v. record v { callback_handled = true })
      try_catch (do io (call_oidc signin_redirect_callback); io (emit (set_location "/")))
          (λ e. do io (log_error "Signin error:"); io (emit (navigated "/login" true))))
        m
