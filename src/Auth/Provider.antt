-- ===== src/Auth/Provider.antt =====
-- authority/manage-ui/src/auth/AuthProvider.tsx and ProtectedRoute.tsx
pub mod Laws
use agience.Base.{String, Bool, true, false, not, List, [], ◌∷◌, if◌then◌else◌}
use agience.Js.Value.{Value, null, get?, truthy}
use agience.Js.Exec.{pure, try_catch, try_finally, ◌>>=◌, ◌>>◌}
use agience.World.{Io, log_error, emit, set_location, navigated}
use agience.Ui.{Mounted, Ui, update, io}
use agience.World.{get_user, signin_redirect, revoke_tokens, remove_user, call_oidc}

-- `user` is `null` if nobody has signed in.
pub record View : Type 0 where
  pub user : Value
  pub is_loading : Bool

abbrev pub initial : View
initial = record { user = null; is_loading = true }

-- `isAuthenticated: !!user`
abbrev pub is_authenticated : View → Bool
is_authenticated v = truthy v.user

-- `getUser` of the effect
unfoldable pub fetch_user : Ui View (Unit {0})
unfolding update io call_oidc log_error ◌>>=◌
fetch_user =
    try_finally
      (try_catch
        (do current_user ← io (call_oidc get_user); update (λ v. record v { user = current_user }))
        (λ e. io (log_error "Error getting user:")))
      (update (λ v. record v { is_loading = false }))

unfoldable pub handle_user_loaded : Value → Ui View (Unit {0})
unfolding update ◌>>=◌
handle_user_loaded loaded_user = do
  update (λ v. record v { user = loaded_user })
  update (λ v. record v { is_loading = false })

unfoldable pub handle_user_unloaded : Ui View (Unit {0})
unfolding update io emit ◌>>=◌
handle_user_unloaded = do
  update (λ v. record v { user = null })
  update (λ v. record v { is_loading = false })
  io (emit (navigated "/login" false))

unfoldable pub login : Io (Unit {0})
unfolding call_oidc log_error ◌>>=◌
login = try_catch (do call_oidc signin_redirect; pure tt) (λ e. log_error "Login error:")

-- `if (user?.access_token) await userManager.revokeTokens()`
unfoldable pub revoke_if_signed_in : Value → Io (Unit {0})
unfolding call_oidc truthy get? ◌>>=◌
revoke_if_signed_in user =
    if truthy (get? "access_token" user) then (do call_oidc revoke_tokens; pure tt) else pure tt

unfoldable pub logout : Io (Unit {0})
unfolding call_oidc emit log_error revoke_if_signed_in ◌>>=◌
logout =
    try_catch
      (do
        user ← call_oidc get_user
        revoke_if_signed_in user
        call_oidc remove_user
        emit (set_location "/login"))
      (λ e. do log_error "Logout error:"; call_oidc remove_user; emit (set_location "/login"))

-- What `ProtectedRoute` shows.
pub data Page : Type 0 where
  loading : Page
  -- `<Navigate to=… replace />`
  redirect : String → Page
  children : Page

unfoldable pub protected_route : View → Page
unfolding truthy
protected_route v =
    if v.is_loading
    then loading
    else if not (is_authenticated v)
    then redirect "/login"
    else children

-- What can happen to a provider once it is mounted.
pub data ProviderEvent : Type 0 where
  mounted : ProviderEvent
  user_loaded : Value → ProviderEvent
  user_unloaded : ProviderEvent

unfoldable pub react : ProviderEvent → Ui View (Unit {0})
unfolding fetch_user handle_user_loaded handle_user_unloaded
react mounted = fetch_user
react (user_loaded u) = handle_user_loaded u
react user_unloaded = handle_user_unloaded

unfoldable pub run : List ProviderEvent → Mounted View → Mounted View
unfolding react
run [] m = m
run (e ∷ es) m = run es (react e m).1
