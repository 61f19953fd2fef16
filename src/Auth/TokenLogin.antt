-- ===== src/Auth/TokenLogin.antt =====
-- authority/manage-ui/src/hooks/useAuth.ts: sign-in with a token in the local storage
pub mod Laws
use agience.Base.{String, Bool, true, false, Option, none, some, if◌then◌else◌}
use agience.Js.Value.{Value, get, truthy, text}
use agience.Js.Exec.{pure, throw, lift, try_catch, try_finally, ◌>>=◌, ◌>>◌}
use agience.World.{Io, log, log_error, emit}
use agience.Ui.{Ui, update, io}
use agience.World.{set_item}
use agience.Services.Login

-- `error` is absent until a sign-in fails.
pub record View : Type 0 where
  pub is_loading : Bool
  pub error_message : Option String

abbrev pub initial : View
initial = record { is_loading = false; error_message = none }

-- The token is stored only if the answer has one.
unfoldable pub store_token : Value → Io (Unit {0})
unfolding emit log_error get truthy text ◌>>=◌
store_token response = do
  token ← lift (get "token" response)
  if truthy token
      then emit (set_item "token" (text token))
      else log_error "No token returned in response"

unfoldable pub login : Value → Ui View Value
unfolding update io log store_token ◌>>=◌
login credentials =
    try_finally
      (try_catch
        (do
          update (λ v. record v { is_loading = true })
          update (λ v. record v { error_message = none })
          response ← io (Login.login credentials)
          io (log "Login response:")
          io (store_token response)
          pure response)
        (λ err. do update (λ v. record v { error_message = some err.message }); throw err))
      (update (λ v. record v { is_loading = false }))

unfoldable pub logout : Ui View (Unit {0})
unfolding update io ◌>>=◌
logout =
    try_finally (do update (λ v. record v { is_loading = true }); io Login.logout)
      (update (λ v. record v { is_loading = false }))
