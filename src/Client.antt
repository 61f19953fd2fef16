-- ===== src/Client.antt =====
-- authority/manage-ui/src/services/api/config.ts: the axios instance with its request interceptor.
pub mod Header
use agience.Base.{String, Option, none, some, ◌<>◌, if◌then◌else◌}
use agience.Js.Value.{Value, undefined, truthy, get, text}
use agience.Js.Exec.{pure, throw, lift, try_catch, ◌>>=◌, ◌>>◌}
use agience.World.{
  http_get, http_post, http_put, http_delete, Call, Io, transmit, call_oidc, log_error, get_user,
}

-- `Bearer ${user.access_token}`, if there is such a token
unfoldable pub bearer : Value → Option String
unfolding truthy text
bearer token = if truthy token then some ("Bearer " <> text token) else none

token_of : Value → Io (Option String)
unfolding truthy get bearer
token_of user =
    if truthy user
    then (do token ← lift (get "access_token" user); pure (bearer token))
    else pure none

-- The interceptor: a failure to read the user is logged, and the request goes out without a header.
unfoldable pub authorization : Io (Option String)
unfolding token_of call_oidc log_error ◌>>=◌
authorization =
    try_catch (do user ← call_oidc get_user; token_of user)
      (λ e. do log_error "Error retrieving user from OIDC client"; pure none)

-- A call through the instance: `response.data`, or a rejection.
unfoldable pub send : Call → Io Value
unfolding authorization transmit ◌>>=◌
send c = do header ← authorization; transmit (record { call = c; authorization = header })

abbrev pub get_call : String → Call
get_call url = record { method = http_get; url = url; params = undefined; body = undefined }

abbrev pub post_call : String → Value → Call
post_call url body = record { method = http_post; url = url; params = undefined; body = body }

abbrev pub put_call : String → Value → Call
put_call url body = record { method = http_put; url = url; params = undefined; body = body }

abbrev pub delete_call : String → Call
delete_call url = record { method = http_delete; url = url; params = undefined; body = undefined }

-- `try { m } catch (error) { console.error(message, error); throw error; }`
unfoldable pub logged : {A : Type 0} → String → Io A → Io A
unfolding log_error ◌>>=◌
logged message m = try_catch m (λ e. do log_error message; throw e)
