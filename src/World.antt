-- ===== src/World.antt =====
-- What the program sees outside itself: the authority's HTTP interface behind axios, the OpenID
-- client, the console, the browser's address bar and its local storage. Each answer is a
-- parameter, and may depend on all that happened before it.
use agience.Base.{String, Bool, Option, List, ◌∷◌}
use agience.Js.Value.{Value}
use agience.Js.Exec.{Result, ok, Exec}

pub data Method : Type 0 where
  http_get http_post http_put http_delete : Method

-- One call of axios. `undefined` stands for an argument that is not given.
pub record Call : Type 0 where
  pub method : Method
  pub url : String
  pub params : Value
  pub body : Value

-- A call with the `Authorization` header of the interceptor.
pub record Request : Type 0 where
  pub call : Call
  pub authorization : Option String

-- The methods of `UserManager`.
pub data OidcCall : Type 0 where
  get_user signin_redirect signin_redirect_callback revoke_tokens remove_user : OidcCall

pub data Event : Type 0 where
  request : Request → Event
  oidc : OidcCall → Event
  console_log : String → Event
  console_error : String → Event
  -- `window.location.href = url`
  set_location : String → Event
  -- `navigate(path, { replace })`
  navigated : String → Bool → Event
  -- `setSearchParams(pairs)`
  set_search : List (String × String) → Event
  set_item : String → String → Event
  remove_item : String → Event

-- Events are listed with the newest first.
pub record Environment : Type 0 where
  -- `response.data`, or what the promise is rejected with
  pub server : List Event → Request → Result Value
  pub identity : List Event → OidcCall → Result Value

pub record World : Type 0 where
  pub env : Environment
  pub history : List Event

abbrev pub Io : Type 0 → Type 0
Io A = Exec World A

-- Something happens outside that cannot fail.
unfoldable pub emit : Event → Io (Unit {0})
emit e w = (ok tt, record w { history = e ∷ w.history })

unfoldable pub transmit : Request → Io Value
transmit r w = (w.env.server w.history r, record w { history = request r ∷ w.history })

unfoldable pub call_oidc : OidcCall → Io Value
call_oidc c w = (w.env.identity w.history c, record w { history = oidc c ∷ w.history })

unfoldable pub log_error : String → Io (Unit {0})
unfolding emit
log_error message = emit (console_error message)

unfoldable pub log : String → Io (Unit {0})
unfolding emit
log message = emit (console_log message)
