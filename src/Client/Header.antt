-- ===== src/Client/Header.antt =====
-- The header that the interceptor gives a request.
use agience.Base.{
  arith, String, Option, none, some, ◌&&◌, ◌<>◌, List, ◌∷◌, ◌≡◌, if◌then◌else◌, refl,
}
use agience.Js.Value.{Value, undefined, null, truthy, get?, text}
use agience.Js.Exec.{Result, ok, thrown}
use agience.World.{Event, request, oidc, console_error, get_user, World, Call, Request}
use agience.Client.{authorization, send}

-- What `send` adds to the history: the question for the user, a line on the console if that
-- fails, and one request whose header holds the user's token if there is one.
header_for : Result Value → Option String
header_for (ok user) =
    if truthy user && truthy (get? "access_token" user)
    then some ("Bearer " <> text (get? "access_token" user))
    else none
header_for (thrown e) = none

lines_for : Result Value → List Event → List Event
lines_for (ok user) h = h
lines_for (thrown e) h = console_error "Error retrieving user from OIDC client" ∷ h

pub record IsSent (c : Call) (w : World) (user : Result Value) : Type 0 where
  outgoing : Request
  call : outgoing.call ≡ c
  header : outgoing.authorization ≡ header_for user
  answer : (send c w).0 ≡ w.env.server (lines_for user (oidc get_user ∷ w.history)) outgoing
  history : (send c w).1.history ≡ request outgoing ∷ lines_for user (oidc get_user ∷ w.history)
  env : (send c w).1.env ≡ w.env

authorization_lem :
    (w : World) (user : Result Value)
    → w.env.identity w.history get_user ≡ user
    → authorization w
      ≡ (ok (header_for user), record w { history = lines_for user (oidc get_user ∷ w.history) })
unfolding authorization header_for lines_for get?
authorization_lem w (thrown e) answer = rw answer
authorization_lem w (ok undefined) answer = rw answer
authorization_lem w (ok null) answer = rw answer
authorization_lem w (ok user) answer = rw answer (ground arith)

-- A call through the client adds to the history the question for the user, a line on the console if
-- that question fails, and one request, and returns the server's answer to it. The request's header
-- is `Bearer` with the user's token if there are a user and a token, and absent if not, also where
-- the question fails.
pub send-IsSent : (c : Call) (w : World) → IsSent c w (w.env.identity w.history get_user)
unfolding send
send-IsSent c w =
    let user = w.env.identity w.history get_user in
    let first = authorization_lem w user refl in
    record {
      outgoing = record { call = c; authorization = header_for user };
      call = refl;
      header = refl;
      answer = rw first;
      history = rw first;
      env = rw first;
    }
