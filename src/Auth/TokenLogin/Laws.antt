-- ===== src/Auth/TokenLogin/Laws.antt =====
-- What a sign-in with a token leaves behind.
use agience.Base.{false, none, some, ◌∷◌, ◌≡◌, ◌⊎◌, inl, inr, refl, Bool-cases, if◌then◌else◌}
use agience.Js.Value.{Value, get, truthy, text}
use agience.Js.Exec.{Exn, ok, thrown, Result, Result-cases}
use agience.World.{World, Event, set_item, console_error, console_log}
use agience.Ui.{Mounted}
use agience.Services.Login
use agience.Auth.TokenLogin.{View, login}

-- The line that an answer adds to the history: its token in the storage, or a complaint.
stored : Value → Event
stored token =
    if truthy token
    then set_item "token" (text token)
    else console_error "No token returned in response"

module _ (credentials : Value) (m : Mounted View) where
  abbrev answered : Result Value × World
  answered = Login.login credentials m.world

  pub record Accepted : Type 0 where
    response : Value
    token : Value
    answer : answered.0 ≡ ok response
    has : get "token" response ≡ ok token
    returns : (login credentials m).0 ≡ ok response
    keeps :
        (login credentials m).1.world.history
        ≡ stored token ∷ console_log "Login response:" ∷ answered.1.history
    shows : (login credentials m).1.view ≡ record { is_loading = false; error_message = none }

  pub record Rejected : Type 0 where
    cause : Exn
    -- the service throws, or it answers with `null` or `undefined`; nothing is stored
    origin :
        ((answered.0 ≡ thrown cause) × ((login credentials m).1.world.history ≡ answered.1.history))
        ⊎ ((response : Value) × (answered.0 ≡ ok response)
            × (get "token" response ≡ thrown cause)
            × ((login credentials m).1.world.history
                ≡ console_log "Login response:" ∷ answered.1.history))
    throws : (login credentials m).0 ≡ thrown cause
    shows :
        (login credentials m).1.view
        ≡ record { is_loading = false; error_message = some cause.message }

  -- Signing in ends in one of two ways, and never leaves the loading state on. Either the server
  -- answers with a value that can have a token: then the answer is returned, its token is stored,
  -- or a line on the console says that it has none, and no error is shown. Or the service throws, or
  -- answers with a value that can have no token, and then the sign-in throws the same error, or that
  -- of reading the token, shows its message and stores nothing.
  pub login_cases : Accepted ⊎ Rejected
  unfolding login stored
  login_cases = elim (Result-cases answered.0) [
    | inr (e, failed) ↦ inr (record {
      cause = e;
      origin = inl (failed, rw failed refl);
      throws = rw failed refl;
      shows = rw failed refl;
    })
    | inl (response, answer) ↦ elim (Result-cases (get "token" response)) [
      | inr (e, failed) ↦ inr (record {
        cause = e;
        origin = inr (response, answer, failed, rw (answer, failed) refl);
        throws = rw (answer, failed) refl;
        shows = rw (answer, failed) refl;
      })
      | inl (token, has) ↦ elim (Bool-cases (truthy token)) [
        | inl there ↦ inl (record {
          response = response;
          token = token;
          answer = answer;
          has = has;
          returns = rw (answer, has, there) refl;
          keeps = rw (answer, has, there) refl;
          shows = rw (answer, has, there) refl;
        })
        | inr missing ↦ inl (record {
          response = response;
          token = token;
          answer = answer;
          has = has;
          returns = rw (answer, has, missing) refl;
          keeps = rw (answer, has, missing) refl;
          shows = rw (answer, has, missing) refl;
        })
      ]
    ]
  ]
