-- ===== src/Auth/Provider/Laws.antt =====
-- What a provider shows after any events, and how signing out ends.
use agience.Base.{true, false, List, [], ◌∷◌, ◌≡◌, Bool-cases, arith, inl, inr, if◌then◌else◌, refl}
use agience.Js.Value.{Value, null, truthy, get?}
use agience.Js.Exec.{Exn, Result, ok, thrown, Result-cases, try_catch, ◌>>◌}
use agience.World.{
  World, Event, oidc, get_user, revoke_tokens, remove_user, set_location, console_error, Io,
  log_error, call_oidc, emit,
}
use agience.Ui.{Mounted}
use agience.Auth.Provider.{
  View, ProviderEvent, mounted, user_loaded, user_unloaded, react, run, protected_route, Page,
  redirect, children, logout,
}

-- The user that an event leaves behind: the one loaded, none after an unload, and at the mount the
-- one that the OpenID client has stored, or the former one if the client fails.
stored_user : Result Value → Value → Value
stored_user (ok u) former = u
stored_user (thrown e) former = former

user_after : ProviderEvent → Mounted View → Value
user_after mounted m = stored_user (m.world.env.identity m.world.history get_user) m.view.user
user_after (user_loaded u) m = u
user_after user_unloaded m = null

pub last_user : List ProviderEvent → Mounted View → Value
last_user [] m = m.view.user
last_user (e ∷ []) m = user_after e m
last_user (e ∷ f ∷ es) m = last_user (f ∷ es) (react e m).1

pub page_for : Value → Page
page_for u = if truthy u then children else redirect "/login"

react-view :
    (e : ProviderEvent) (m : Mounted View)
    → (react e m).1.view ≡ record { user = user_after e m; is_loading = false }
unfolding react user_after stored_user
react-view mounted m = elim (Result-cases (m.world.env.identity m.world.history get_user)) [
  | inl (u, answer) ↦ rw answer
  | inr (e, answer) ↦ rw answer
]
react-view (user_loaded u) m = refl
react-view user_unloaded m = refl

-- After any events, at least one, a protected route shows its children exactly if the last of them
-- left a user behind, and sends everybody else to the sign-in page: never the loading page.
pub protected_route-run :
    (e : ProviderEvent) (es : List ProviderEvent) (m : Mounted View)
    → protected_route (run (e ∷ es) m).view ≡ page_for (last_user (e ∷ es) m)
unfolding run last_user protected_route page_for
protected_route-run e [] m = rw (react-view e m) (ground arith)
protected_route-run e (f ∷ es) m = protected_route-run f es (react e m).1

-- What `logout` has done before it removes the user, given the history at its start: the client has
-- named the user, whose tokens are revoked if there is an access token.
pub data Ready (w : World) : List Event → Type 0 where
  without_token :
      (u : Value)
      → w.env.identity w.history get_user ≡ ok u
      → truthy (get? "access_token" u) ≡ false
      → Ready w (oidc get_user ∷ w.history)
  revoked :
      (u r : Value)
      → w.env.identity w.history get_user ≡ ok u
      → truthy (get? "access_token" u) ≡ true
      → w.env.identity (oidc get_user ∷ w.history) revoke_tokens ≡ ok r
      → Ready w (oidc revoke_tokens ∷ oidc get_user ∷ w.history)

-- The first of these steps that the client refuses, and the line on the console.
pub data Failed (w : World) : List Event → Type 0 where
  unnamed :
      (e : Exn)
      → w.env.identity w.history get_user ≡ thrown e
      → Failed w (console_error "Logout error:" ∷ oidc get_user ∷ w.history)
  unrevoked :
      (u : Value) (e : Exn)
      → w.env.identity w.history get_user ≡ ok u
      → truthy (get? "access_token" u) ≡ true
      → w.env.identity (oidc get_user ∷ w.history) revoke_tokens ≡ thrown e
      → Failed w (console_error "Logout error:" ∷ oidc revoke_tokens ∷ oidc get_user ∷ w.history)
  unremoved :
      (before : List Event) (e : Exn)
      → Ready w before
      → w.env.identity before remove_user ≡ thrown e
      → Failed w (console_error "Logout error:" ∷ oidc remove_user ∷ before)

-- How signing out ends, by what the client answers.
pub data SignedOut (w : World) : Result (Unit {0}) → List Event → Type 0 where
  left :
      (before : List Event) (r : Value)
      → Ready w before
      → w.env.identity before remove_user ≡ ok r
      → SignedOut w (ok tt) (set_location "/login" ∷ oidc remove_user ∷ before)
  recovered :
      (before : List Event) (r : Value)
      → Failed w before
      → w.env.identity before remove_user ≡ ok r
      → SignedOut w (ok tt) (set_location "/login" ∷ oidc remove_user ∷ before)
  stuck :
      (before : List Event) (e : Exn)
      → Failed w before
      → w.env.identity before remove_user ≡ thrown e
      → SignedOut w (thrown e) (oidc remove_user ∷ before)

-- The handler of the errors of `logout`.
abbrev recover : Io (Unit {0})
recover = do log_error "Logout error:"; call_oidc remove_user; emit (set_location "/login")

recover-SignedOut :
    (w : World) (before : List Event)
    → Failed w (console_error "Logout error:" ∷ before)
    → SignedOut w
        (recover (record w { history = before })).0
        (recover (record w { history = before })).1.history
unfolding logout
recover-SignedOut w before failed =
    elim (Result-cases (w.env.identity (console_error "Logout error:" ∷ before) remove_user)) [
      | inl (r, answer) ↦ rw answer (recovered _ r failed answer)
      | inr (e, answer) ↦ rw answer (stuck _ e failed answer)
    ]

-- How the removal of the user ends, once all before it has been done.
abbrev remove : World → List Event → Result (Unit {0}) × World
remove w before =
    try_catch (do call_oidc remove_user; emit (set_location "/login")) (λ e. recover)
      (record w { history = before })

remove-SignedOut :
    (w : World) (before : List Event)
    → Ready w before
    → SignedOut w (remove w before).0 (remove w before).1.history
unfolding logout
remove-SignedOut w before ready = elim (Result-cases (w.env.identity before remove_user)) [
  | inl (r, removed) ↦ rw removed (left before r ready removed)
  | inr (e, failed) ↦
      rw failed (recover-SignedOut w (oidc remove_user ∷ before) (unremoved before e ready failed))
]

-- Signing out asks the client for the user, revokes the tokens if the user has an access token, and
-- removes the user. If the client does all that, it goes to the sign-in page. If any of it fails, it
-- logs that and tries to remove the user again: it goes to the sign-in page if that succeeds, and
-- throws the error of that if it fails. Nothing else is asked of the client.
pub logout-SignedOut : (w : World) → SignedOut w (logout w).0 (logout w).1.history
unfolding logout
logout-SignedOut w = elim (Result-cases (w.env.identity w.history get_user)) [
  | inr (e, failed) ↦ rw failed (recover-SignedOut w (oidc get_user ∷ w.history) (unnamed e failed))
  | inl (u, found) ↦ elim (Bool-cases (truthy (get? "access_token" u))) [
    | inr no_token ↦
        rw (found, no_token)
          (remove-SignedOut w (oidc get_user ∷ w.history) (without_token u found no_token))
    | inl token ↦ elim (Result-cases (w.env.identity (oidc get_user ∷ w.history) revoke_tokens)) [
      | inr (e, failed) ↦
          rw (found, token, failed)
            (recover-SignedOut w (oidc revoke_tokens ∷ oidc get_user ∷ w.history)
              (unrevoked u e found token failed))
      | inl (r, done) ↦
          rw (found, token, done)
            (remove-SignedOut w (oidc revoke_tokens ∷ oidc get_user ∷ w.history)
              (revoked u r found token done))
    ]
  ]
]
