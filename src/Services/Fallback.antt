-- ===== src/Services/Fallback.antt =====
-- The fallbacks of `getExecutiveFunctions` and `getConnectionWithAuthorizer`.
use agience.Base.{String, List, [], ◌≡◌, refl, inl, inr, Bool-cases, if◌then◌else◌}
use agience.Js.Value.{Value, array_or_empty, field, end, get, truthy, spread, text}
use agience.Js.Exec.{Result, ok, thrown, Result-cases}
use agience.World.{World, log_error}
use agience.Client.{send, get_call}
use agience.Services.Functions.{get_executive_functions, get_all_functions}
use agience.Services.Joined.{get_connection_with_authorizer}
use agience.Services.Connections.{get_connection_by_id}
use agience.Services.Authorizers.{get_authorizer_by_id}

-- The list that two answers give, the second of which is asked for only if the first fails.
pub first_answer : Result Value → Result (List Value) → List Value
first_answer (ok response) _ = array_or_empty response
first_answer (thrown e) (ok functions) = functions
first_answer (thrown e) (thrown e') = []

-- `getExecutiveFunctions` never throws. It returns the executive functions, all functions if the
-- server fails on those, and no function if it fails on both.
pub get_executive_functions-ok :
    (w : World)
    → let asked = send (get_call "/manage/functions/executive") w in
      (get_executive_functions w).0
      ≡ ok (
          first_answer asked.0
            (get_all_functions (log_error "Error fetching executive functions:" asked.1).1).0)
unfolding get_executive_functions first_answer
get_executive_functions-ok w =
    elim (Result-cases (send (get_call "/manage/functions/executive") w).0) [
      | inl (response, answer) ↦ rw answer refl
      | inr (e, answer) ↦
          elim (Result-cases
            (get_all_functions
              (log_error "Error fetching executive functions:"
                (send (get_call "/manage/functions/executive") w).1).1).0) [
                  | inl (functions, fallback) ↦ rw (answer, fallback) refl
                  | inr (e', fallback) ↦ rw (answer, fallback) refl
                ]
    ]

-- A connection with what the server says of its authorizer.
pub completed : Value → Result Value → Value
completed connection (ok authorizer) = spread connection (field "authorizer" authorizer end)
completed connection (thrown e) = connection

-- Once the connection has been fetched, `getConnectionWithAuthorizer` returns it: with its
-- authorizer if it names one that the server finds, and as it is otherwise.
pub get_connection_with_authorizer-ok :
    (id : String) (w : World) (connection authorizer_id : Value)
    → (get_connection_by_id id w).0 ≡ ok connection
    → get "authorizer_id" connection ≡ ok authorizer_id
    → (get_connection_with_authorizer id w).0
      ≡ ok (
          if truthy authorizer_id
          then completed connection
              (get_authorizer_by_id (text authorizer_id) (get_connection_by_id id w).1).0
          else connection)
unfolding get_connection_with_authorizer completed
get_connection_with_authorizer-ok id w connection authorizer_id fetched read =
    elim (Bool-cases (truthy authorizer_id)) [
      | inr absent ↦ rw (fetched, read, absent) refl
      | inl named ↦
          elim (Result-cases
            (get_authorizer_by_id (text authorizer_id) (get_connection_by_id id w).1).0) [
              | inl (a, answer) ↦ rw (fetched, read, named, answer) refl
              | inr (e, answer) ↦ rw (fetched, read, named, answer) refl
            ]
    ]
