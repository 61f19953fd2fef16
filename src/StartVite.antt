-- ===== src/StartVite.antt =====
-- authority/manage-ui/start-vite.js: starts the development server unless its port is taken.
-- Node's server and child process are the outcomes that they report.
pub mod Laws
use agience.Base.{ℕ, String, Bool, true, false, List, [], ◌∷◌, ◌++◌, ◌==◌, ◌<>◌, if◌then◌else◌}
use agience.Js.Decimal.{decimal}

abbrev pub port : ℕ
port = 5002

-- Which of its two events a server emits after `listen`; `error` has the code of the error.
pub data Listening : Type 0 where
  listening : Listening
  error : String → Listening

-- How a promise is settled.
pub data Promise : Type 0 where
  resolved : Bool → Promise
  rejected : Promise

-- An event of the child process: its exit with a code, or a failure to start.
pub data ChildEvent : Type 0 where
  exited : ℕ → ChildEvent
  failed : ChildEvent

pub data Action : Type 0 where
  close_server spawn_vite : Action
  log log_error : String → Action
  exit : ℕ → Action

unfoldable pub check_port : Listening → List Action × Promise
check_port (error code) = if code == "EADDRINUSE" then ([], resolved false) else ([], rejected)
check_port listening = (close_server ∷ [], resolved true)

-- The first event of the child ends the process.
unfoldable pub on_child : List ChildEvent → List Action
on_child [] = []
on_child (exited code ∷ _) = exit code ∷ []
on_child (failed ∷ _) = log_error "Error starting Vite:" ∷ exit 1 ∷ []

unfoldable pub start : Promise → List ChildEvent → List Action
unfolding on_child decimal
start (resolved true) events =
    log ("Starting Vite on port " <> decimal port <> "...")
    ∷ spawn_vite
    ∷ log ("Started Vite on port " <> decimal port)
    ∷ on_child events
start (resolved false) events = log ("Vite is already running on port " <> decimal port) ∷ []
start rejected events = log_error "error" ∷ exit 1 ∷ []

unfoldable pub main : Listening → List ChildEvent → List Action
unfolding check_port start
main outcome events = let (before, promise) = check_port outcome in before ++ start promise events
