-- ===== src/StartVite/Laws.antt =====
-- When the development server is started, and how the script ends.
use agience.Base.{suc, if◌then◌else◌, ℕ, List, [], ◌∷◌, ◌==◌, Option, none, some}
use agience.StartVite.{
  Listening, listening, error, ChildEvent, exited, failed, Action, close_server, spawn_vite, log,
  log_error, exit,
}

-- The status with which the process ends, if it ends by itself.
pub exit_status : List Action → Option ℕ
exit_status [] = none
exit_status (exit code ∷ _) = some code
exit_status (close_server ∷ rest) = exit_status rest
exit_status (spawn_vite ∷ rest) = exit_status rest
exit_status (log _ ∷ rest) = exit_status rest
exit_status (log_error _ ∷ rest) = exit_status rest

pub spawns : List Action → ℕ
spawns [] = 0
spawns (spawn_vite ∷ rest) = suc (spawns rest)
spawns (exit _ ∷ rest) = spawns rest
spawns (close_server ∷ rest) = spawns rest
spawns (log _ ∷ rest) = spawns rest
spawns (log_error _ ∷ rest) = spawns rest

-- What the script should do, from what the port and the child report.
pub expected_status : Listening → List ChildEvent → Option ℕ
expected_status (error code) events = if code == "EADDRINUSE" then none else some 1
expected_status listening [] = none
expected_status listening (exited code ∷ _) = some code
expected_status listening (failed ∷ _) = some 1

pub expected_spawns : Listening → ℕ
expected_spawns (error code) = 0
expected_spawns listening = 1
