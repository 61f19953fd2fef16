-- ===== src/Services/Login.antt =====
-- authority/manage-ui/src/services/endpoints/authService.ts

use agience.Js.Value.{Value, undefined}
use agience.Js.Exec.{pure, ◌>>=◌, ◌>>◌}
use agience.World.{Io}
use agience.Client.{send, post_call}
use agience.World.{emit, remove_item}

unfoldable pub login : Value → Io Value
unfolding ◌>>=◌
login credentials = do response ← send (post_call "/auth/login" credentials); pure response

unfoldable pub logout : Io (Unit {0})
unfolding ◌>>=◌ emit
logout = do send (post_call "/auth/logout" undefined); emit (remove_item "token")
