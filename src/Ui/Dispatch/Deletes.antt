-- ===== src/Ui/Dispatch/Deletes.antt =====
-- DELETE requests that a dialog has to confirm. No code of its own.
use agience.Base.{String, Bool, true, false, ◌≡◌, ◌≢◌}
use agience.Js.Value.{Value}
use agience.World.{Call, http_delete}
use agience.Client.{get_call, post_call, put_call}
use agience.Trace.Sends.{sends_rules}
use agience.Ui.Effects.{Sends-update, Sends-io, Sends-set_search}

-- A call is no DELETE, or it is the one that the dialog is about, which is open while nothing is
-- loading.
pub data Permitted (is_open is_loading : Bool) (asked : Call) (call : Call) : Type 0 where
  other : call.method ≢ http_delete → Permitted is_open is_loading asked call
  confirmed :
      is_open ≡ true → is_loading ≡ false → call ≡ asked → Permitted is_open is_loading asked call

module _ {is_open is_loading : Bool} {asked : Call} where
  pub get_call-Permitted : (url : String) → Permitted is_open is_loading asked (get_call url)
  get_call-Permitted url = other (λ e. cc)

  pub post_call-Permitted :
      (url : String) (body : Value) → Permitted is_open is_loading asked (post_call url body)
  post_call-Permitted url body = other (λ e. cc)

  pub put_call-Permitted :
      (url : String) (body : Value) → Permitted is_open is_loading asked (put_call url body)
  put_call-Permitted url body = other (λ e. cc)

pub ruleset permitted_rules = (
  sends_rules, Sends-update, Sends-io, Sends-set_search, get_call-Permitted, post_call-Permitted,
  put_call-Permitted,
)
