-- ===== src/Services/Functions.antt =====
-- authority/manage-ui/src/services/api/functionService.ts
use agience.Base.{String, List, [], ◌<>◌}
use agience.Js.Value.{Value, array_or_empty}
use agience.Js.Exec.{pure, try_catch, ◌>>=◌, ◌>>◌}
use agience.World.{Io, log_error}
use agience.Client.{send, get_call, logged}

unfoldable pub get_all_functions : Io (List Value)
unfolding ◌>>=◌ logged
get_all_functions =
    logged "Error fetching functions:"
      do response ← send (get_call "/manage/functions"); pure (array_or_empty response)

unfoldable pub get_function_by_id : String → Io Value
unfolding ◌>>=◌ logged
get_function_by_id id =
    logged ("Error fetching function with ID " <> id <> ":")
      (send (get_call ("/manage/function/" <> id)))

-- A failure of the endpoint falls back to all functions, and a failure of those to none.
unfoldable pub get_executive_functions : Io (List Value)
unfolding ◌>>=◌ log_error
get_executive_functions =
    try_catch
      (do response ← send (get_call "/manage/functions/executive"); pure (array_or_empty response))
      (λ error. do
        log_error "Error fetching executive functions:"
        try_catch get_all_functions
            (λ fallback_error. do log_error "Error in fallback fetch of all functions:"; pure []))
