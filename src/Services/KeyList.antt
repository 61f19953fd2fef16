-- ===== src/Services/KeyList.antt =====
-- The list of a host's keys, as `getKeysForHost` converts it.
use agience.Base.{String, map, List, ◌∷◌, ◌<>◌, ◌≡◌, arith, inl, inr}
use agience.Js.Value.{Value, array_or_empty}
use agience.Js.Exec.{ok, Result-cases}
use agience.World.{World, log}
use agience.Client.{get_call, send}
use agience.Trace.{sent}
use agience.Services.HostKeys.{get_keys_for_host, to_frontend_key}
use agience.Services.KeyConversion.{converted, to_frontend_key-eq}
use agience.Services.Joining.{traverse-eq-map}
use agience.Services.Calls.{sent-get_keys_for_host}

-- The world in which the keys are asked for, after two lines on the console.
abbrev announced : String → World → World
announced host_id w =
    (log ("Using API endpoint: " <> "/manage/host/" <> host_id <> "/keys")
      (log ("Fetching keys for host ID: " <> host_id) w).1).1

pub record KeysFetched (host_id : String) (w : World) (keys : List Value) : Type 0 where
  response : Value
  answer :
      (send (get_call ("/manage/host/" <> host_id <> "/keys")) (announced host_id w)).0
      ≡ ok response
  result : keys ≡ map converted (array_or_empty response)
  requests :
      sent (get_keys_for_host host_id w).1
      ≡ get_call ("/manage/host/" <> host_id <> "/keys") ∷ sent w

-- When `getKeysForHost` returns, it has sent one request, and its result is the list of the keys
-- that the server answered with, in their order and each converted for the UI, or no key if the
-- answer is not an array.
pub get_keys_for_host-KeysFetched :
    (host_id : String) (w : World) (keys : List Value)
    → (get_keys_for_host host_id w).0 ≡ ok keys
    → KeysFetched host_id w keys
unfolding get_keys_for_host
get_keys_for_host-KeysFetched host_id w keys h =
    elim (Result-cases
      (send (get_call ("/manage/host/" <> host_id <> "/keys")) (announced host_id w)).0) [
        | inr (e, failed) ↦ absurd (ground (arith, failed))
        | inl (response, answer) ↦ record {
          response = response;
          answer = answer;
          result =
              traverse-eq-map to_frontend_key converted to_frontend_key-eq (array_or_empty response)
                keys (ground (arith, answer));
          requests = sent-get_keys_for_host host_id w;
        }
      ]
