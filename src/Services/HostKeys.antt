-- ===== src/Services/HostKeys.antt =====
-- authority/manage-ui/src/services/api/hostKeyService.ts
use agience.Base.{String, List, [], ◌∷◌, ◌<>◌, if◌then◌else◌}
use agience.Js.Value.{
  Value, bool, str, obj, end, field, get, get?, truthy, object, merge, array_or_empty, own_fields,
}
use agience.Js.Exec.{Result, pure, lift, map_ok, traverse, ◌>>=◌, ◌>>◌}
use agience.World.{Io, log}
use agience.Client.{send, get_call, post_call, put_call, delete_call, logged}

-- snake_case of the API to camelCase of the UI; `isActive` becomes a Boolean.
unfoldable pub to_frontend_key : Value → Result Value
unfolding get get? truthy
to_frontend_key api_key =
    map_ok
      (λ id. object (
        ("id", id)
        ∷ ("name", get? "name" api_key)
        ∷ ("hostId", get? "host_id" api_key)
        ∷ ("isActive", bool (truthy (get? "is_active" api_key)))
        ∷ ("value", get? "value" api_key)
        ∷ ("isEncrypted", get? "is_encrypted" api_key)
        ∷ ("created_date", get? "created_date" api_key)
        ∷ []))
      (get "id" api_key)

-- camelCase to snake_case; `host_id` is there only if it is not empty.
unfoldable pub to_api_request : Value → Value
unfolding get? truthy
to_api_request key_data =
    let host_id = get? "hostId" key_data in
    object (
      ("id", get? "id" key_data)
      ∷ ("name", get? "name" key_data)
      ∷ ("is_active", get? "isActive" key_data)
      ∷ (if truthy host_id then ("host_id", host_id) ∷ [] else []))

unfoldable pub get_keys_for_host : String → Io (List Value)
unfolding ◌>>=◌ logged log traverse
get_keys_for_host host_id = logged ("Error fetching keys for host " <> host_id <> ":") do
  log ("Fetching keys for host ID: " <> host_id)
  let endpoint = "/manage/host/" <> host_id <> "/keys"
  log ("Using API endpoint: " <> endpoint)
  response ← send (get_call endpoint)
  log "Raw keys data:"
  frontend_keys ← lift (traverse to_frontend_key (array_or_empty response))
  log "Converted frontend keys:"
  pure frontend_keys

unfoldable pub generate_body : Value → Result Value
unfolding get get?
generate_body key_data =
    map_ok (λ name. object (("name", name) ∷ ("is_active", get? "isActive" key_data) ∷ []))
      (get "name" key_data)

unfoldable pub generate_key_for_host : String → Value → Io Value
unfolding ◌>>=◌ logged log generate_body
generate_key_for_host host_id key_data =
    logged ("Error generating key for host " <> host_id <> ":") do
      request_data ← lift (generate_body key_data)
      log "Sending key generation request:"
      response ← send (post_call ("/manage/host/" <> host_id <> "/key/generate") request_data)
      log "Key generation response:"
      lift (to_frontend_key response)

-- `{ id: keyId, hostId: hostId, ...keyData }`, converted
unfoldable pub update_body : String → String → Value → Value
unfolding to_api_request merge own_fields
update_body host_id key_id key_data =
    to_api_request (
      obj
        (merge (field "id" (str key_id) (field "hostId" (str host_id) end)) (own_fields key_data)))

unfoldable pub update_key : String → String → Value → Io (Unit {0})
unfolding ◌>>=◌ logged log update_body
update_key host_id key_id key_data =
    logged ("Error updating key " <> key_id <> " for host " <> host_id <> ":") do
      log "Sending key update request:"
      send (
          put_call ("/manage/host/" <> host_id <> "/key/" <> key_id)
            (update_body host_id key_id key_data))
      pure tt

unfoldable pub delete_key : String → String → Io (Unit {0})
unfolding ◌>>=◌ logged
delete_key host_id key_id =
    logged ("Error deleting key " <> key_id <> " for host " <> host_id <> ":")
      do send (delete_call ("/manage/host/" <> host_id <> "/key/" <> key_id)); pure tt

unfoldable pub get_key_by_id : String → String → Io Value
unfolding ◌>>=◌ logged
get_key_by_id host_id key_id =
    logged ("Error fetching key " <> key_id <> " for host " <> host_id <> ":") do
      response ← send (get_call ("/manage/host/" <> host_id <> "/key/" <> key_id))
      lift (to_frontend_key response)
