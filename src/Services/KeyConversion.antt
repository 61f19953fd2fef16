-- ===== src/Services/KeyConversion.antt =====
-- The two conversions of a host's key, and what `updateKey` sends.
use agience.Base.{String, [], ◌∷◌, ◌≡◌, refl, if◌then◌else◌, Bool-cases, inl, inr}
use agience.Js.Value.{Value, undefined, null, bool, object, get?, truthy}
use agience.Js.Exec.{ok}
use agience.Services.HostKeys.{to_frontend_key, update_body}

-- A key of the API, converted for the UI and back into an update, keeps its id, its name, its
-- host unless that is empty, and its state as a Boolean.
pub record KeepsKey (api_key sent : Value) : Type 0 where
  id : get? "id" sent ≡ get? "id" api_key
  name : get? "name" sent ≡ get? "name" api_key
  host :
      get? "host_id" sent
      ≡ (if truthy (get? "host_id" api_key) then get? "host_id" api_key else undefined)
  active : get? "is_active" sent ≡ bool (truthy (get? "is_active" api_key))

abbrev pub converted : Value → Value
converted k = object (
    ("id", get? "id" k)
    ∷ ("name", get? "name" k)
    ∷ ("hostId", get? "host_id" k)
    ∷ ("isActive", bool (truthy (get? "is_active" k)))
    ∷ ("value", get? "value" k)
    ∷ ("isEncrypted", get? "is_encrypted" k)
    ∷ ("created_date", get? "created_date" k)
    ∷ [])

pub to_frontend_key-eq :
    (api_key key : Value) → to_frontend_key api_key ≡ ok key → key ≡ converted api_key
unfolding to_frontend_key
to_frontend_key-eq undefined key h = cc
to_frontend_key-eq null key h = cc
to_frontend_key-eq k key h = cc

converted-KeepsKey :
    (host_id key_id : String) (k : Value) → KeepsKey k (update_body host_id key_id (converted k))
unfolding update_body
converted-KeepsKey host_id key_id k = elim (Bool-cases (truthy (get? "host_id" k))) [
  | inl filled ↦ record { id = refl; name = refl; host = rw filled; active = refl }
  | inr empty ↦ record { id = refl; name = refl; host = rw empty; active = refl }
]

-- When `toFrontendKey` converts a key of the API, an update with the converted key sends that key's
-- own id, name and state as a Boolean, whatever ids the call names, and its host unless that is
-- empty.
pub update_body-to_frontend_key :
    (host_id key_id : String) (api_key key : Value)
    → to_frontend_key api_key ≡ ok key
    → KeepsKey api_key (update_body host_id key_id key)
update_body-to_frontend_key host_id key_id api_key key h =
    rw (to_frontend_key-eq api_key key h) (converted-KeepsKey host_id key_id api_key)
