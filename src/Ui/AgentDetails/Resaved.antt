-- ===== src/Ui/AgentDetails/Resaved.antt =====
-- What a save sends of an agent that has been fetched and not edited.
use agience.Base.{String, ◌≡◌, refl, ap, sym, ◌∙◌, [], ◌∷◌}
use agience.Js.Value.{Value, null, undefined, obj, Fields, get, get?, or_else, truthy, object}
use agience.Js.Exec.{ok, Result}
use agience.Services.Agents.{update_body}
use agience.Ui.AgentDetails.{form_of}

module _ (id : String) (agent form : Value) where
  pub record Resent : Type 0 where
    name : get? "name" (update_body id form) ≡ get? "name" agent
    description : get? "description" (update_body id form) ≡ get? "description" agent
    persona : get? "persona" (update_body id form) ≡ or_else (get? "persona" agent) null
    enabled : get? "is_enabled" (update_body id form) ≡ get? "is_enabled" agent
    host : get? "hostId" agent ≡ undefined → get? "host_id" (update_body id form) ≡ null
    executive :
        get? "executiveFunctionId" agent ≡ undefined
        → get? "executive_function_id" (update_body id form) ≡ null

ok-injective : (v w : Value) → ok v ≡ ok w → v ≡ w
ok-injective v w e = ap value e
  where
    value : Result Value → Value
    value (ok x) = x
    value _ = v

module _ (id : String) (fs : Fields) where
  form : Value
  form = object (
      ("name", get? "name" (obj fs))
      ∷ ("description", get? "description" (obj fs))
      ∷ ("persona", get? "persona" (obj fs))
      ∷ ("hostId", or_else (get? "hostId" (obj fs)) null)
      ∷ ("executiveFunctionId", get? "executiveFunctionId" (obj fs))
      ∷ ("is_enabled", get? "is_enabled" (obj fs))
      ∷ [])

  form_of-eq : form_of (obj fs) ≡ ok form
  unfolding form_of form get get?
  form_of-eq = refl

  resent : Resent id (obj fs) form
  unfolding form update_body get? truthy
  resent = record {
    name = refl;
    description = refl;
    persona = refl;
    enabled = refl;
    host = λ absent. rw absent refl;
    executive = λ absent. rw absent refl;
  }

-- The body that saves an agent as it was fetched has its name, its description, its persona, or
-- `null` for an empty one, and whether it is enabled. But where the fetched agent has no field
-- `hostId`, the body has `null` for `host_id`, and where it has no `executiveFunctionId`, `null`
-- for `executive_function_id`.
pub update_body-form_of :
    (id : String) (fs : Fields) (shown : Value)
    → form_of (obj fs) ≡ ok shown
    → Resent id (obj fs) shown
update_body-form_of id fs shown h =
    rw (sym (ok-injective (form id fs) shown (sym (form_of-eq id fs) ∙ h))) (resent id fs)
