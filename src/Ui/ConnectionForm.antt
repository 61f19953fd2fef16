-- ===== src/Ui/ConnectionForm.antt =====
-- authority/manage-ui/src/components/settings/ConnectionForm.tsx
pub mod Validation
use agience.Base.{String, Bool, true, false, [], ◌∷◌, ◌++◌, if◌then◌else◌}
use agience.Js.Value.{Value, undefined, str, obj, end, field, get?, truthy, or_else, object, spread}
use agience.Js.Exec.{Result, ok, thrown, pure, lift, when, ◌>>=◌, ◌>>◌}
use agience.Ui.{Ui, update}
use agience.Js.Blank.{lacks_text}

-- The two `useState` cells are objects.
pub record View : Type 0 where
  pub form_data : Value
  pub errors : Value

-- `initialData?.name || ''` and so on; without initial data that is `undefined`.
abbrev pub initial : Value → View
initial initial_data = record {
  form_data = object (
      ("name", or_else (get? "name" initial_data) (str ""))
      ∷ ("description", or_else (get? "description" initial_data) (str ""))
      ∷ ("authorizer_id", or_else (get? "authorizer_id" initial_data) (str ""))
      ∷ []);
  errors = object [];
}

-- The effect that takes new initial data over as they are.
unfoldable pub on_initial_data : Value → Ui View (Unit {0})
unfolding update truthy get?
on_initial_data initial_data = when (truthy initial_data) (
    update (λ v. record v {
      form_data = object (
          ("name", get? "name" initial_data)
          ∷ ("description", get? "description" initial_data)
          ∷ ("authorizer_id", get? "authorizer_id" initial_data)
          ∷ []);
    }))

-- One message for each field that is not filled in, in this order.
abbrev pub messages : Bool → Bool → Bool → Value
messages no_name no_description has_authorizer = object (
    (if no_name then ("name", str "Name is required") ∷ [] else [])
    ++ ((if no_description then ("description", str "Description is required") ∷ [] else [])
        ++ (if has_authorizer then [] else ("authorizer_id", str "Authorizer is required") ∷ [])))

-- The name is trimmed before the description, and either may throw.
abbrev pub collect : Result Bool → Result Bool → Bool → Result Value
collect (thrown e) _ _ = thrown e
collect (ok _) (thrown e) _ = thrown e
collect (ok no_name) (ok no_description) has_authorizer =
    ok (messages no_name no_description has_authorizer)

-- What `validate` finds.
unfoldable pub find_errors : Value → Result Value
find_errors form =
    collect (lacks_text (get? "name" form)) (lacks_text (get? "description" form))
      (truthy (get? "authorizer_id" form))

-- `Object.keys(newErrors).length === 0`
abbrev pub is_empty : Value → Bool
is_empty (obj (field _ _ _)) = false
is_empty _ = true

-- The handlers that a render of the state `c` has made.
module _ (c : View) where
  unfoldable pub handle_change : String → Value → Ui View (Unit {0})
  unfolding update spread truthy get? ◌>>=◌
  handle_change name value = do
    update (λ v. record v { form_data = spread v.form_data (field name value end) })
    when (truthy (get? name c.errors))
        (update (λ v. record v { errors = spread v.errors (field name undefined end) }))

  unfoldable pub validate : Ui View Bool
  unfolding find_errors update ◌>>=◌
  validate = do
    new_errors ← lift (find_errors c.form_data)
    update (λ v. record v { errors = new_errors })
    pure (is_empty new_errors)

  -- `on_submit` is the handler that the tab passes.
  unfoldable pub handle_submit : (Value → Ui View (Unit {0})) → Ui View (Unit {0})
  unfolding validate
  handle_submit on_submit = do is_valid ← validate; when is_valid (on_submit c.form_data)
