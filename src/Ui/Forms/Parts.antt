-- ===== src/Ui/Forms/Parts.antt =====
-- What the forms of a function, a connection and an authorizer have in common:
-- authority/manage-ui/src/components/plugins/functions/FunctionForm.tsx,
-- settings/ConnectionForm.tsx and settings/AuthorizerForm.tsx.
use agience.Base.{String, Bool, false, List, [], ◌∷◌, ◌||◌, if◌then◌else◌}
use agience.Js.Value.{Value, Fields, obj, end, field, get?, truthy}
use agience.Html.{
  Attr, attr, value, disabled, on_click, on_change, Html, ◌&◌, txt, child, el, show_if, show_where,
}

unfoldable pub any_field : Fields → Bool
unfolding truthy
any_field end = false
any_field (field name v fs) = truthy v || any_field fs

-- `Object.values(errors).some(error => error)`, for the object that the form keeps
unfoldable pub has_error : Value → Bool
unfolding any_field
has_error (obj fs) = any_field fs
has_error v = false

module _ {A : Type 0} where
  unfoldable pub error_note : Value → Html A
  error_note errors = show_if (has_error errors) (el "div" [] (txt "Please fix the errors below."))

  -- A field with its label and the error beside that
  unfoldable pub labelled_field :
      (String → Value → A)
      → Bool
      → Value
      → Value
      → String
      → String
      → String
      → List (Attr A)
      → Html A
      → Html A
  labelled_field change is_loading form_data errors label tag name attrs options = el "div" [] (
      el "label" []
        (txt label & show_where (get? name errors) (el "span" [] (child (get? name errors))))
      & el tag
          (disabled is_loading
            ∷ attr "id" name
            ∷ attr "name" name
            ∷ value (get? name form_data)
            ∷ on_change (change name)
            ∷ attr "required" ""
            ∷ attrs)
          options)

  unfoldable pub form_buttons : A → Bool → String → String → Html A
  form_buttons cancel is_loading busy idle = el "div" [] (
      el "button" (disabled is_loading ∷ attr "type" "button" ∷ on_click false cancel ∷ [])
        (txt "Cancel")
      & el "button" (disabled is_loading ∷ attr "type" "submit" ∷ [])
          (if is_loading then el "span" [] (txt busy) else txt idle))
