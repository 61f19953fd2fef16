-- ===== src/Ui/Connections/FormPage.antt =====
-- authority/manage-ui/src/components/settings/ConnectionForm.tsx
-- What the form shows. Its state and its handlers are in ConnectionForm.
use agience.Base.{String, Bool, Option, none, some, List, [], ◌∷◌, if◌then◌else◌}
use agience.Js.Value.{Value, str, get, get?}
use agience.Js.Same.{is_same}
use agience.Js.Exec.{Result, ok, thrown}
use agience.Html.{
  attr, value, on_submit, Html, ◌&◌, nothing, txt, child, el, each, of_result, of_field, show_where,
}
use agience.Ui.ConnectionForm.{View}
use agience.Ui.Forms.Parts.{error_note, labelled_field, form_buttons}

abbrev choose : Value → Value → Result (Option Value) → Result Value → Result (Option Value)
choose id a rest (ok own) = if is_same own id then ok (some a) else rest
choose id a rest (thrown e) = thrown e

-- `authorizers.find(a => a.id === id)`
unfoldable pub find_same : Value → List Value → Result (Option Value)
unfolding get is_same
find_same id [] = ok none
find_same id (a ∷ authorizers) = choose id a (find_same id authorizers) (get "id" a)

module _ {A : Type 0} where
  unfoldable pub option : Value → Html A
  option authorizer = of_field "id" authorizer λ id.
      el "option" (value id ∷ [])
        (child (get? "name" authorizer) & txt " (" & child (get? "type" authorizer) & txt ")")

  -- What is shown of the authorizer that has been found
  unfoldable pub authorizer_note : Option Value → Html A
  authorizer_note none = nothing
  authorizer_note (some a) = show_where a (
      el "div" [] (
        el "h4" [] (txt "Authorizer Details")
        & el "div" [] (
            el "div" [] (el "span" [] (txt "Type:") & el "span" [] (child (get? "type" a)))
            & el "div" [] (el "span" [] (txt "ID:") & el "span" [] (child (get? "id" a))))))

  unfoldable pub connection_form :
      A → A → (String → Value → A) → Bool → Bool → List Value → View → Html A
  connection_form submit cancel change is_loading is_editing authorizers f =
      of_result (find_same (get? "authorizer_id" f.form_data) authorizers) λ found. el "div" [] (
        el "h3" [] (txt (if is_editing then "Edit Connection" else "Add New Connection"))
        & error_note f.errors
        & el "form" (on_submit submit ∷ []) (
            labelled_field change is_loading f.form_data f.errors "Name" "input" "name"
              (attr "type" "text" ∷ []) nothing
            & labelled_field change is_loading f.form_data f.errors "Description" "textarea"
                "description" (attr "rows" "3" ∷ []) nothing
            & labelled_field change is_loading f.form_data f.errors "Authorizer" "select"
                "authorizer_id" []
                (el "option" (value (str "") ∷ []) (txt "Select an authorizer")
                  & each option authorizers)
            & authorizer_note found
            & form_buttons cancel is_loading (if is_editing then "Saving..." else "Creating...")
                (if is_editing then "Save Changes" else "Create Connection")))
