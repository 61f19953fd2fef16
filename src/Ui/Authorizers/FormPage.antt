-- ===== src/Ui/Authorizers/FormPage.antt =====
-- authority/manage-ui/src/components/settings/AuthorizerForm.tsx
-- What the form shows. Its state and its handlers are in Forms/Authorizer.
use agience.Base.{String, Bool, [], ◌∷◌, if◌then◌else◌}
use agience.Js.Value.{Value, str}
use agience.Html.{attr, value, on_submit, Html, ◌&◌, nothing, txt, el}
use agience.Ui.Forms.{View}
use agience.Ui.Forms.Parts.{error_note, labelled_field, form_buttons}

unfoldable pub type_option : {A : Type 0} → String → Html A
type_option name = el "option" (value (str name) ∷ []) (txt name)

unfoldable pub authorizer_form :
    {A : Type 0} → A → A → (String → Value → A) → Bool → Bool → View → Html A
authorizer_form submit cancel change is_loading is_editing f = el "div" [] (
    el "h3" [] (txt (if is_editing then "Edit Authorizer" else "Add New Authorizer"))
    & error_note f.errors
    & el "form" (on_submit submit ∷ []) (
        labelled_field change is_loading f.form_data f.errors "Name" "input" "name"
          (attr "type" "text" ∷ []) nothing
        & labelled_field change is_loading f.form_data f.errors "Authorizer Type" "select" "type" []
            (type_option "API Key" & type_option "Public" & type_option "OAuth")
        & form_buttons cancel is_loading (if is_editing then "Saving..." else "Creating...")
            (if is_editing then "Save Changes" else "Create Authorizer")))
