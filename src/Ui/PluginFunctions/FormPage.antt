-- ===== src/Ui/PluginFunctions/FormPage.antt =====
-- authority/manage-ui/src/components/plugins/functions/FunctionForm.tsx
-- What the form shows. Its state and its handlers are in Forms/Function.
use agience.Base.{String, Bool, [], ◌∷◌}
use agience.Js.Value.{Value}
use agience.Html.{attr, on_submit, Html, ◌&◌, nothing, txt, el}
use agience.Ui.Forms.{View}
use agience.Ui.Forms.Parts.{error_note, labelled_field, form_buttons}

unfoldable pub function_form : {A : Type 0} → A → A → (String → Value → A) → Bool → View → Html A
function_form submit cancel change is_loading f = el "div" [] (
    el "div" [] (
      el "h3" [] (txt "Add New Function")
      & error_note f.errors
      & el "form" (on_submit submit ∷ []) (
          labelled_field change is_loading f.form_data f.errors "Name" "input" "name"
            (attr "type" "text" ∷ []) nothing
          & labelled_field change is_loading f.form_data f.errors "Description" "textarea"
              "description" (attr "rows" "3" ∷ []) nothing
          & form_buttons cancel is_loading "Creating..." "Create Function")))
