-- ===== src/Ui/Forms/Function.antt =====
-- authority/manage-ui/src/components/plugins/functions/FunctionForm.tsx
use agience.Base.{String, [], ◌∷◌, List}
use agience.Js.Value.{Value, undefined, str, object}
use agience.Ui.{Ui}
use agience.Ui.Forms.{View, Rule, required, filled, change, submit_checked}

abbrev pub rules : List Rule
rules =
    required "name" filled "Name is required"
    ∷ required "description" filled "Description is required"
    ∷ []

abbrev pub initial : View
initial = record {
  form_data = object (("name", str "") ∷ ("description", str "") ∷ []);
  errors = object [];
}

unfoldable pub handle_change : View → String → Value → Ui View (Unit {0})
unfolding change
handle_change c name value = change undefined c name value

-- `on_submit` is the handler of the parent.
unfoldable pub handle_submit : (Value → Ui View (Unit {0})) → View → Ui View (Unit {0})
unfolding submit_checked
handle_submit on_submit c = submit_checked rules c (on_submit c.form_data)
