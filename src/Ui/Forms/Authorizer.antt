-- ===== src/Ui/Forms/Authorizer.antt =====
-- authority/manage-ui/src/components/settings/AuthorizerForm.tsx
use agience.Base.{String, [], ◌∷◌, List}
use agience.Js.Value.{Value, undefined, str, get?, object, or_else, truthy}
use agience.Js.Exec.{when}
use agience.Ui.{Ui, update}
use agience.Ui.Forms.{View, Rule, required, filled, chosen, change, submit_checked}

abbrev pub rules : List Rule
rules = required "name" filled "Name is required" ∷ required "type" chosen "Type is required" ∷ []

-- `initialData?.name || …` and so on; without initial data that is `undefined`.
abbrev pub initial : Value → View
initial initial_data = record {
  form_data = object (
      ("name", or_else (get? "name" initial_data) (str ""))
      ∷ ("type", or_else (get? "type" initial_data) (str "API Key"))
      ∷ []);
  errors = object [];
}

-- The effect that takes new initial data over as they are.
unfoldable pub on_initial_data : Value → Ui View (Unit {0})
unfolding update truthy get?
on_initial_data initial_data = when (truthy initial_data) (
    update (λ v. record v {
      form_data =
          object (("name", get? "name" initial_data) ∷ ("type", get? "type" initial_data) ∷ []);
    }))

unfoldable pub handle_change : View → String → Value → Ui View (Unit {0})
unfolding change
handle_change c name value = change undefined c name value

-- `on_submit` is the handler of the parent.
unfoldable pub handle_submit : (Value → Ui View (Unit {0})) → View → Ui View (Unit {0})
unfolding submit_checked
handle_submit on_submit c = submit_checked rules c (on_submit c.form_data)
