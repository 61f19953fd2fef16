-- ===== src/Ui/Forms/Topic.antt =====
-- authority/manage-ui/src/components/topics/TopicForm.tsx
use agience.Base.{String, [], ◌∷◌, List}
use agience.Js.Value.{Value, str, object, or_else}
use agience.Js.Exec.{try_catch, ◌>>=◌}
use agience.World.{log_error}
use agience.Ui.{Ui, io}
use agience.Ui.Forms.{View, Rule, required, filled, change, submit_checked}

abbrev pub rules : List Rule
rules =
    required "name" filled "Name is required"
    ∷ required "description" filled "Description is required"
    ∷ []

-- `initialData || { name: '', description: '' }`
abbrev pub initial : Value → View
initial initial_data = record {
  form_data = or_else initial_data (object (("name", str "") ∷ ("description", str "") ∷ []));
  errors = object [];
}

unfoldable pub handle_change : View → String → Value → Ui View (Unit {0})
unfolding change
handle_change c name value = change (str "") c name value

-- `on_submit` is the handler of the parent.
unfoldable pub handle_submit : (Value → Ui View (Unit {0})) → View → Ui View (Unit {0})
unfolding submit_checked io log_error ◌>>=◌
handle_submit on_submit c =
    submit_checked rules c
      (try_catch (on_submit c.form_data) (λ e. io (log_error "Error submitting form:")))
