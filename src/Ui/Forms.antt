-- ===== src/Ui/Forms.antt =====
-- The forms that check their fields one after another and hand a complete form to their parent:
-- authority/manage-ui/src/components, plugins/PluginForm.tsx, plugins/functions/FunctionForm.tsx,
-- topics/TopicForm.tsx, agents/topics/TopicForm.tsx and settings/AuthorizerForm.tsx. They differ in
-- their fields, in what clears an error, and in what they do with an error of the parent.
pub mod Validation
pub mod Parts
pub mod Plugin
pub mod Function
pub mod Topic
pub mod NewTopic
pub mod Authorizer
use agience.Base.{String, Bool, true, false, not, List, [], ◌∷◌, if◌then◌else◌}
use agience.Js.Value.{Value, str, end, field, get?, truthy, object, spread}
use agience.Js.Exec.{Result, ok, thrown, pure, lift, when, ◌>>=◌, ◌>>◌}
use agience.Ui.{Ui, update}
use agience.Js.Blank.{lacks_text}

-- The two `useState` cells are objects.
pub record View : Type 0 where
  pub form_data : Value
  pub errors : Value

-- `!v.trim()` or `!v`
pub data Test : Type 0 where
  filled chosen : Test

-- `if (…) { newErrors.field = message; }`
pub record Rule : Type 0 where
  pub name : String
  pub message : String
  pub test : Test

abbrev pub required : String → Test → String → Rule
required name test message = record { name = name; message = message; test = test }

-- Whether a field fails its test; a field that has no `trim` throws.
abbrev pub fails : Test → Value → Result Bool
fails filled v = lacks_text v
fails chosen v = ok (not (truthy v))

abbrev pub collect :
    Rule → Result Bool → Result (List (String × Value)) → Result (List (String × Value))
collect r (thrown e) _ = thrown e
collect r (ok b) (thrown e) = thrown e
collect r (ok b) (ok es) = ok (if b then (r.name, str r.message) ∷ es else es)

-- The fields of `newErrors`, in the order of the rules, whose names are distinct.
unfoldable pub find_errors : List Rule → Value → Result (List (String × Value))
find_errors [] form = ok []
find_errors (r ∷ rs) form = collect r (fails r.test (get? r.name form)) (find_errors rs form)

-- `Object.keys(newErrors).length === 0`
abbrev pub is_empty : List (String × Value) → Bool
is_empty [] = true
is_empty (_ ∷ _) = false

-- What the forms share. `cleared` takes the place of the error of a field that is edited.
unfoldable pub change : Value → View → String → Value → Ui View (Unit {0})
unfolding update spread truthy get? ◌>>=◌
change cleared c name value = do
  update (λ v. record v { form_data = spread v.form_data (field name value end) })
  when (truthy (get? name c.errors))
      (update (λ v. record v { errors = spread v.errors (field name cleared end) }))

unfoldable pub validate : List Rule → View → Ui View Bool
unfolding find_errors update ◌>>=◌
validate rules c = do
  new_errors ← lift (find_errors rules c.form_data)
  update (λ v. record v { errors = object new_errors })
  pure (is_empty new_errors)

-- `submit` is what happens to a form without errors.
unfoldable pub submit_checked : List Rule → View → Ui View (Unit {0}) → Ui View (Unit {0})
unfolding validate ◌>>=◌
submit_checked rules c submit = do is_valid ← validate rules c; when is_valid submit
