-- ===== src/Ui/TopicDetails/FormPage.antt =====
-- authority/manage-ui/src/components/topics/TopicForm.tsx
-- What the form shows. Its state and its handlers are in Forms/Topic.
use agience.Base.{String, Bool, false, none, List, [], ◌∷◌, if◌then◌else◌}
use agience.Js.Value.{Value, get?, truthy}
use agience.Html.{
  Attr, attr, value, marked, disabled, on_click, on_change, on_submit, Html, ◌&◌, nothing, txt,
  child, el, show_where,
}
use agience.Ui.Common.{card}
use agience.Ui.Forms.{View}

module _ {A : Type 0} (on_submit' on_cancel : A) (on_change' : String → Value → A)
    (is_loading : Bool) (f : View) where
  -- A field with its label and its error; a field with an error is marked.
  unfoldable pub labelled_field : String → String → String → List (Attr A) → Html A
  labelled_field label tag name attrs = el "div" [] (
      el "label" (attr "for" name ∷ []) (txt label & el "span" [] (txt "*"))
      & el tag
          (disabled is_loading
            ∷ attr "id" name
            ∷ attr "name" name
            ∷ value (get? name f.form_data)
            ∷ on_change (on_change' name)
            ∷ marked (truthy (get? name f.errors))
            ∷ attrs)
          nothing
      & show_where (get? name f.errors) (el "p" [] (child (get? name f.errors))))

  -- `initial_data` is the prop, which is in the state of a form that has just been mounted.
  unfoldable pub topic_form : Value → Html A
  topic_form initial_data =
      card (if truthy initial_data then "Edit Topic" else "Create New Topic") none (
        el "form" (on_submit on_submit' ∷ []) (
          labelled_field "Name" "input" "name" (attr "type" "text" ∷ [])
          & labelled_field "Description" "textarea" "description" (attr "rows" "4" ∷ [])
          & el "div" [] (
              el "button"
                (disabled is_loading ∷ attr "type" "button" ∷ on_click false on_cancel ∷ [])
                (txt "Cancel")
              & el "button" (disabled is_loading ∷ attr "type" "submit" ∷ [])
                  (if is_loading then el "span" [] (txt "Saving...") else txt "Save"))))
