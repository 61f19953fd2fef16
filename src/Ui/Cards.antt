-- ===== src/Ui/Cards.antt =====
-- The cards of what is assigned to something and what can be: authority/manage-ui/src/components/
-- agents/plugins/PluginCard.tsx and agents/topics/TopicCard.tsx, and the sections that hold them in the
-- tabs. `date_text` is what `new Date(v).toLocaleDateString()` gives.
use agience.Base.{String, Bool, false, List, [], ◌∷◌, ◌<>◌, length, if◌then◌else◌}
use agience.Js.Value.{Value, get?}
use agience.Js.Decimal.{decimal}
use agience.Html.{on_click, marked, Html, ◌&◌, txt, child, el, show_if, each, of_field, show_where}
use agience.Ui.Common.{is_empty}

module _ {A : Type 0} where
  -- A heading with the number of the items, and the items or a note that there are none.
  unfoldable pub card_section : String → String → (Value → Html A) → List Value → Html A
  card_section heading none_left card items = el "div" [] (
      el "h3" [] (txt (heading <> " (" <> decimal (length items) <> ")"))
      & el "div" []
          (each card items & show_if (is_empty items) (el "div" [] (el "p" [] (txt none_left)))))

  -- The text of the button is marked as one that removes.
  unfoldable pub toggle_button : Bool → A → Html A
  toggle_button is_assigned toggle = el "div" [] (
      el "button" (on_click false toggle ∷ marked is_assigned ∷ [])
        (txt (if is_assigned then "Remove" else "Add")))

  unfoldable pub plugin_card : (Value → A) → Bool → Value → Html A
  unfolding toggle_button
  plugin_card on_toggle is_assigned plugin = of_field "id" plugin λ id. el "div" [] (
      el "div" [] (
        el "div" [] (
          el "h3" [] (child (get? "name" plugin))
          & el "p" [] (child (get? "description" plugin))
          & el "div" [] (el "span" [] (child (get? "provider" plugin))))
        & toggle_button is_assigned (on_toggle id)))

  unfoldable pub topic_card : (Value → String) → (Value → A) → Bool → Value → Html A
  unfolding toggle_button
  topic_card date_text on_toggle is_assigned topic = of_field "id" topic λ id. el "div" [] (
      el "div" [] (
        el "div" [] (
          el "h3" [] (child (get? "name" topic))
          & el "p" [] (child (get? "description" topic))
          & show_where (get? "created_date" topic)
              (el "p" [] (txt "Created: " & txt (date_text (get? "created_date" topic)))))
        & toggle_button is_assigned (on_toggle id)))
