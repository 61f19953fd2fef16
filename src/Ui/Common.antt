-- ===== src/Ui/Common.antt =====
-- What the common components show: authority/manage-ui/src/components/common (Button, Badge, Card,
-- FormField, ConfirmationModal, NotificationModal, DataTable, Table, TabNavigation). Icons, sizes and
-- colours are left out. A callback of the props is an `A`.
pub mod Dialogs
use agience.Base.{
  String, Bool, true, false, not, Option, none, some, ◌&&◌, ◌||◌, List, [], ◌∷◌, ◌++◌, ◌==◌,
  if◌then◌else◌,
}
use agience.Js.Value.{Value, get, text}
use agience.Html.{
  Attr, attr, disabled, marked, on_click, Html, ◌&◌, nothing, txt, child, el, show_if, each,
  of_field,
}
use agience.Ui.{Notification}

abbrev pub is_empty : {B : Type 0} → List B → Bool
is_empty [] = true
is_empty (_ ∷ _) = false

-- `onRowClick ? () => onRowClick(item) : undefined`
abbrev pub row_attrs : {A : Type 0} → Option (Value → A) → Value → List (Attr A)
row_attrs none item = []
row_attrs (some f) item = on_click false (f item) ∷ []

-- `typeof column.accessor === 'function'`
pub data Accessor (A : Type 0) : Type 0 where
  call : (Value → Html A) → Accessor A
  key : String → Accessor A

module _ {A : Type 0} where
  -- The `rest` of the props are attributes of the button.
  unfoldable pub button : Bool → Bool → List (Attr A) → Html A → Html A
  button is_loading is_disabled rest children =
      el "button" (disabled (is_disabled || is_loading) ∷ rest) children

  unfoldable pub badge : Html A → Html A
  badge children = el "span" [] children

  -- `(title || actions) && …`: absent props are empty or `none`, and the title is a text.
  unfoldable pub card : String → Option (Html A) → Html A → Html A
  card title actions children = el "div" [] (
      elim actions [
        | none ↦ show_if (not (title == "")) (el "div" [] (el "div" [] (el "h3" [] (txt title))))
        | some bar ↦ el "div" [] (el "div" [] (el "h3" [] (txt title)) & el "div" [] bar)
      ]
      & el "div" [] children)

  -- An absent error is empty.
  unfoldable pub form_field : String → String → String → Bool → Html A → Html A
  form_field label html_for error required children = el "div" [] (
      el "label" (attr "for" html_for ∷ []) (txt label & show_if required (el "span" [] (txt "*")))
      & children
      & show_if (not (error == "")) (el "p" [] (txt error)))

  unfoldable pub confirmation_modal :
      Bool → A → A → Html A → Html A → String → String → Bool → Html A
  confirmation_modal is_open on_close on_confirm title message confirm_text cancel_text is_loading =
      show_if is_open (
        el "div" [] (
          el "div" [] (
            el "div" [] (
              el "div" [] (
                el "div" [] nothing
                & el "div" [] (el "h3" [] title & el "div" [] (el "p" [] message)))
              & el "div" [] (
                  el "button"
                    (attr "type" "button" ∷ on_click false on_close ∷ disabled is_loading ∷ [])
                    (txt cancel_text)
                  & el "button"
                      (attr "type" "button" ∷ on_click false on_confirm ∷ disabled is_loading ∷ [])
                      (if is_loading
                        then el "span" [] (txt "Processing...")
                        else txt confirm_text))))))

  unfoldable pub notification_modal : Notification → A → Html A
  notification_modal n on_close = show_if n.is_open (
      el "div" [] (
        el "div" [] (
          el "div" [] (
            el "div" [] (
              el "div" [] nothing
              & el "div" [] (el "h3" [] (txt n.title) & el "div" [] (el "p" [] (txt n.message))))
            & el "div" [] (
                el "button" (attr "type" "button" ∷ on_click false on_close ∷ []) (txt "Close"))))))

  unfoldable pub spinner : Html A
  spinner = el "div" [] (el "div" [] nothing)

  unfoldable pub cell : Accessor A → Value → Html A
  unfolding text
  cell (call f) item = f item
  cell (key k) item = of_field k item λ v. txt (text v)

  unfoldable pub cells : List (String × Accessor A) → Value → Html A
  unfolding cell
  cells columns item = each (λ column. el "td" [] (cell column.1 item)) columns

  -- The key of a row is read first, from its field `id`.
  unfoldable pub row : List (String × Accessor A) → Option (Value → A) → Value → Html A
  unfolding cells
  row columns on_row_click item =
      of_field "id" item λ id. el "tr" (row_attrs on_row_click item) (cells columns item)

  unfoldable pub data_table :
      List (String × Accessor A) → List Value → Bool → String → Option (Value → A) → Html A
  unfolding spinner row
  data_table columns items is_loading empty_message on_row_click =
      if is_loading && is_empty items
      then spinner
      else if is_empty items
      then el "div" [] (el "p" [] (txt empty_message))
      else el "div" [] (
          el "div" [] (
            el "table" [] (
              el "thead" [] (
                el "tr" []
                  (each (λ column. el "th" (attr "scope" "col" ∷ []) (txt column.0)) columns))
              & el "tbody" [] (each (row columns on_row_click) items))))

  -- An absent `actions` is `none`.
  abbrev action_head : Option (Value → Html A) → Html A
  action_head none = nothing
  action_head (some f) = el "th" [] (txt "Actions")

  abbrev action_cell : Option (Value → Html A) → Value → Html A
  action_cell none item = nothing
  action_cell (some f) item = el "td" [] (f item)

  unfoldable pub table : List (String × String) → List Value → Option (Value → Html A) → Html A
  table columns items actions = el "div" [] (
      el "table" [] (
        el "thead" []
          (el "tr" [] (each (λ column. el "th" [] (txt column.0)) columns & action_head actions))
        & el "tbody" [] (
            each
              (λ item. el "tr" [] (
                each (λ column. of_field column.1 item λ v. el "td" [] (child v)) columns
                & action_cell actions item))
              items)))

  -- A tab is its id and its label; the active one is marked.
  unfoldable pub tab_navigation : List (String × String) → String → (String → A) → Html A
  tab_navigation tabs active_tab on_tab_change = el "div" [] (
      el "div" [] (
        el "nav" [] (
          each
            (λ tab.
              el "button" (on_click false (on_tab_change tab.0) ∷ marked (active_tab == tab.0) ∷ [])
                (txt tab.1))
            tabs)))
