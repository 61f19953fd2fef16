-- ===== src/Ui/Common/Dialogs.antt =====
-- The events of the common components, within handlers that satisfy what each event is to satisfy.
use mathlib.Core.List.{Memᴰ}
use agience.Base.{String, Bool, true, false, Option, none, some, List, [], ◌∷◌, ◌≡◌, All}
use agience.Js.Value.{Value}
use agience.Html.{Html, el, each, bubble}
use agience.Html.Events.{Fires, fires_rules, Fires-&, Fires-nothing}
use agience.Ui.{Notification}
use agience.Ui.Common.{
  Accessor, row_attrs, cell, cells, row, confirmation_modal, notification_modal, data_table,
}

module _ {A : Type 0} {P : List A → Type 0} {around : List A} where
  pub confirmation_modal-Fires :
      (is_open : Bool) (on_close on_confirm : A) (title message : Html A)
      (confirm_text cancel_text : String) (is_loading : Bool)
      → P around
      → Fires P around title
      → Fires P around message
      → (is_open ≡ true → is_loading ≡ false → P (on_close ∷ around))
      → (is_open ≡ true → is_loading ≡ false → P (on_confirm ∷ around))
      → Fires P around (
          confirmation_modal is_open on_close on_confirm title message confirm_text cancel_text
            is_loading)
  unfolding confirmation_modal
  confirmation_modal-Fires is_open on_close on_confirm title message confirm_text cancel_text
        is_loading here t m close confirm =
      search fires_rules depth 24

  pub notification_modal-Fires :
      (n : Notification) (on_close : A)
      → P around
      → (n.is_open ≡ true → P (on_close ∷ around))
      → Fires P around (notification_modal n on_close)
  unfolding notification_modal
  notification_modal-Fires n on_close here close = search fires_rules depth 24

module _ {A : Type 0} (P : List A → Type 0) where
  -- The cells of a row stand within the handler of the row, if there is one.
  abbrev CellsFire : List A → List (String × Accessor A) → Value → Type 0
  CellsFire around columns item =
      All (λ (c : String × Accessor A). Fires P around (cell c.1 item)) columns

  cells-Fires :
      (around : List A) (columns : List (String × Accessor A)) (item : Value)
      → P around
      → CellsFire around columns item
      → Fires P around (cells columns item)
  unfolding cells each
  cells-Fires around [] item here h = Fires-nothing
  cells-Fires around (c ∷ columns) item here (h, hs) =
      Fires-& (el "td" [] (cell c.1 item)) (cells columns item) (search fires_rules depth 4)
        (cells-Fires around columns item here hs)

module _ {A : Type 0} {P : List A → Type 0} {around : List A}
    (columns : List (String × Accessor A)) where
  row-Fires :
      (on_row_click : Option (Value → A)) (item : Value)
      → P (bubble (row_attrs on_row_click item) around)
      → CellsFire P (bubble (row_attrs on_row_click item) around) columns item
      → Fires P around (row columns on_row_click item)
  unfolding row
  row-Fires none item here cs = search (fires_rules, cells-Fires) depth 8
  row-Fires (some f) item here cs = search (fires_rules, cells-Fires) depth 8

  pub data_table-Fires :
      (items : List Value) (is_loading : Bool) (empty_message : String)
      (on_row_click : Option (Value → A))
      → P around
      → ((item : Value) → Memᴰ item items → P (bubble (row_attrs on_row_click item) around))
      → ((item : Value)
          → Memᴰ item items
          → CellsFire P (bubble (row_attrs on_row_click item) around) columns item)
      → Fires P around (data_table columns items is_loading empty_message on_row_click)
  unfolding data_table
  data_table-Fires items is_loading empty_message on_row_click here at cs =
      search (fires_rules, row-Fires) depth 24
