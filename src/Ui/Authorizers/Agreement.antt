-- ===== src/Ui/Authorizers/Agreement.antt =====
-- The settings know whether there are authorizers: what the page was last told is what the tab shows.
use agience.Base.{String, List, Bool, true, false, ◌≡◌, refl, inl, inr, arith}
use agience.Js.Value.{Value}
use agience.Ui.{Mounted, Ui, Query}
use agience.World.{World}
use agience.Js.Exec.{Result, ok, thrown, Result-cases}
use agience.Services.Authorizers.{get_all_authorizers}
use agience.Ui.Keeps.{Keeps, keeps_rules}
use agience.Ui.Authorizers.{
  View, has_any, fetch_authorizers, fetch_authorizer_details, open_tab, on_page, on_selection,
  close_notification, show_delete_confirmation, close_confirmation, handle_select_authorizer,
  handle_add_authorizer, handle_edit_authorizer, handle_close_form, initial, set_loading,
  select_authorizer, show_notification, select_id,
}
use agience.Ui.Authorizers.Handlers.{handle_save_authorizer, handle_confirm_delete, save_authorizer}
use agience.Pages.Settings
use agience.Pages.Settings.{handle_tab_change}

-- What the page knows of the list of the tab: all there is to know, or, where the list may have been
-- lost with an earlier tab, that there are authorizers if it shows some.
abbrev pub Agreed : Bool → Bool → Bool → Type 0
Agreed true told any = told ≡ any
Agreed false told any = any ≡ true → told ≡ true

abbrev pub Knows : Bool → View → Type 0
Knows b v = Agreed b v.page.has_authorizers (has_any v.authorizers)

-- The programs of a tab that is shown, and the clicks on the tabs of the page. A handler may come
-- from the render of any state.
pub data Operation : Ui View (Unit {0}) → Type 0 where
  selection : (c : View) → Operation (on_selection c)
  notice : Operation close_notification
  ask : (authorizer : Value) → Operation (show_delete_confirmation authorizer)
  cancel : Operation close_confirmation
  pick : (id : String) → Operation (handle_select_authorizer id)
  add : Operation handle_add_authorizer
  edit : (c : View) → Operation (handle_edit_authorizer c)
  close : Operation handle_close_form
  save : (c : View) (form : Value) → Operation (handle_save_authorizer c form)
  confirm : (c : View) → Operation (handle_confirm_delete c)
  tab : (c : Settings.View) (t : String) → Operation (on_page (handle_tab_change c t))

same-Agreed : (b c : Bool) → Agreed b c c
same-Agreed true c = refl
same-Agreed false c = λ e. e

module _ (b : Bool) where
  fetch_authorizers-Keeps : Keeps (Knows b) fetch_authorizers
  unfolding fetch_authorizers
  fetch_authorizers-Keeps = record {
    keep = λ s p. elim (Result-cases (get_all_authorizers s.world).0) [
      | inl (data', fetched) ↦ rw fetched (same-Agreed b (has_any data'))
      | inr (e, failed) ↦ rw failed p
    ];
  }

  fetch_authorizer_details-Keeps : (id : String) → Keeps (Knows b) (fetch_authorizer_details id)
  unfolding fetch_authorizer_details set_loading select_authorizer show_notification
  fetch_authorizer_details-Keeps id = search keeps_rules depth 9

  handle_close_form-Keeps : Keeps (Knows b) handle_close_form
  unfolding handle_close_form
  handle_close_form-Keeps = search keeps_rules depth 9

  save_authorizer-Keeps : (c : View) (form : Value) → Keeps (Knows b) (save_authorizer c form)
  unfolding save_authorizer select_id show_notification
  save_authorizer-Keeps c form = search keeps_rules depth 9

  handle_save_authorizer-Keeps :
      (c : View) (form : Value) → Keeps (Knows b) (handle_save_authorizer c form)
  unfolding handle_save_authorizer set_loading show_notification
  handle_save_authorizer-Keeps c form =
      search
        (
          keeps_rules, fetch_authorizers-Keeps, fetch_authorizer_details-Keeps,
          handle_close_form-Keeps, save_authorizer-Keeps,
        )
        depth 9

  handle_confirm_delete-Keeps : (c : View) → Keeps (Knows b) (handle_confirm_delete c)
  unfolding handle_confirm_delete set_loading show_notification select_id select_authorizer
      close_confirmation
  handle_confirm_delete-Keeps c = search (keeps_rules, fetch_authorizers-Keeps) depth 12

  Operation-Keeps : (m : Ui View (Unit {0})) → Operation m → Keeps (Knows b) m
  unfolding on_page handle_tab_change on_selection close_notification show_delete_confirmation
      close_confirmation handle_select_authorizer handle_add_authorizer handle_edit_authorizer
      select_id select_authorizer
  Operation-Keeps m (selection c) = search (keeps_rules, fetch_authorizer_details-Keeps) depth 9
  Operation-Keeps m notice = search keeps_rules depth 9
  Operation-Keeps m (ask authorizer) = search keeps_rules depth 9
  Operation-Keeps m cancel = search keeps_rules depth 9
  Operation-Keeps m (pick id) = search keeps_rules depth 9
  Operation-Keeps m add = search keeps_rules depth 9
  Operation-Keeps m (edit c) = search keeps_rules depth 9
  Operation-Keeps m close = handle_close_form-Keeps
  Operation-Keeps m (save c form) = handle_save_authorizer-Keeps c form
  Operation-Keeps m (confirm c) = handle_confirm_delete-Keeps c
  Operation-Keeps m (tab c t) = record { keep = λ s p. p }

-- Whether a request has been answered.
abbrev pub is_answered : Result (List Value) → Bool
is_answered (ok _) = true
is_answered (thrown _) = false

open_tab-Knows :
    (m : Mounted View)
    → Knows (is_answered (get_all_authorizers m.world).0) (open_tab m.view m).1.view
unfolding open_tab fetch_authorizers
open_tab-Knows m = elim (Result-cases (get_all_authorizers m.world).0) [
  | inl (data', fetched) ↦ rw fetched refl
  | inr (e, failed) ↦ rw failed (λ some. absurd (ground (arith, some)))
]

-- The states of the tab and its page after these programs have run and the tab has been opened,
-- once or again. The flag holds whether the list could be fetched when it was last opened.
pub data Reach (m : Mounted View) : Bool → Mounted View → Type 0 where
  here : Reach m false m
  opening :
      {b : Bool} {n : Mounted View}
      → Reach m b n
      → Reach m (is_answered (get_all_authorizers n.world).0) (open_tab n.view n).1
  next :
      {b : Bool} {n : Mounted View} {p : Ui View (Unit {0})}
      → Reach m b n
      → Operation p
      → Reach m b (p n).1

-- Wherever the settings have been opened, after the tab of the authorizers has been opened any
-- number of times, each time as a new component, and any programs of the tab and clicks on the tabs
-- of the page have run, whatever the server has answered: the page holds that there are authorizers
-- if the list of the tab is not empty. If the list could be fetched when the tab was last opened,
-- it holds so just where the list is not empty.
pub Reach-Knows :
    (q : Query) (w : World) (b : Bool) (n : Mounted View)
    → Reach (record { view = initial (Settings.initial q); world = w }) b n
    → Knows b n.view
Reach-Knows q w b n here = λ some. absurd (ground (arith, some))
Reach-Knows q w b n (opening {n = k} r) = open_tab-Knows k
Reach-Knows q w b n (next {n = k} {p = p} r o) =
    (Operation-Keeps b p o).keep k (Reach-Knows q w b k r)
