-- ===== src/Ui/Hosts/Closing.antt =====
-- What becomes of the form of a host when it is submitted.
use agience.Base.{some, false, ◌≡◌, ◌⊎◌, if◌then◌else◌}
use agience.Js.Value.{Value, null}
use agience.Js.Exec.{Exn, Result, ok, thrown}
use agience.World.{World}
use agience.Ui.{Mounted}
use agience.Ui.Hosts.{View}
use agience.Ui.Hosts.Handlers.{submission, save_host, handle_submit}

module _ (c : View) (user : Value) (m : Mounted View) where
  -- Whether the host is saved.
  abbrev saving : Result (Unit {0}) × World
  saving = save_host c (submission c user) m.world

  pub record Closes : Type 0 where
    returns : (handle_submit c user m).0 ≡ ok tt
    idle : (handle_submit c user m).1.view.is_saving ≡ false
    closed : (handle_submit c user m).1.view.is_modal_open ≡ false
    unselected : (handle_submit c user m).1.view.selected_host ≡ null
    message :
        ((saving.0 ≡ ok tt)
          × ((handle_submit c user m).1.view.success_message
              ≡ some (
                  if c.is_editing
                  then "Host updated successfully!"
                  else "Host created successfully!")))
        ⊎ (((e : Exn) × (saving.0 ≡ thrown e))
            × ((handle_submit c user m).1.view.error_message
                ≡ some "Failed to save host. Please try again.")
            × ((handle_submit c user m).1.view.hosts ≡ m.view.hosts))
