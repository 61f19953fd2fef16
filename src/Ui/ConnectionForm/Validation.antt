-- ===== src/Ui/ConnectionForm/Validation.antt =====
-- What a submission of the form checks.
use agience.Base.{String, Bool, true, false, not, ◌&&◌, ◌≡◌, refl, if◌then◌else◌}
use agience.Js.Value.{Value, undefined, str, obj, end, get?, truthy}
use agience.Js.Blank.{is_blank, lacks_text}
use agience.Js.Exec.{ok}
use agience.Ui.{Mounted, Ui}
use agience.Ui.ConnectionForm.{View, messages, is_empty, find_errors, handle_submit}

module _ (c : View) (on_submit : Value → Ui View (Unit {0})) (m : Mounted View)
    (name description : String) where
  abbrev pub is_complete : Bool
  is_complete =
      not (is_blank name) && not (is_blank description) && truthy (get? "authorizer_id" c.form_data)

  -- The form goes to the tab, with no error on show.
  pub record Submits : Type 0 where
    run :
        handle_submit c on_submit m
        ≡ on_submit c.form_data (record m { view = record m.view { errors = obj end } })

  -- The form does not go to the tab, and each field that lacks something has its error.
  pub record Refuses : Type 0 where
    returns : (handle_submit c on_submit m).0 ≡ ok tt
    world : (handle_submit c on_submit m).1.world ≡ m.world
    form : (handle_submit c on_submit m).1.view.form_data ≡ m.view.form_data
    name_error :
        get? "name" (handle_submit c on_submit m).1.view.errors
        ≡ (if is_blank name then str "Name is required" else undefined)
    description_error :
        get? "description" (handle_submit c on_submit m).1.view.errors
        ≡ (if is_blank description then str "Description is required" else undefined)
    authorizer_error : get? "authorizer_id" (handle_submit c on_submit m).1.view.errors ≡ (
        if truthy (get? "authorizer_id" c.form_data)
        then undefined
        else str "Authorizer is required")

  abbrev pub Outcome : Bool → Type 0
  Outcome true = Submits
  Outcome false = Refuses

  errors_found :
      get? "name" c.form_data ≡ str name
      → get? "description" c.form_data ≡ str description
      → find_errors c.form_data
        ≡ ok (
            messages
              (is_blank name)
              (is_blank description)
              (truthy (get? "authorizer_id" c.form_data)))
  unfolding find_errors lacks_text
  errors_found n d = rw (n, d) refl

  refuses :
      (es : Value)
      → find_errors c.form_data ≡ ok es
      → is_empty es ≡ false
      → get? "name" es ≡ (if is_blank name then str "Name is required" else undefined)
      → get? "description" es
        ≡ (if is_blank description then str "Description is required" else undefined)
      → get? "authorizer_id" es ≡ (
          if truthy (get? "authorizer_id" c.form_data)
          then undefined
          else str "Authorizer is required")
      → Refuses
  unfolding handle_submit
  refuses es f filled name_error description_error authorizer_error = record {
    returns = rw (f, filled) refl;
    world = rw (f, filled) refl;
    form = rw (f, filled) refl;
    name_error = rw (f, filled) name_error;
    description_error = rw (f, filled) description_error;
    authorizer_error = rw (f, filled) authorizer_error;
  }

  Outcome-of_errors :
      (no_name no_description has_authorizer : Bool)
      → is_blank name ≡ no_name
      → is_blank description ≡ no_description
      → truthy (get? "authorizer_id" c.form_data) ≡ has_authorizer
      → find_errors c.form_data ≡ ok (messages no_name no_description has_authorizer)
      → Outcome (not no_name && not no_description && has_authorizer)
  unfolding handle_submit get?
  Outcome-of_errors false false true a b h f = record { run = rw f refl }
  Outcome-of_errors false false false a b h f = refuses _ f refl (rw a refl) (rw b refl) (rw h refl)
  Outcome-of_errors false true false a b h f = refuses _ f refl (rw a refl) (rw b refl) (rw h refl)
  Outcome-of_errors false true true a b h f = refuses _ f refl (rw a refl) (rw b refl) (rw h refl)
  Outcome-of_errors true false false a b h f = refuses _ f refl (rw a refl) (rw b refl) (rw h refl)
  Outcome-of_errors true false true a b h f = refuses _ f refl (rw a refl) (rw b refl) (rw h refl)
  Outcome-of_errors true true false a b h f = refuses _ f refl (rw a refl) (rw b refl) (rw h refl)
  Outcome-of_errors true true true a b h f = refuses _ f refl (rw a refl) (rw b refl) (rw h refl)

  -- Where the form has a text for its name and one for its description, submitting it passes it on
  -- if neither is blank and an authorizer is chosen. Otherwise it sends nothing, keeps the form,
  -- and shows an error for exactly the fields that are not filled in.
  pub handle_submit-Outcome :
      get? "name" c.form_data ≡ str name
      → get? "description" c.form_data ≡ str description
      → Outcome is_complete
  handle_submit-Outcome n d =
      Outcome-of_errors (is_blank name) (is_blank description)
        (truthy (get? "authorizer_id" c.form_data)) refl refl refl (errors_found n d)
