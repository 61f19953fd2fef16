-- ===== src/Ui/Forms/Validation.antt =====
-- What a submission of a form checks: the form is passed on exactly if every rule holds.
use agience.Base.{
  String, Bool, true, false, not, ◌&&◌, List, [], ◌∷◌, ◌≡◌, ◌==◌, All, if◌then◌else◌,
}
use agience.Js.Value.{Value, undefined, str, get?, object}
use agience.Js.Exec.{Result, ok, thrown}
use agience.Ui.{Mounted, Ui}
use agience.Ui.Forms.{View, Rule, fails, submit_checked}

abbrev holds_true : Result Bool → Bool
holds_true (ok b) = b
holds_true (thrown e) = false

-- Whether a field fails, where that can be told.
abbrev pub failing : Value → Rule → Bool
failing form r = holds_true (fails r.test (get? r.name form))

-- The test of the rule does not throw.
abbrev pub IsReadable : Value → Rule → Type 0
IsReadable form r = fails r.test (get? r.name form) ≡ ok (failing form r)

abbrev pub Distinct : List Rule → Type 0
Distinct [] = Unit
Distinct (r ∷ rs) = All (λ s. (r.name == s.name) ≡ false) rs × Distinct rs

abbrev pub all_hold : Value → List Rule → Bool
all_hold form [] = true
all_hold form (r ∷ rs) = not (failing form r) && all_hold form rs

found : Value → List Rule → List (String × Value)
found form [] = []
found form (r ∷ rs) =
    let rest = found form rs in if failing form r then (r.name, str r.message) ∷ rest else rest

abbrev pub error_of : Value → Rule → Value
error_of form r = if failing form r then str r.message else undefined

module _ (rules : List Rule) (c : View) (submit : Ui View (Unit {0})) (m : Mounted View) where
  -- The parent gets the form, with no error on show.
  pub record Submits : Type 0 where
    run :
        submit_checked rules c submit m
        ≡ submit (record m { view = record m.view { errors = object [] } })

  -- The parent does not get the form, and each field that fails its rule, and no other, has its
  -- error.
  pub record Refuses : Type 0 where
    returns : (submit_checked rules c submit m).0 ≡ ok tt
    world : (submit_checked rules c submit m).1.world ≡ m.world
    form : (submit_checked rules c submit m).1.view.form_data ≡ m.view.form_data
    errors :
        All
          (λ r.
            get? r.name (submit_checked rules c submit m).1.view.errors ≡ error_of c.form_data r)
          rules

  abbrev pub Outcome : Bool → Type 0
  Outcome true = Submits
  Outcome false = Refuses
