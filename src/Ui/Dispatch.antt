-- ===== src/Ui/Dispatch.antt =====
-- How an event of the page runs its handlers: React calls them one after another, and what one of
-- them throws does not keep it from the next. Each runs to its end here.
pub mod Sending
pub mod Deletes
use agience.Base.{List, [], ◌∷◌}
use agience.Js.Exec.{pure, try_finally, ◌>>=◌}
use agience.Ui.{Ui}

-- `perform` is what each handler does.
module _ {V A : Type 0} (perform : A → Ui V (Unit {0})) where
  unfoldable pub run_all : List A → Ui V (Unit {0})
  unfolding ◌>>=◌
  run_all [] = pure tt
  run_all (a ∷ rest) = try_finally (perform a) (run_all rest)
