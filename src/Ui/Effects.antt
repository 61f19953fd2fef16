-- ===== src/Ui/Effects.antt =====
-- What the effects of a component send: no code of its own.
use agience.Base.{String, List, refl}
use agience.World.{Io, Call, emit, set_search}
use agience.Trace.Sends.{Sends, Sends-nothing}
use agience.Ui.{Mounted, update, io}

module _ {V : Type 0} {P : Call → Type 0} where
  pub Sends-update : (f : V → V) → Sends (λ (m : Mounted V). m.world) P (update f)
  unfolding update
  Sends-update f = Sends-nothing λ m. refl

  pub Sends-io :
      {A : Type 0} (p : Io A) → Sends (λ w. w) P p → Sends (λ (m : Mounted V). m.world) P (io p)
  unfolding io
  Sends-io p k = record {
    added = λ m. k.added m.world;
    hold = λ m. k.hold m.world;
    grown = λ m. k.grown m.world;
  }

pub Sends-set_search :
    {P : Call → Type 0} (q : List (String × String)) → Sends (λ w. w) P (emit (set_search q))
unfolding emit
Sends-set_search q = Sends-nothing λ w. refl
