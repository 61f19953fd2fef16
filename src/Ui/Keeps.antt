-- ===== src/Ui/Keeps.antt =====
-- Which properties of a component's state a handler keeps: a rule for each way to build a handler.
use agience.Base.{subst, Bool, true, false, if◌then◌else◌, ◌≡◌, refl, sym}
use agience.Js.Exec.{
  Result, ok, thrown, Exn, pure, throw, lift, try_catch, try_finally, when, both, ◌>>=◌, continue,
  handle, settle,
}
use agience.World.{Io}
use agience.Ui.{Mounted, Ui, update, io}

-- A run from a state with the property, whether it returns or throws, ends in one.
pub record Keeps {V A : Type 0} (P : V → Type 0) (m : Ui V A) : Type 0 where
  pub keep : (s : Mounted V) → P s.view → P (m s).1.view

settled : {V A : Type 0} (r : Result A) (q : Result (Unit {0}) × Mounted V) → (settle r q).1 ≡ q.1
settled r (ok _, s) = refl
settled r (thrown e, s) = refl

module _ {V A : Type 0} {P : V → Type 0} where
  -- A program that leaves the state alone.
  Keeps-same : {m : Ui V A} → ((s : Mounted V) → (m s).1.view ≡ s.view) → Keeps P m
  Keeps-same same = record { keep = λ s p. subst P (sym (same s)) p }

  pub Keeps-pure : (a : A) → Keeps P (pure a)
  unfolding ◌>>=◌
  Keeps-pure a = Keeps-same λ s. refl

  pub Keeps-lift : (r : Result A) → Keeps P (lift r)
  unfolding ◌>>=◌
  Keeps-lift r = Keeps-same λ s. refl

  pub Keeps-throw : (e : Exn) → Keeps P (throw {A = A} e)
  unfolding ◌>>=◌
  Keeps-throw e = Keeps-same λ s. refl

  pub Keeps-io : (m : Io A) → Keeps P (io {V = V} m)
  unfolding io
  Keeps-io m = Keeps-same λ s. refl

  pub Keeps-if : (b : Bool) (m n : Ui V A) → Keeps P m → Keeps P n → Keeps P (if b then m else n)
  Keeps-if true m n km kn = km
  Keeps-if false m n km kn = kn

  Keeps-handle :
      (r : Result A) (h : Exn → Ui V A) → ((e : Exn) → Keeps P (h e)) → Keeps P (handle r h)
  Keeps-handle (ok a) h k = Keeps-same λ s. refl
  Keeps-handle (thrown e) h k = k e

  pub Keeps-try_catch :
      (m : Ui V A) (h : Exn → Ui V A)
      → Keeps P m
      → ((e : Exn) → Keeps P (h e))
      → Keeps P (try_catch m h)
  unfolding ◌>>=◌
  Keeps-try_catch m h km kh = record {
    keep = λ s p. (Keeps-handle (m s).0 h kh).keep (m s).1 (km.keep s p);
  }

  pub Keeps-try_finally :
      (m : Ui V A) (f : Ui V (Unit {0})) → Keeps P m → Keeps P f → Keeps P (try_finally m f)
  unfolding ◌>>=◌
  Keeps-try_finally m f km kf = record {
    keep = λ s p.
        subst (λ t. P t.view) (sym (settled (m s).0 (f (m s).1))) (kf.keep (m s).1 (km.keep s p));
  }

module _ {V A B : Type 0} {P : V → Type 0} where
  Keeps-continue :
      (r : Result A) (f : A → Ui V B) → ((a : A) → Keeps P (f a)) → Keeps P (continue r f)
  Keeps-continue (ok a) f k = k a
  Keeps-continue (thrown e) f k = Keeps-same λ s. refl

  pub Keeps-bind :
      (m : Ui V A) (f : A → Ui V B) → Keeps P m → ((a : A) → Keeps P (f a)) → Keeps P (m >>= f)
  unfolding ◌>>=◌
  Keeps-bind m f km kf = record {
    keep = λ s p. (Keeps-continue (m s).0 f kf).keep (m s).1 (km.keep s p);
  }

  pub Keeps-both : (m : Ui V A) (n : Ui V B) → Keeps P m → Keeps P n → Keeps P (both m n)
  unfolding both
  Keeps-both m n km kn = record { keep = λ s p. kn.keep (m s).1 (km.keep s p) }

module _ {V : Type 0} {P : V → Type 0} where
  pub Keeps-when : (b : Bool) (m : Ui V (Unit {0})) → Keeps P m → Keeps P (when b m)
  Keeps-when true m k = k
  Keeps-when false m k = Keeps-same λ s. refl

  pub Keeps-update : (f : V → V) → ((v : V) → P v → P (f v)) → Keeps P (update f)
  unfolding update
  Keeps-update f k = record { keep = λ s p. k s.view p }

pub ruleset keeps_rules = (
  Keeps-pure, Keeps-lift, Keeps-throw, Keeps-io, Keeps-if, Keeps-try_catch, Keeps-try_finally,
  Keeps-bind, Keeps-both, Keeps-when, Keeps-update,
)
