-- ===== src/Trace/Sends.antt =====
-- Which calls a program may send: a rule for each way to build a program.
use agience.Base.{
  Bool, true, false, List, [], ◌∷◌, ◌++◌, ◌≡◌, refl, sym, ap, ◌∙◌, All, append_assoc, if◌then◌else◌,
  String,
}
use agience.Js.Exec.{
  Result, ok, thrown, Exn, Exec, pure, throw, lift, try_catch, try_finally, both, for_each,
  continue, ◌>>=◌, handle, settle,
}
use agience.World.{Call, World, Io, log_error, log}
use agience.Client.{send, logged}
use agience.Trace.{sent, sent-send}

-- Whether `m` returns or throws, every call that it sends satisfies `P`. The calls that it adds
-- are `added`; `world` finds the outside world in the state.
pub record Sends {S A : Type 0} (world : S → World) (P : Call → Type 0) (m : Exec S A)
    : Type 0 where
  pub added : S → List Call
  pub hold : (s : S) → All P (added s)
  pub grown : (s : S) → sent (world (m s).1) ≡ added s ++ sent (world s)

All-append : (P : Call → Type 0) (xs ys : List Call) → All P xs → All P ys → All P (xs ++ ys)
All-append P [] ys _ k = k
All-append P (x ∷ xs) ys (p, h) k = (p, All-append P xs ys h k)

module _ {S A : Type 0} {world : S → World} {P : Call → Type 0} where
  -- A program that leaves the world alone.
  pub Sends-nothing :
      {m : Exec S A} → ((s : S) → sent (world (m s).1) ≡ sent (world s)) → Sends world P m
  Sends-nothing same = record { added = λ s. []; hold = λ s. tt; grown = same }

  pub Sends-pure : (a : A) → Sends world P (pure a)
  unfolding ◌>>=◌
  Sends-pure a = Sends-nothing λ s. refl

  pub Sends-throw : (e : Exn) → Sends world P (throw {A = A} e)
  unfolding ◌>>=◌
  Sends-throw e = Sends-nothing λ s. refl

  pub Sends-lift : (r : Result A) → Sends world P (lift r)
  unfolding ◌>>=◌
  Sends-lift r = Sends-nothing λ s. refl

  pub Sends-if :
      (b : Bool) (m n : Exec S A)
      → Sends world P m
      → Sends world P n
      → Sends world P (if b then m else n)
  Sends-if true m n km kn = km
  Sends-if false m n km kn = kn

-- One program after another, whose choice may depend on how the first ended.
module _ {S A B : Type 0} {world : S → World} {P : Call → Type 0} where
  Sends-then :
      (m : Exec S A) (next : Result A → Exec S B) (n : Exec S B)
      → ((s : S) → n s ≡ next (m s).0 (m s).1)
      → Sends world P m
      → ((r : Result A) → Sends world P (next r))
      → Sends world P n
  Sends-then m next n same km kn = record {
    added = λ s. (kn (m s).0).added (m s).1 ++ km.added s;
    hold = λ s.
        All-append P ((kn (m s).0).added (m s).1) (km.added s) ((kn (m s).0).hold (m s).1)
          (km.hold s);
    grown = λ s.
        ap (λ p. sent (world p.1)) (same s)
        ∙ (kn (m s).0).grown (m s).1
        ∙ ap (λ h. (kn (m s).0).added (m s).1 ++ h) (km.grown s)
        ∙ sym (append_assoc ((kn (m s).0).added (m s).1) (km.added s) (sent (world s)));
  }

  Sends-continue :
      (f : A → Exec S B)
      → ((a : A) → Sends world P (f a))
      → (r : Result A) → Sends world P (continue r f)
  Sends-continue f kf (ok a) = kf a
  Sends-continue f kf (thrown e) = Sends-nothing λ s. refl

  pub Sends-bind :
      (m : Exec S A) (f : A → Exec S B)
      → Sends world P m
      → ((a : A) → Sends world P (f a))
      → Sends world P (m >>= f)
  unfolding ◌>>=◌
  Sends-bind m f km kf = Sends-then m (λ r. continue r f) _ (λ s. refl) km (Sends-continue f kf)

settled : {S A : Type 0} (r : Result A) (p : Result (Unit {0}) × S) → (settle r p).1 ≡ p.1
settled r (ok _, s) = refl
settled r (thrown e, s) = refl

module _ {S A : Type 0} {world : S → World} {P : Call → Type 0} where
  Sends-handle :
      (h : Exn → Exec S A)
      → ((e : Exn) → Sends world P (h e))
      → (r : Result A) → Sends world P (handle r h)
  Sends-handle h kh (ok a) = Sends-nothing λ s. refl
  Sends-handle h kh (thrown e) = kh e

  pub Sends-try_catch :
      (m : Exec S A) (h : Exn → Exec S A)
      → Sends world P m
      → ((e : Exn) → Sends world P (h e))
      → Sends world P (try_catch m h)
  unfolding ◌>>=◌
  Sends-try_catch m h km kh = Sends-then m (λ r. handle r h) _ (λ s. refl) km (Sends-handle h kh)

  pub Sends-try_finally :
      (m : Exec S A) (f : Exec S (Unit {0}))
      → Sends world P m
      → Sends world P f
      → Sends world P (try_finally m f)
  unfolding ◌>>=◌
  Sends-try_finally m f km kf =
      Sends-then m (λ r s. settle r (f s)) _ (λ s. refl) km
        (λ r. record {
          added = kf.added;
          hold = kf.hold;
          grown = λ s. ap (λ t. sent (world t)) (settled r (f s)) ∙ kf.grown s;
        })

module _ {S A B : Type 0} {world : S → World} {P : Call → Type 0} where
  pub Sends-both :
      (m : Exec S A) (n : Exec S B) → Sends world P m → Sends world P n → Sends world P (both m n)
  unfolding both
  Sends-both m n km kn =
      Sends-then m (λ r s. ((both (λ t. (r, t)) n) s)) _ (λ s. refl) km
        (λ r. record { added = kn.added; hold = kn.hold; grown = kn.grown })

module _ {S A : Type 0} {world : S → World} {P : Call → Type 0} where
  pub Sends-for_each :
      (f : A → Exec S (Unit {0}))
      → ((a : A) → Sends world P (f a))
      → (l : List A) → Sends world P (for_each f l)
  unfolding for_each
  Sends-for_each f kf [] = Sends-pure tt
  Sends-for_each f kf (a ∷ l) =
      Sends-bind (f a) (λ _. for_each f l) (kf a) (λ _. Sends-for_each f kf l)

-- The effects of the world.
module _ {P : Call → Type 0} where
  pub Sends-send : (c : Call) → P c → Sends (λ w. w) P (send c)
  Sends-send c h = record { added = λ w. c ∷ []; hold = λ w. (h, tt); grown = sent-send c }

  pub Sends-log_error : (message : String) → Sends (λ w. w) P (log_error message)
  unfolding log_error
  Sends-log_error message = Sends-nothing λ s. refl

  pub Sends-log : (message : String) → Sends (λ w. w) P (log message)
  unfolding log
  Sends-log message = Sends-nothing λ s. refl

  pub Sends-logged :
      {A : Type 0} (message : String) (m : Io A)
      → Sends (λ w. w) P m
      → Sends (λ w. w) P (logged message m)
  unfolding logged
  Sends-logged message m km =
      Sends-try_catch m _ km (λ e. Sends-bind _ _ (Sends-log_error message) (λ _. Sends-throw e))

pub ruleset sends_rules = (
  Sends-pure, Sends-throw, Sends-lift, Sends-if, Sends-bind, Sends-try_catch, Sends-try_finally,
  Sends-both, Sends-for_each, Sends-send, Sends-log_error, Sends-log, Sends-logged,
)
