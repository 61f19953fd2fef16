-- ===== src/Js/Exec.antt =====
-- Asynchronous functions that read and write a state and may throw. What was written before a
-- throw stays written.
use mathlib.Core.Logic.{◌⊎◌}
use agience.Base.{Option, ℕ, inl, inr, refl, ◌≡◌, String, Bool, List, [], ◌∷◌, if◌then◌else◌}

-- An `Error`: its class and its message, and the status of its `response` if axios has put one in.
pub record Exn : Type 0 where
  pub name : String
  pub message : String
  pub status : Option ℕ

pub data Result {ℓ} (A : Type ℓ) : Type ℓ where
  ok : A → Result A
  thrown : Exn → Result A

abbrev pub Exec {ℓ} : Type ℓ → Type ℓ → Type ℓ
Exec S A = S → Result A × S

module _ {ℓ} {S A : Type ℓ} where
  pub pure : A → Exec S A
  pure a s = (ok a, s)

  pub throw : Exn → Exec S A
  throw e s = (thrown e, s)

  pub lift : Result A → Exec S A
  lift r s = (r, s)

  abbrev pub handle : Result A → (Exn → Exec S A) → Exec S A
  handle (ok a) h s = (ok a, s)
  handle (thrown e) h s = h e s

  -- `try { m } catch (e) { h(e) }`
  pub try_catch : Exec S A → (Exn → Exec S A) → Exec S A
  try_catch m h s = let (r, s') = m s in handle r h s'

  -- A result after the `finally` block: what the block throws replaces it.
  abbrev pub settle : Result A → Result (Unit {ℓ}) × S → Result A × S
  settle r (ok _, s) = (r, s)
  settle r (thrown e, s) = (thrown e, s)

  -- `try { m } finally { f }`
  pub try_finally : Exec S A → Exec S (Unit {ℓ}) → Exec S A
  try_finally m f s = let (r, s') = m s in settle r (f s')

module _ {ℓ} {S A B : Type ℓ} where
  abbrev pub continue : Result A → (A → Exec S B) → Exec S B
  continue (ok a) f s = f a s
  continue (thrown e) f s = (thrown e, s)

  infixl 5 ◌>>=◌ ◌>>◌
  -- Unfolding this unfolds all the combinators of this module.
  unfoldable pub ◌>>=◌ : Exec S A → (A → Exec S B) → Exec S B
  unfolding pure throw lift try_catch try_finally
  ◌>>=◌ m f s = let (r, s') = m s in continue r f s'

  abbrev pub ◌>>◌ : Exec S A → Exec S B → Exec S B
  m >> n = m >>= λ _. n

module _ {ℓ} {A B : Type ℓ} where
  pair : Result A → Result B → Result (A × B)
  pair (ok a) (ok b) = ok (a, b)
  pair (ok a) (thrown e) = thrown e
  pair (thrown e) _ = thrown e

module _ {ℓ} {S A B : Type ℓ} where
  -- `Promise.all([m, n])`: both run, in this order, whatever becomes of the first.
  unfoldable pub both : Exec S A → Exec S B → Exec S (A × B)
  unfolding pair
  both m n s = let (r, s') = m s in let (q, s'') = n s' in (pair r q, s'')

cons_ok {ℓ} : {B : Type ℓ} → Result B → Result (List B) → Result (List B)
cons_ok (ok b) (ok bs) = ok (b ∷ bs)
cons_ok (ok b) (thrown e) = thrown e
cons_ok (thrown e) _ = thrown e

module _ {ℓ} {A B : Type ℓ} where
  abbrev pub map_ok : (A → B) → Result A → Result B
  map_ok f (ok a) = ok (f a)
  map_ok f (thrown e) = thrown e

  -- `Array.prototype.map`, by a function that may throw
  unfoldable pub traverse : (A → Result B) → List A → Result (List B)
  unfolding cons_ok
  traverse f [] = ok []
  traverse f (a ∷ as') = cons_ok (f a) (traverse f as')

module _ {ℓ} {S A : Type ℓ} where
  -- `for (const a of as) await f(a)`
  unfoldable pub for_each : (A → Exec S (Unit {ℓ})) → List A → Exec S (Unit {ℓ})
  unfolding ◌>>=◌
  for_each f [] = pure tt
  for_each f (a ∷ as') = do f a; for_each f as'

module _ {ℓ} {S : Type ℓ} where
  -- `if (b) m`
  abbrev pub when : Bool → Exec S (Unit {ℓ}) → Exec S (Unit {ℓ})
  when b m = if b then m else λ s. (ok tt, s)

module _ {ℓ} {A : Type ℓ} where
  pub Result-cases : (r : Result A) → ((a : A) × (r ≡ ok a)) ⊎ ((e : Exn) × (r ≡ thrown e))
  Result-cases (ok a) = inl (a, refl)
  Result-cases (thrown e) = inr (e, refl)
