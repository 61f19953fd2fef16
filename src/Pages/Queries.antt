-- ===== src/Pages/Queries.antt =====
-- The laws of a query: what is read after a name has been set or deleted.
use agience.Base.{
  String, Bool, true, false, [], ◌∷◌, ◌&&◌, arith, eq_iff, ◌≡◌, ◌==◌, refl, inl, inr, Bool-cases,
  same_text, differs,
}
use agience.Js.Value.{null, str}
use agience.Ui.{Query, set_param, delete_param}
use agience.Pages.{get_param}

pub get_param-delete_param : (k : String) (q : Query) → get_param k (delete_param k q) ≡ null
unfolding get_param delete_param
get_param-delete_param k [] = refl
get_param-delete_param k ((j, v) ∷ q) = elim (Bool-cases (j == k)) [
  | inl same ↦ rw same (get_param-delete_param k q)
  | inr other ↦ rw (other, other) (get_param-delete_param k q)
]

pub get_param-set_param : (k v : String) (q : Query) → get_param k (set_param k v q) ≡ str v
unfolding get_param set_param
get_param-set_param k v [] = rw (same_text k) refl
get_param-set_param k v ((j, w) ∷ q) = elim (Bool-cases (j == k)) [
  | inl same ↦ rw (same, same) refl
  | inr other ↦ rw (other, other) (get_param-set_param k v q)
]

pub get_param-delete_param_other :
    (k j : String) (q : Query) → (j == k) ≡ false → get_param k (delete_param j q) ≡ get_param k q
unfolding get_param delete_param
get_param-delete_param_other k j [] n = refl
get_param-delete_param_other k j ((i, w) ∷ q) n = elim (Bool-cases (i == j)) [
  | inl same ↦ rw (same, differs i j k same n) (get_param-delete_param_other k j q n)
  | inr other ↦ rw (other, get_param-delete_param_other k j q n) refl
]

pub get_param-set_param_other :
    (k j v : String) (q : Query) → (j == k) ≡ false → get_param k (set_param j v q) ≡ get_param k q
unfolding get_param set_param
get_param-set_param_other k j v [] n = rw n refl
get_param-set_param_other k j v ((i, w) ∷ q) n = elim (Bool-cases (i == j)) [
  | inl same ↦ rw (same, differs i j k same n) (get_param-delete_param_other k j q n)
  | inr other ↦ rw (other, get_param-set_param_other k j v q n) refl
]

abbrev pub same_query : Query → Query → Bool
same_query [] [] = true
same_query [] (_ ∷ _) = false
same_query (_ ∷ _) [] = false
same_query ((j, v) ∷ q) ((k, w) ∷ r) = (j == k) && ((v == w) && same_query q r)

pub same_query-eq : (q r : Query) → same_query q r ≡ true → q ≡ r
same_query-eq [] [] e = refl
same_query-eq [] (_ ∷ _) e = absurd (ground (arith, e))
same_query-eq (_ ∷ _) [] e = absurd (ground (arith, e))
same_query-eq ((j, v) ∷ q) ((k, w) ∷ r) e = elim (Bool-cases (j == k)) [
  | inr other ↦ absurd (ground (arith, e, other))
  | inl names ↦ elim (Bool-cases (v == w)) [
    | inr other ↦ absurd (ground (arith, e, other))
    | inl values ↦
        let rest = same_query-eq q r (rw (names, values) at e) in
        rw ((eq_iff j k).0 names, (eq_iff v w).0 values, rest) refl
  ]
]
