-- ===== src/Ui/Unassigned.antt =====
-- The lists of what can still be assigned, which three components show.
use mathlib.Core.List.{Memᴰ}
use mathlib.Core.List.Memᴰ
use mathlib.Core.Path.{subst}
use agience.Base.{
  Bool, true, false, not, List, [], ◌∷◌, ◌≡◌, ◌↔◌, refl, arith, inl, inr, any, select, All,
  Bool-cases, if◌then◌else◌,
}
use agience.Js.Value.{Value, get?, same_key}
use agience.Ui.AgentTopics
use agience.Ui.AgentTopics.{unassigned_topics}
use agience.Ui.AgentPlugins
use agience.Ui.AgentPlugins.{unassigned_plugins}
use agience.Ui.HostPlugins

module _ {A : Type 0} where
  any-All : (p : A → Bool) (xs : List A) → not (any p xs) ≡ true → All (λ x. p x ≡ false) xs
  any-All p [] h = tt
  any-All p (x ∷ xs) h = elim (Bool-cases (p x)) [
    | inl kept ↦ absurd (ground (arith, kept))
    | inr left ↦ (left, any-All p xs (ground (arith, left)))
  ]

  All-any : (p : A → Bool) (xs : List A) → All (λ x. p x ≡ false) xs → not (any p xs) ≡ true
  All-any p [] h = refl
  All-any p (x ∷ xs) (left, rest) = rw left (All-any p xs rest)

  mem_cons_select :
      (p : A → Bool) {x : A} (y : A) (ys : List A)
      → Memᴰ x (select p ys)
      → Memᴰ x (select p (y ∷ ys))
  mem_cons_select p {x} y ys d = elim (Bool-cases (p y)) [
    | inl kept ↦ rw kept (Memᴰ.tail d)
    | inr left ↦ rw left d
  ]

  select_sound :
      (p : A → Bool) (x : A) (xs : List A) → Memᴰ x (select p xs) → Memᴰ x xs × (p x ≡ true)
  select_sound p x [] d = absurd (Memᴰ.not-nil d)
  select_sound p x (y ∷ ys) d = elim (Bool-cases (p y)) [
    | inr left ↦
        let earlier =
          select_sound p x ys
            (subst (λ b. Memᴰ x (if b then y ∷ select p ys else select p ys)) left d) in
        (Memᴰ.tail earlier.0, earlier.1)
    | inl kept ↦
        elim (Memᴰ.cases_cons
          (subst (λ b. Memᴰ x (if b then y ∷ select p ys else select p ys)) kept d)) [
            | inl same ↦ (Memᴰ.head same, cc)
            | inr later ↦
                let earlier = select_sound p x ys later in (Memᴰ.tail earlier.0, earlier.1)
          ]
  ]

  select_complete :
      (p : A → Bool) {x : A} {xs : List A} → Memᴰ x xs → p x ≡ true → Memᴰ x (select p xs)
  select_complete p {x = x} {xs = []} d h = elim d [ ]
  select_complete p {x = x} {xs = y ∷ ys} (Memᴰ.head e) h =
      let chosen : p y ≡ true = cc in rw chosen (Memᴰ.head e)
  select_complete p {x = x} {xs = y ∷ ys} (Memᴰ.tail d) h =
      mem_cons_select p y ys (select_complete p d h)

-- No value of the list has the id of `x`.
abbrev pub HasOtherIds : Value → List Value → Type 0
HasOtherIds x assigned = All (λ a. same_key (get? "id" a) (get? "id" x) ≡ false) assigned

-- The values that a component offers, of those that exist and those that are assigned.
abbrev pub Offers : List Value → List Value → List Value → Type 0
Offers offered available assigned =
    (x : Value) → Memᴰ x offered ↔ (Memᴰ x available × HasOtherIds x assigned)

select-Offers :
    (available assigned : List Value)
    → Offers
        (select (λ x. not (any (λ a. same_key (get? "id" a) (get? "id" x)) assigned)) available)
        available
        assigned
select-Offers available assigned x =
    let clash = λ (y a : Value). same_key (get? "id" a) (get? "id" y) in
    (
      λ d.
          let found = select_sound (λ y. not (any (clash y) assigned)) x available d in
          (found.0, any-All (clash x) assigned found.1),
      λ found.
          select_complete (λ y. not (any (clash y) assigned)) found.0
            (All-any (clash x) assigned found.1),
    )

-- The tabs of an agent's topics and plugins and the page of a host's plugins offer exactly the
-- available items whose id no assigned item has.
pub unassigned-Offers :
    (t : AgentTopics.View) (p : AgentPlugins.View) (h : HostPlugins.View)
    → Offers (AgentTopics.unassigned_topics t) t.available_topics t.assigned_topics
      × Offers (AgentPlugins.unassigned_plugins p) p.available_plugins p.assigned_plugins
      × Offers (HostPlugins.unassigned_plugins h) h.available_plugins h.assigned_plugins
unfolding AgentTopics.unassigned_topics AgentPlugins.unassigned_plugins
    HostPlugins.unassigned_plugins
unassigned-Offers t p h = (
  select-Offers t.available_topics t.assigned_topics,
  select-Offers p.available_plugins p.assigned_plugins,
  select-Offers h.available_plugins h.assigned_plugins,
)
