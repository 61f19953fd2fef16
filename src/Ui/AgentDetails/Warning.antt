-- ===== src/Ui/AgentDetails/Warning.antt =====
-- What is warned of before an agent is deleted.
use agience.Base.{
  ◌≢◌, String, ◌<>◌, true, false, ◌≡◌, arith, ◌⊎◌, ◌||◌, inl, inr, refl, List-cases, [],
}
use agience.Js.Value.{Value, get?, iterated}
use agience.Js.Text.{length_text}
use agience.Js.Exec.{Exn, ok, thrown, Result-cases}
use agience.Ui.{Mounted, Notification, warning}
use agience.Ui.AgentDetails.{View}
use agience.Ui.AgentDetails.Deleting.{warn, has_some}

-- The text says how many plugins and topics the agent has.
abbrev pub the_warning : String → String → Notification
the_warning p t = record {
  is_open = true;
  title = "Warning";
  message =
      "This agent has " <> p <> " plugins and " <> t
      <> " topics attached. These will be removed when deleting the agent.";
  kind = warning;
}

has_some_cases :
    (v : Value)
    → ((iterated v ≡ []) × (has_some v ≡ false)) ⊎ ((iterated v ≢ []) × (has_some v ≡ true))
has_some_cases v = elim (List-cases (iterated v)) [
  | inl empty ↦ inl (empty, rw (empty, has_some) refl)
  | inr (x, xs, filled) ↦
      inr (λ empty. absurd (ground (arith, empty, filled)), rw (filled, has_some) refl)
]

-- The state in which the warning is put up, and after it.
abbrev pub loading : Mounted View → Mounted View
loading m = record m { view = record m.view { is_loading = true } }

abbrev pub notified : Mounted View → Notification → Mounted View
notified m n = record m { view = record m.view { is_loading = true; notification = n } }

module _ (c : View) (m : Mounted View) where
  abbrev pub plugins : Value
  plugins = get? "plugins" c.selected_agent

  abbrev pub topics : Value
  topics = get? "topics" c.selected_agent

  -- The agent has a plugin or a topic.
  abbrev pub Attached : Type 0
  Attached = (iterated plugins ≢ []) ⊎ (iterated topics ≢ [])

  -- There is something to warn of, and it cannot be said.
  pub record Unreadable (e : Exn) : Type 0 where
    pub attached : Attached
    pub unread :
        (length_text plugins ≡ thrown e)
        ⊎ ((p : String) × (length_text plugins ≡ ok p) × (length_text topics ≡ thrown e))

  pub record Bare : Type 0 where
    pub no_plugins : iterated plugins ≡ []
    pub no_topics : iterated topics ≡ []
    pub unchanged : warn c (loading m) ≡ (ok tt, loading m)

  pub record Warns : Type 0 where
    pub p : String
    pub t : String
    pub attached : Attached
    pub plugin_count : length_text plugins ≡ ok p
    pub topic_count : length_text topics ≡ ok t
    pub shown : warn c (loading m) ≡ (ok tt, notified m (the_warning p t))

  -- What the user is warned of before anything is sent.
  abbrev pub Warned : Type 0
  Warned =
      Bare ⊎ (Warns ⊎ ((e : Exn) × Unreadable e × (warn c (loading m) ≡ (thrown e, loading m))))

  warns :
      Attached
      → (has_some plugins || has_some topics) ≡ true
      → Warns ⊎ ((e : Exn) × Unreadable e × (warn c (loading m) ≡ (thrown e, loading m)))
  unfolding warn
  warns attached some = elim (Result-cases (length_text plugins)) [
    | inr (e, unread) ↦
        inr (e, record { attached = attached; unread = inl unread }, rw (some, unread) refl)
    | inl (p, counted) ↦ elim (Result-cases (length_text topics)) [
      | inr (e, unread) ↦ inr (
        e,
        record { attached = attached; unread = inr (p, counted, unread) },
        rw (some, counted, unread) refl,
      )
      | inl (t, counted') ↦ inl (record {
        p = p;
        t = t;
        attached = attached;
        plugin_count = counted;
        topic_count = counted';
        shown = rw (some, counted, counted') refl;
      })
    ]
  ]

  pub warn_cases : Warned
  unfolding warn
  warn_cases = elim (has_some_cases plugins) [
    | inr (some, p) ↦ inr (warns (inl some) (rw p refl))
    | inl (none, p) ↦ elim (has_some_cases topics) [
      | inr (some, t) ↦ inr (warns (inr some) (rw (p, t) refl))
      | inl (none', t) ↦
          inl (record { no_plugins = none; no_topics = none'; unchanged = rw (p, t) refl })
    ]
  ]

  pub Bare-readable : Bare → (e : Exn) → ¬ Unreadable e
  Bare-readable b e u = elim u.attached [
    | inl some ↦ some b.no_plugins
    | inr some ↦ some b.no_topics
  ]

  pub Warns-readable : Warns → (e : Exn) → ¬ Unreadable e
  Warns-readable w e u =
      let one = w.plugin_count in
      let two = w.topic_count in
      elim u.unread [
        | inl unread ↦ absurd (ground (arith, one, unread))
        | inr (p, counted, unread) ↦ absurd (ground (arith, two, unread))
      ]
