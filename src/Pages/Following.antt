-- ===== src/Pages/Following.antt =====
-- The active tab of a page follows its address, whatever tabs are clicked and addresses opened.
-- `useSearchParams` makes a new object only where the query of the address is a new one.
use agience.Base.{String, true, ◌≡◌, refl, sym, ◌∙◌, ap, inl, inr, Bool-cases, if◌then◌else◌}
use agience.Js.Value.{str, truthy, text}
use agience.Ui.{Mounted, Query, set_param}
use agience.Pages.{Tabbed, get_param, change_tab, follow_tab}
use agience.Pages.Queries.{get_param-set_param, same_query, same_query-eq}

module _ {V : Type 0} (page : Tabbed V) where
  -- The effect of a query. React runs it after a render whose query is not that of the one before.
  abbrev rendered : Mounted V → Mounted V
  rendered m = (follow_tab page m.view m).1

  abbrev rendered_after : Mounted V → Mounted V → Mounted V
  rendered_after m n =
      if same_query (page.search m.view) (page.search n.view) then n else rendered n

  abbrev pub after_click : String → Mounted V → Mounted V
  after_click t m = rendered_after m (change_tab page m.view t m).1

  abbrev pub after_address : Query → Mounted V → Mounted V
  after_address q m = rendered_after m (record m { view = page.with_search q m.view })

  -- A user clicks on a tab, or goes to another address of the page.
  pub data Step : Mounted V → Mounted V → Type 0 where
    click : (m : Mounted V) (t : String) → Step m (after_click t m)
    address : (m : Mounted V) (q : Query) → Step m (after_address q m)

  pub data Reach (m : Mounted V) : Mounted V → Type 0 where
    here : Reach m m
    next : {n o : Mounted V} → Reach m n → Step n o → Reach m o

  -- A tab that the query names is the active one.
  abbrev pub Agrees : V → Type 0
  Agrees v =
      (t : String)
      → get_param "tab" (page.search v) ≡ str t
      → truthy (str t) ≡ true
      → page.tab v ≡ t

  search-rendered : (m : Mounted V) → page.search (rendered m).view ≡ page.search m.view
  unfolding follow_tab
  search-rendered m = elim (Bool-cases (truthy (get_param "tab" (page.search m.view)))) [
    | inl named ↦
        rw (rendered, named)
          (page.search-with_tab (text (get_param "tab" (page.search m.view))) m.view)
    | inr unnamed ↦ rw (rendered, unnamed) refl
  ]

  tab-rendered :
      (m : Mounted V) (t : String)
      → get_param "tab" (page.search m.view) ≡ str t
      → truthy (str t) ≡ true
      → page.tab (rendered m).view ≡ t
  unfolding follow_tab text
  tab-rendered m t named given = rw (rendered, named, given) (page.tab-with_tab t m.view)

  rendered-Agrees : (m : Mounted V) → Agrees (rendered m).view
  rendered-Agrees m t named given =
      tab-rendered m t (sym (ap (get_param "tab") (search-rendered m)) ∙ named) given

  rendered_after-Agrees :
      (m n : Mounted V)
      → (page.search m.view ≡ page.search n.view → Agrees n.view)
      → Agrees (rendered_after m n).view
  rendered_after-Agrees m n unchanged =
      elim (Bool-cases (same_query (page.search m.view) (page.search n.view))) [
        | inl same ↦ rw same (unchanged (same_query-eq _ _ same))
        | inr other ↦ rw other (rendered-Agrees n)
      ]

  search-change_tab :
      (m : Mounted V) (t : String)
      → page.search (change_tab page m.view t m).1.view ≡ set_param "tab" t (page.search m.view)
  unfolding change_tab
  search-change_tab m t =
      page.search-with_search (set_param "tab" t (page.search m.view)) (page.with_tab t m.view)

  tab-change_tab : (m : Mounted V) (t : String) → page.tab (change_tab page m.view t m).1.view ≡ t
  unfolding change_tab
  tab-change_tab m t =
      page.tab-with_search (set_param "tab" t (page.search m.view)) (page.with_tab t m.view)
      ∙ page.tab-with_tab t m.view

  named-change_tab :
      (m : Mounted V) (t : String)
      → get_param "tab" (page.search (change_tab page m.view t m).1.view) ≡ str t
  named-change_tab m t =
      ap (get_param "tab") (search-change_tab m t)
      ∙ get_param-set_param "tab" t (page.search m.view)

  change_tab-Agrees : (m : Mounted V) (t : String) → Agrees (change_tab page m.view t m).1.view
  change_tab-Agrees m t u named given =
      let e : str t ≡ str u = sym (named-change_tab m t) ∙ named in tab-change_tab m t ∙ cc

  Step-Agrees : {m n : Mounted V} → Agrees m.view → Step m n → Agrees n.view
  Step-Agrees h (click m t) =
      rendered_after-Agrees m (change_tab page m.view t m).1 (λ _. change_tab-Agrees m t)
  Step-Agrees h (address m q) =
      rendered_after-Agrees m (record m { view = page.with_search q m.view })
        (λ same t named given.
          page.tab-with_search q m.view ∙ h t (ap (get_param "tab") same ∙ named) given)

  -- From any state in which a tab that the query names is the active one, clicks on tabs and new
  -- addresses lead only to such states, where the effect of the query runs after those that change
  -- the query, and after no others.
  pub Reach-Agrees : {m n : Mounted V} → Agrees m.view → Reach m n → Agrees n.view
  Reach-Agrees h here = h
  Reach-Agrees h (next r s) = Step-Agrees (Reach-Agrees h r) s
