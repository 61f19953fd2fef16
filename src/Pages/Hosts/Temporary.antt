-- ===== src/Pages/Hosts/Temporary.antt =====
-- What becomes of a host that is being created.
use agience.Base.{
  String, true, Option, none, some, Bool-cases, List, ◌∷◌, ◌≡◌, refl, inl, inr, Option-cases,
}
use agience.Js.Value.{Value, text, truthy}
use agience.Js.Exec.{Result, ok, Result-cases}
use agience.Services.Hosts.{get_all_hosts}
use agience.Ui.{Mounted, Ui, find_by_id}
use agience.Ui.Keeps.{Keeps, keeps_rules}
use agience.Pages.{get_param, set_search_params, set_tab}
use agience.Pages.Hosts.{
  View, temp_host, select_host, set_loading, set_hosts, on_tab, on_host_id, handle_tab_change,
  handle_select_host, handle_create_host, select_found, address_found,
}

-- The programs of the page.
pub data Operation : Ui View (Unit {0}) → Type 0 where
  follow : (c : View) → Operation (on_tab c)
  fetch : (c : View) → Operation (on_host_id c)
  click : (c : View) (t : String) → Operation (handle_tab_change c t)
  pick : (c : View) (id : String) → Operation (handle_select_host c id)
  create : (c : View) (now created : String) → Operation (handle_create_host c now created)

pub data Reach (m : Mounted View) : Mounted View → Type 0 where
  here : Reach m m
  next : {n : Mounted View} {p : Ui View (Unit {0})} → Reach m n → Operation p → Reach m (p n).1

abbrev HasTemp : View → Type 0
HasTemp v = v.has_temp_host ≡ true

select_found-Keeps : (o : Option Value) → Keeps HasTemp (select_found o)
unfolding select_found select_host
select_found-Keeps none = search keeps_rules depth 9
select_found-Keeps (some host) = search keeps_rules depth 9

address_found-Keeps :
    (c : View) (id : String) (o : Option Value) → Keeps HasTemp (address_found c id o)
unfolding address_found select_host set_search_params
address_found-Keeps c id none = search keeps_rules depth 9
address_found-Keeps c id (some host) = search keeps_rules depth 9

Operation-Keeps : (p : Ui View (Unit {0})) → Operation p → Keeps HasTemp p
unfolding on_tab on_host_id handle_tab_change handle_select_host handle_create_host set_tab
    select_host set_loading set_hosts set_search_params
Operation-Keeps p (follow c) = search keeps_rules depth 9
Operation-Keeps p (fetch c) = search (keeps_rules, select_found-Keeps) depth 12
Operation-Keeps p (click c t) = search keeps_rules depth 9
Operation-Keeps p (pick c id) = search (keeps_rules, address_found-Keeps) depth 9
Operation-Keeps p (create c now created) = search keeps_rules depth 9

Reach-HasTemp : (m n : Mounted View) → HasTemp m.view → Reach m n → HasTemp n.view
Reach-HasTemp m n h here = h
Reach-HasTemp m n h (next {n = k} {p = p} r o) =
    (Operation-Keeps p o).keep k (Reach-HasTemp m k h r)

module _ (now created : String) (m : Mounted View) where
  abbrev created_page : Mounted View
  created_page = (handle_create_host m.view now created m).1

  -- The page after the effect of the new id in its address.
  abbrev after : Mounted View
  after = (on_host_id created_page.view created_page).1

  abbrev answer : Result (List Value)
  answer = (get_all_hosts created_page.world).0

  pub record Lost : Type 0 where
    listed : created_page.view.hosts ≡ temp_host now created ∷ m.view.hosts
    overwritten : (hosts : List Value) → answer ≡ ok hosts → after.view.hosts ≡ hosts
    disabled : (n : Mounted View) → Reach after n → n.view.has_temp_host ≡ true

  created_listed : created_page.view.hosts ≡ temp_host now created ∷ m.view.hosts
  unfolding handle_create_host
  created_listed = refl

  created_temp : created_page.view.has_temp_host ≡ true
  unfolding handle_create_host
  created_temp = refl

  hosts-on_host_id :
      (c : View) (k : Mounted View) (hosts : List Value)
      → (get_all_hosts k.world).0 ≡ ok hosts
      → (on_host_id c k).1.view.hosts ≡ hosts
  unfolding on_host_id
  hosts-on_host_id c k hosts fetched = elim (Bool-cases (truthy (get_param "id" c.search))) [
    | inr unnamed ↦ rw (fetched, unnamed) refl
    | inl named ↦ elim (Result-cases (find_by_id (text (get_param "id" c.search)) hosts)) [
      | inr (e, failed) ↦ rw (fetched, named, failed) refl
      | inl (o, told) ↦ elim (Option-cases o) [
        | inl missing ↦ rw (fetched, named, told, missing) refl
        | inr (h, found) ↦ rw (fetched, named, told, found) refl
      ]
    ]
  ]

  -- A new host is put in the list. The effect of its id in the address then replaces the list by
  -- what the server has, if it answers, and whatever programs of the page run afterwards, the page
  -- holds that a host is being created.
  pub handle_create_host-Lost : Lost
  handle_create_host-Lost = record {
    listed = created_listed;
    overwritten = λ hosts fetched. hosts-on_host_id created_page.view created_page hosts fetched;
    disabled = λ n r.
        Reach-HasTemp after n
          ((Operation-Keeps (on_host_id created_page.view) (fetch created_page.view)).keep
            created_page created_temp)
          r;
  }
