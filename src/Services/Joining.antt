-- ===== src/Services/Joining.antt =====
-- `getConnectionsWithAuthorizers`: its requests, and what its `Map` finds.
use agience.Base.{
  map, true, Option, none, some, List, [], ◌∷◌, ◌≡◌, refl, ap, ◌∙◌, arith, eq_iff, if◌then◌else◌,
  Bool-cases, inl, inr,
}
use agience.Js.Value.{
  Value, undefined, null, bool, num, str, same_key, get, get?, get-eq-get?, truthy, field, end,
  spread,
}
use agience.Js.Exec.{Result, ok, traverse, Result-cases}
use agience.World.{World}
use agience.Client.{get_call}
use agience.Trace.{sent}
use agience.Services.Joined.{
  Entries, map_set, map_get, authorizer_map, attach, get_connections_with_authorizers,
}
use agience.Services.Connections.{get_all_connections}
use agience.Services.Authorizers.{get_all_authorizers}
use agience.Services.Calls.{sent-get_all_connections, sent-get_all_authorizers}

same_key-eq : (j k : Value) → same_key j k ≡ true → j ≡ k
unfolding same_key
same_key-eq undefined undefined h = refl
same_key-eq null null h = refl
same_key-eq (bool a) (bool b) h = ground arith
same_key-eq (num s) (num t) h = ap num ((eq_iff s t).0 h)
same_key-eq (str s) (str t) h = ap str ((eq_iff s t).0 h)
same_key-eq _ _ h = cc

map_get-map_set :
    (k q v : Value) (m : Entries)
    → map_get q (map_set k v m) ≡ (if same_key k q then some v else map_get q m)
unfolding map_get map_set
map_get-map_set k q v [] = refl
map_get-map_set k q v ((j, w) ∷ m) = elim (Bool-cases (same_key j k)) [
  | inl same ↦ rw same (rw (same_key-eq j k same) (ground arith))
  | inr other ↦
      rw other (rw (map_get-map_set k q v m) (ground (arith, same_key-eq j q, same_key-eq k q)))
]

-- The last of the authorizers whose id is `k`.
last_with_id : Value → List Value → Option Value → Option Value
last_with_id k [] found = found
last_with_id k (a ∷ rest) found =
    last_with_id k rest (if same_key (get? "id" a) k then some a else found)

map_get-authorizer_map :
    (k : Value) (m : Entries) (as' : List Value) {m' : Entries}
    → authorizer_map m as' ≡ ok m'
    → map_get k m' ≡ last_with_id k as' (map_get k m)
unfolding authorizer_map last_with_id get get?
map_get-authorizer_map k m [] h = ground arith
map_get-authorizer_map k m (undefined ∷ as') h = cc
map_get-authorizer_map k m (null ∷ as') h = cc
map_get-authorizer_map k m (a ∷ as') h =
    map_get-authorizer_map k (map_set (get? "id" a) a m) as' h
    ∙ ap (last_with_id k as') (map_get-map_set (get? "id" a) k a m)

pub traverse-eq-map :
    {A B : Type 0} (f : A → Result B) (g : A → B)
    → ((a : A) (b : B) → f a ≡ ok b → b ≡ g a)
    → (xs : List A) (ys : List B) → traverse f xs ≡ ok ys
    → ys ≡ map g xs
unfolding traverse
traverse-eq-map f g agree [] ys h = ground arith
traverse-eq-map f g agree (x ∷ xs) [] h = ground arith
traverse-eq-map f g agree (x ∷ xs) (y ∷ ys) h =
    let here : f x ≡ ok y = ground arith in
    let later : traverse f xs ≡ ok ys = ground arith in
    cc (agree x y here, traverse-eq-map f g agree xs ys later)

abbrev with_authorizer : Value → Option Value → Value
with_authorizer c none = c
with_authorizer c (some a) = spread c (field "authorizer" a end)

-- A connection with the authorizer that its `authorizer_id` names, if there is one.
joined_with : List Value → Value → Value
joined_with as' c =
    if truthy (get? "authorizer_id" c)
    then with_authorizer c (last_with_id (get? "authorizer_id" c) as' none)
    else c

attach-eq-joined_with :
    (m : Entries) (as' : List Value)
    → authorizer_map [] as' ≡ ok m
    → (c r : Value) → attach m c ≡ ok r
    → r ≡ joined_with as' c
unfolding attach joined_with
attach-eq-joined_with m as' built c r h = elim (Result-cases (get "authorizer_id" c)) [
  | inl (id, found) ↦ ground (
    arith,
    found,
    get-eq-get? "authorizer_id" c id found,
    map_get-authorizer_map (get? "authorizer_id" c) [] as' built,
  )
  | inr (e, failed) ↦ ground (arith, failed)
]

-- What a successful run has fetched and how it has joined it.
pub record Fetched (rs : List Value) (w : World) : Type 0 where
  connections : List Value
  authorizers : List Value
  first : (get_all_connections w).0 ≡ ok connections
  second : (get_all_authorizers (get_all_connections w).1).0 ≡ ok authorizers
  result : rs ≡ map (joined_with authorizers) connections
  requests :
      sent (get_connections_with_authorizers w).1
      ≡ get_call "/manage/authorizers" ∷ get_call "/manage/connections" ∷ sent w

-- When `getConnectionsWithAuthorizers` returns, it has sent two requests, for all connections and
-- then for all authorizers, however many there are, and its result is the list of the fetched
-- connections, in their order, each with the last fetched authorizer whose id is its
-- `authorizer_id`, and as it was where the field is empty or no authorizer has that id.
pub get_connections_with_authorizers-Fetched :
    (w : World) (rs : List Value) → (get_connections_with_authorizers w).0 ≡ ok rs → Fetched rs w
unfolding get_connections_with_authorizers
get_connections_with_authorizers-Fetched w rs h = elim (Result-cases (get_all_connections w).0) [
  | inr (e, failed) ↦ absurd (ground (arith, failed))
  | inl (cs, first) ↦ elim (Result-cases (get_all_authorizers (get_all_connections w).1).0) [
    | inr (e, failed) ↦ absurd (ground (arith, first, failed))
    | inl (as', second) ↦ elim (Result-cases (authorizer_map [] as')) [
      | inr (e, failed) ↦ absurd (ground (arith, first, second, failed))
      | inl (m, built) ↦ record {
        connections = cs;
        authorizers = as';
        first = first;
        second = second;
        result =
            traverse-eq-map (attach m) (joined_with as') (attach-eq-joined_with m as' built) cs rs
              (ground (arith, first, second, built));
        requests = ground (
          arith,
          first,
          second,
          built,
          sent-get_all_connections w,
          sent-get_all_authorizers (get_all_connections w).1,
        );
      }
    ]
  ]
]
