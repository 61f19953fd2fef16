-- ===== src/Services/Joined.antt =====
-- authority/manage-ui/src/services/api/dataService.ts
use agience.Base.{String, Option, none, some, List, [], ◌∷◌, ◌<>◌, if◌then◌else◌}
use agience.Js.Value.{Value, end, field, get, truthy, array, object, same_key, spread, text}
use agience.Js.Exec.{Result, ok, thrown, pure, lift, try_catch, both, map_ok, traverse, ◌>>=◌, ◌>>◌}
use agience.World.{Io, log_error}
use agience.Client.{logged}
use agience.Services.Authorizers.{
  get_all_authorizers, get_authorizer_by_id, get_connections_for_authorizer,
}
use agience.Services.Connections.{get_all_connections, get_connection_by_id}

-- A `Map`: its keys are distinct, in the order in which they were added.
abbrev pub Entries : Type 0
Entries = List (Value × Value)

unfoldable pub map_set : Value → Value → Entries → Entries
map_set k v [] = (k, v) ∷ []
map_set k v ((j, w) ∷ m) = if same_key j k then (j, v) ∷ m else (j, w) ∷ map_set k v m

unfoldable pub map_get : Value → Entries → Option Value
map_get k [] = none
map_get k ((j, v) ∷ m) = if same_key j k then some v else map_get k m

-- `authorizers.forEach(…)`
unfoldable pub authorizer_map : Entries → List Value → Result Entries
unfolding map_set get
authorizer_map m [] = ok m
authorizer_map m (a ∷ rest) =
    let next = λ (id : Value). authorizer_map (map_set id a m) rest in
    elim (get "id" a) [ ok id ↦ next id | thrown e ↦ thrown e ]

abbrev attach_to : Value → Option Value → Value
attach_to c none = c
attach_to c (some a) = spread c (field "authorizer" a end)

-- The authorizer of a connection, where the map has it.
unfoldable pub attach : Entries → Value → Result Value
unfolding map_get get truthy
attach m c =
    map_ok (λ id. if truthy id then attach_to c (map_get id m) else c) (get "authorizer_id" c)

unfoldable pub get_connections_with_authorizers : Io (List Value)
unfolding ◌>>=◌ logged traverse authorizer_map attach
get_connections_with_authorizers = logged "Error fetching connections with authorizers:" do
  connections ← get_all_connections
  authorizers ← get_all_authorizers
  m ← lift (authorizer_map [] authorizers)
  lift (traverse (attach m) connections)

unfoldable pub get_connection_with_authorizer : String → Io Value
unfolding ◌>>=◌ logged log_error get truthy text
get_connection_with_authorizer connection_id =
    logged ("Error fetching connection " <> connection_id <> " with authorizer:") do
      connection ← get_connection_by_id connection_id
      authorizer_id ← lift (get "authorizer_id" connection)
      if truthy authorizer_id
          then try_catch
              (do
                authorizer ← get_authorizer_by_id (text authorizer_id)
                pure (spread connection (field "authorizer" authorizer end)))
              (λ error. do
                log_error ("Error fetching authorizer for connection " <> connection_id <> ":")
                pure connection)
          else pure connection

unfoldable pub get_authorizer_with_connections : String → Io Value
unfolding ◌>>=◌ logged both
get_authorizer_with_connections authorizer_id =
    logged ("Error fetching authorizer " <> authorizer_id <> " with connections:") do
      (authorizer, connections) ←
          both (get_authorizer_by_id authorizer_id) (get_connections_for_authorizer authorizer_id)
      pure (object (("authorizer", authorizer) ∷ ("connections", array connections) ∷ []))
