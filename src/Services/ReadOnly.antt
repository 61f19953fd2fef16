-- ===== src/Services/ReadOnly.antt =====
-- The functions of the services that fetch something send only GET requests.
use agience.Base.{◌≡◌, String}
use agience.World.{Call, http_get}
use agience.Trace.Sends.{Sends, sends_rules}
use agience.Services.Joined
use agience.Services.Functions
use agience.Services.Authorizers
use agience.Services.Connections

abbrev pub IsRead : Call → Type 0
IsRead c = c.method ≡ http_get

pub get_executive_functions-reads : Sends (λ w. w) IsRead Functions.get_executive_functions
unfolding Functions.get_executive_functions Functions.get_all_functions
get_executive_functions-reads = search sends_rules depth 9

pub get_all_connections-reads : Sends (λ w. w) IsRead Connections.get_all_connections
unfolding Connections.get_all_connections
get_all_connections-reads = search sends_rules depth 9

pub get_connection_by_id-reads :
    (id : String) → Sends (λ w. w) IsRead (Connections.get_connection_by_id id)
unfolding Connections.get_connection_by_id
get_connection_by_id-reads id = search sends_rules depth 9

pub get_all_authorizers-reads : Sends (λ w. w) IsRead Authorizers.get_all_authorizers
unfolding Authorizers.get_all_authorizers
get_all_authorizers-reads = search sends_rules depth 9

pub get_authorizer_by_id-reads :
    (id : String) → Sends (λ w. w) IsRead (Authorizers.get_authorizer_by_id id)
unfolding Authorizers.get_authorizer_by_id
get_authorizer_by_id-reads id = search sends_rules depth 9

pub get_connections_for_authorizer-reads :
    (id : String) → Sends (λ w. w) IsRead (Authorizers.get_connections_for_authorizer id)
unfolding Authorizers.get_connections_for_authorizer
get_connections_for_authorizer-reads id = search sends_rules depth 9

pub get_connections_with_authorizers-reads :
    Sends (λ w. w) IsRead Joined.get_connections_with_authorizers
unfolding Joined.get_connections_with_authorizers
get_connections_with_authorizers-reads =
    search (sends_rules, get_all_connections-reads, get_all_authorizers-reads) depth 9

pub get_connection_with_authorizer-reads :
    (id : String) → Sends (λ w. w) IsRead (Joined.get_connection_with_authorizer id)
unfolding Joined.get_connection_with_authorizer
get_connection_with_authorizer-reads id =
    search (sends_rules, get_connection_by_id-reads, get_authorizer_by_id-reads) depth 9

pub get_authorizer_with_connections-reads :
    (id : String) → Sends (λ w. w) IsRead (Joined.get_authorizer_with_connections id)
unfolding Joined.get_authorizer_with_connections
get_authorizer_with_connections-reads id =
    search (sends_rules, get_authorizer_by_id-reads, get_connections_for_authorizer-reads) depth 9

-- The three functions of `dataService` send only GET requests, whatever the server answers.
pub data_service_reads :
    (connection_id authorizer_id : String)
    → Sends (λ w. w) IsRead Joined.get_connections_with_authorizers
      × Sends (λ w. w) IsRead (Joined.get_connection_with_authorizer connection_id)
      × Sends (λ w. w) IsRead (Joined.get_authorizer_with_connections authorizer_id)
data_service_reads connection_id authorizer_id = (
  get_connections_with_authorizers-reads,
  get_connection_with_authorizer-reads connection_id,
  get_authorizer_with_connections-reads authorizer_id,
)
