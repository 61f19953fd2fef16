-- ===== src/Ui/AgentDetails.antt =====
-- authority/manage-ui/src/components/agents/AgentDetailsTab.tsx: the state, what is fetched, and the
-- handlers that send no request. Saving and deleting have child modules.
pub mod Deleting
pub mod Deleted
pub mod Saving
pub mod Saved
pub mod SaveSteps
pub mod SaveRequests
pub mod Warning
pub mod Resaved
use agience.Base.{String, Bool, true, false, not, List, [], ◌∷◌, ◌&&◌, ◌<>◌, ◌==◌}
use agience.Js.Value.{
  Value, null, bool, str, end, field, get, get?, truthy, or_else, array, object, spread, text,
}
use agience.Js.Exec.{Result, lift, try_catch, try_finally, when, both, map_ok, ◌>>=◌, ◌>>◌}
use agience.World.{log, log_error, emit, set_search}
use agience.Ui.{Ui, update, io, Kind, error, Notification, no_notification, opened}
use agience.Services.Agents.{get_all_agents, get_agent_by_id}
use agience.Services.Hosts.{get_all_hosts}

-- The `type` of the confirmation is always `danger`.
pub record Confirmation : Type 0 where
  pub is_open : Bool
  pub title : String
  pub message : String

abbrev pub empty_form : Value
empty_form = object (
    ("name", str "")
    ∷ ("description", str "")
    ∷ ("persona", null)
    ∷ ("hostId", null)
    ∷ ("executiveFunctionId", null)
    ∷ ("is_enabled", bool false)
    ∷ [])

-- The selected agent and the temporary id are `null` at first.
pub record View : Type 0 where
  pub agents : List Value
  pub hosts : List Value
  pub selected_agent : Value
  pub is_loading : Bool
  pub temp_agent_id : Value
  pub form_data : Value
  pub notification : Notification
  pub confirmation : Confirmation

abbrev pub initial : View
initial = record {
  agents = [];
  hosts = [];
  selected_agent = null;
  is_loading = true;
  temp_agent_id = null;
  form_data = empty_form;
  notification = no_notification;
  confirmation = record { is_open = false; title = ""; message = "" };
}

unfoldable pub set_loading : Bool → Ui View (Unit {0})
unfolding update
set_loading b = update λ v. record v { is_loading = b }

unfoldable pub set_agents : List Value → Ui View (Unit {0})
unfolding update
set_agents agents = update λ v. record v { agents = agents }

unfoldable pub select_agent : Value → Ui View (Unit {0})
unfolding update
select_agent agent = update λ v. record v { selected_agent = agent }

unfoldable pub set_temp_agent : Value → Ui View (Unit {0})
unfolding update
set_temp_agent id = update λ v. record v { temp_agent_id = id }

unfoldable pub set_form : Value → Ui View (Unit {0})
unfolding update
set_form form = update λ v. record v { form_data = form }

unfoldable pub show_notification : String → String → Kind → Ui View (Unit {0})
unfolding update
show_notification title message kind =
    update λ v. record v { notification = opened title message kind }

unfoldable pub close_notification : Ui View (Unit {0})
unfolding update
close_notification =
    update λ v. record v { notification = record v.notification { is_open = false } }

unfoldable pub fetch_agents : Ui View (Unit {0})
unfolding set_loading set_agents io log_error ◌>>=◌
fetch_agents =
    try_finally
      (try_catch (do set_loading true; agent_list ← io get_all_agents; set_agents agent_list)
        (λ e. io (log_error "Error fetching agents:")))
      (set_loading false)

-- The form of an agent. Only an agent that is `null` or `undefined` has none.
unfoldable pub form_of : Value → Result Value
unfolding get get? truthy
form_of agent =
    map_ok
      (λ name. object (
        ("name", name)
        ∷ ("description", get? "description" agent)
        ∷ ("persona", get? "persona" agent)
        ∷ ("hostId", or_else (get? "hostId" agent) null)
        ∷ ("executiveFunctionId", get? "executiveFunctionId" agent)
        ∷ ("is_enabled", get? "is_enabled" agent)
        ∷ []))
      (get "name" agent)

-- `setSelectedAgent(agent); setFormData({ … })`
unfoldable pub show_agent : Value → Ui View (Unit {0})
unfolding select_agent set_form ◌>>=◌
show_agent agent = do select_agent agent; form ← lift (form_of agent); set_form form

unfoldable pub fetch_agent_details : String → Ui View (Unit {0})
unfolding show_agent io emit log_error ◌>>=◌
fetch_agent_details id =
    try_catch
      (do
        agent ← io (get_agent_by_id id)
        show_agent agent
        io (emit (set_search (("id", text (get? "id" agent)) ∷ []))))
      (λ e. io (log_error "Error fetching agent details:"))

-- The effect of the mount, and of a new id in the address or a new temporary one.
unfoldable pub fetch_initial_data : String → View → Ui View (Unit {0})
unfolding set_loading update show_agent show_notification io log_error both truthy ◌>>=◌
fetch_initial_data agent_id c = do
  set_loading true
  try_finally
      (try_catch
        (do
          (agent_list, host_list) ← both (io get_all_agents) (io get_all_hosts)
          update (λ v. record v { agents = agent_list })
          update (λ v. record v { hosts = host_list })
          when (not (agent_id == "") && not (truthy c.temp_agent_id))
              (do agent ← io (get_agent_by_id agent_id); show_agent agent))
        (λ e. do
          io (log_error "Error fetching initial data:")
          show_notification "Error" "Failed to load data" error))
      (set_loading false)

unfoldable pub handle_select_agent : View → String → Ui View (Unit {0})
unfolding set_temp_agent fetch_agent_details truthy ◌>>=◌
handle_select_agent c id = do
  when (truthy c.temp_agent_id) (set_temp_agent null)
  fetch_agent_details id

-- What the clock says: `Date.now()`, and the two dates in the order in which they are made.
pub record Moment : Type 0 where
  pub now : String
  pub created : String
  pub owner_created : String

unfoldable pub temp_agent : Moment → Value
temp_agent t = object (
    ("id", str ("temp-" <> t.now))
    ∷ ("name", str "New Agent")
    ∷ ("description", str "")
    ∷ ("persona", null)
    ∷ ("hostId", null)
    ∷ ("executiveFunctionId", null)
    ∷ ("is_enabled", bool false)
    ∷ ("created_date", str t.created)
    ∷ ("autoStartFunctionId", null)
    ∷ ("onAutoStartFunctionComplete", null)
    ∷ ("owner_id", str "")
    ∷ (
      "owner",
      object (("id", str "") ∷ ("name", str "") ∷ ("created_date", str t.owner_created) ∷ []),
    )
    ∷ ("host", null)
    ∷ ("executiveFunction", null)
    ∷ ("autoStartFunction", null)
    ∷ ("is_connected", bool false)
    ∷ ("topics", array [])
    ∷ ("plugins", array [])
    ∷ [])

unfoldable pub handle_create_agent : Moment → Ui View (Unit {0})
unfolding set_temp_agent select_agent set_form temp_agent io emit ◌>>=◌
handle_create_agent t = do
  set_temp_agent (str ("temp-" <> t.now))
  select_agent (temp_agent t)
  set_form empty_form
  io (emit (set_search []))

-- A checkbox hands over whether it is checked, any other input its value.
pub data Input : Type 0 where
  checkbox : Bool → Input
  field_value : String → Input

unfoldable pub handle_input_change : String → Input → Ui View (Unit {0})
unfolding update io log spread ◌>>=◌
handle_input_change name (checkbox checked) = do
  update (λ v. record v { form_data = spread v.form_data (field name (bool checked) end) })
  io (log ("Checkbox " <> name <> " changed to:"))
handle_input_change name (field_value value) = do
  update (λ v. record v { form_data = spread v.form_data (field name (str value) end) })
  io (log ("Field " <> name <> " changed to:"))

unfoldable pub show_delete_confirmation : Value → Ui View (Unit {0})
unfolding update get text ◌>>=◌
show_delete_confirmation agent = do
  name ← lift (get "name" agent)
  update (λ v. record v {
    confirmation = record {
      is_open = true;
      title = "Delete Agent";
      message =
          "Are you sure you want to delete the agent \""
          <> text name
          <> "\"? This action cannot be undone.";
    };
  })

unfoldable pub close_confirmation : Ui View (Unit {0})
unfolding update
close_confirmation =
    update λ v. record v { confirmation = record v.confirmation { is_open = false } }
