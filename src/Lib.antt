-- ===== src/Lib.antt =====
-- The management UI of Agience, core/authority/manage-ui.
--
-- The UI is a React program that talks to the management API of an authority. Its services turn each
-- operation into HTTP requests, its components keep a state, call the services from their handlers
-- and report what came of it, and its sign-in guards both. This library models the services, the
-- sign-in and the larger components as functions on explicit states.
--
-- The files, and the code they model (paths below core/authority/manage-ui):
--   Base, Js         names shared by all; the values of JavaScript, truthiness, property access, spread,
--                    and asynchronous functions that may throw (Js/Exec: `Exec`, try, catch, finally,
--                    Promise.all)
--   World            what the program sees outside: the server behind axios, the OpenID client, the
--                    console, the address bar and the local storage, with the history of events
--   Client           src/services/api/config.ts: the client with its interceptor
--   Trace            the requests in a history, and what runs send (no code of its own)
--   Services         src/services/api/*.ts and src/services/endpoints/authService.ts; a module for each
--                    service, `getAgentById` is `get_agent_by_id`. dataService is Services/Joined
--   Ui               src/components: agents/AgentTopicsTab, agents/AgentPluginsTab, hosts/HostKeys,
--                    hosts/HostPlugins, plugins/PluginFunctionsTab, topics/TopicAgentsTab (TopicAgents),
--                    settings/ConnectionsTab (Connections), settings/ConnectionForm, hosts/HostDetailsTab
--                    with hosts/HostModal (Hosts), agents/AgentDetailsTab, plugins/PluginDetailsTab,
--                    settings/AuthorizersTab (Authorizers), topics/TopicDetails, agents/AgentCredentialsTab, five forms
--                    (Forms), and the searches filterTopics, filterPlugins and filterAgents (Search). A component's
--                    `useState` cells are the record `View`, and a handler `handleX` is `handle_x`. Ui/Unassigned,
--                    Ui/Loading and Ui/Settling are about several components, and Ui/Keeps has the rules by which a
--                    handler keeps a property of the state (no code of its own)
--   Html             the trees of elements that components show, and their events (Html/Events: what every event
--                    satisfies, Html/Contains: that there is one; no code of its own)
--   Ui/Common        src/components/common: Button, Badge, Card, FormField, ConfirmationModal, NotificationModal,
--                    DataTable, Table and TabNavigation
--   Ui/Lists         agents/AgentList, hosts/HostList, plugins/PluginList, settings/ConnectionList, AuthorizerList
--   Ui/Tables        hosts/HostTable, plugins/PluginTable, topics/TopicTable (Preview has their descriptions)
--   Ui/Cards, Ui/KeyDetails   agents/plugins/PluginCard, agents/topics/TopicCard, hosts/KeyDetailsModal
--   Ui/X/Page        what a component shows: agents/AgentPluginsTab, hosts/HostKeys, hosts/HostPlugins,
--                    plugins/PluginFunctionsTab, topics/TopicDetails, settings/ConnectionsTab and AuthorizersTab
--                    (both in Ui/SettingsTabs). Their forms are the FormPage beside them, with what three forms
--                    share in Ui/Forms/Parts, and the details that they show are Ui/Details (settings/
--                    ConnectionDetails and AuthorizerDetails). An `Action` is a handler with what it closes over,
--                    and `perform` is what it does. What a form does to its own state is in Forms
--   Ui/Dispatch, Ui/Effects   what the handlers of an event send, one after another (no code of its own)
--   Pages            src/pages/Agent.tsx and Topic.tsx (Pages/Tabs), Settings.tsx, Plugins.tsx, Hosts.tsx: the
--                    state that follows the query of the address. A tab that is handed a page's handlers as props has
--                    the page's state in its own (`within`)
--   Auth             src/auth/AuthProvider.tsx and ProtectedRoute.tsx (Auth/Provider),
--                    src/pages/AuthCallback.tsx, src/hooks/useAuth.ts (Auth/TokenLogin)
--   StartVite        start-vite.js
--   Tests            runs in small worlds
--
-- How code and model correspond. A service function is a function of the world, with its result or
-- the error it throws. The server and the OpenID client are functions of the whole history, so they
-- may answer anything at any time. A rejected promise is an `Exn` with the status of the response, if
-- there is one. Addresses stand relative to the client's baseURL, and headers other than
-- `Authorization` are constant and left out. A number stands by the text that `String(n)` gives. A line
-- on the console has its message and not its further arguments. An absent id is the empty text: the
-- code tests both alike. A handler is given the state of the render that made it, as its closure reads
-- that, beside the current state that its `set…` calls change.
--
-- What is shown. A component returns a tree of elements with their attributes and handlers, or throws, and
-- then React takes the page away. Class names, icons, sizes, keys and layout are left out, save that
-- `marked` is a class that tells an item from the others. An event is a click on an element, which runs its
-- handler and those around it up to one that stops it, a new value of an input, or the submission of a
-- form, whether or not its button is enabled; a disabled element has none. The texts of dates, the lower
-- case of a text, and the clipboard are parameters.
--
-- Bounds. There is no fuel: every loop of the code runs over a list that has been fetched, and is
-- structural recursion.
--
-- Not modelled. A handler runs to its end, so two handlers do not interleave at an `await`, except in
-- Ui/AgentCredentials, where every answer is a step of its own; Promise.all
-- runs its calls in their order, and a call that is not awaited runs after its handler. An object with a `length`
-- of its own is not iterated. What the other components show, the layout with its navigation, the components that
-- no file imports, the build configuration, the vendored copies of Bootstrap and
-- jQuery, and the programs in C# and Python are left out.
pub mod Base
pub mod Js
pub mod World
pub mod Client
pub mod Trace
pub mod Services
pub mod Html
pub mod Ui
pub mod Pages
pub mod Auth
pub mod StartVite
pub mod Tests
