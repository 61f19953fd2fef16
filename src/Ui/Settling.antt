-- ===== src/Ui/Settling.antt =====
-- Whatever the server answers, what a component fetches when it is shown comes to an end: it throws
-- nothing, and the component is no longer loading.
use agience.Base.{String, Bool, false, ◌≡◌, refl, ap, ◌∙◌}
use agience.Js.Exec.{Exn, Result, ok, thrown, try_catch, try_finally, handle, settle, ◌>>=◌}
use agience.Ui.{Mounted, Ui, update}
use agience.Ui.AgentDetails
use agience.Ui.Hosts
use agience.Ui.TopicDetails
use agience.Ui.PluginDetails
use agience.Ui.Connections
use agience.Ui.Authorizers
use agience.Pages.Plugins

pub record Settles {V : Type 0} (loading : V → Bool) (m : Ui V (Unit {0})) : Type 0 where
  returns : (s : Mounted V) → (m s).0 ≡ ok tt
  idle : (s : Mounted V) → loading (m s).1.view ≡ false

module _ {V : Type 0} (loading : V → Bool) where
  caught :
      (r : Result (Unit {0})) (h : Exn → Ui V (Unit {0})) (s : Mounted V)
      → ((e : Exn) (t : Mounted V) → (h e t).0 ≡ ok tt)
      → (handle r h s).0 ≡ ok tt
  caught (ok _) h s k = refl
  caught (thrown e) h s k = k e s

  last :
      (r : Result (Unit {0})) (q : Result (Unit {0}) × Mounted V)
      → r ≡ ok tt
      → q.0 ≡ ok tt
      → ((settle r q).0 ≡ ok tt) × ((settle r q).1 ≡ q.1)
  last r (ok _, s) h k = (h, refl)
  last r (thrown e, s) h k = cc

  module _ (m : Ui V (Unit {0})) (h : Exn → Ui V (Unit {0})) (f : Ui V (Unit {0}))
      (kh : (e : Exn) (t : Mounted V) → (h e t).0 ≡ ok tt) (kf : (t : Mounted V) → (f t).0 ≡ ok tt)
      (off : (t : Mounted V) → loading (f t).1.view ≡ false) where
    settled :
        (s : Mounted V)
        → ((try_finally (try_catch m h) f s).0 ≡ ok tt)
          × ((try_finally (try_catch m h) f s).1 ≡ (f (try_catch m h s).1).1)
    unfolding ◌>>=◌
    settled s =
        let q = handle (m s).0 h (m s).1 in last q.0 (f q.1) (caught (m s).0 h (m s).1 kh) (kf q.1)

    -- `try { … } catch (error) { … } finally { setIsLoading(false); }`, where the handler throws
    -- nothing.
    Settles-try : Settles loading (try_finally (try_catch m h) f)
    Settles-try = record {
      returns = λ s. (settled s).0;
      idle = λ s. ap (λ t. loading t.view) (settled s).1 ∙ off (try_catch m h s).1;
    }

module _ (id : String) where
  pub record Settled : Type 0 where
    agents : Settles (λ v. v.is_loading) AgentDetails.fetch_agents
    hosts : Settles (λ v. v.is_loading) Hosts.fetch_hosts
    topics : Settles (λ v. v.is_loading) (TopicDetails.fetch_topics id)
    plugin : Settles (λ v. v.is_loading) (PluginDetails.fetch_plugin_details id)
    plugins : Settles (λ v. v.is_loading) Plugins.fetch_plugins
    connections : Settles (λ v. v.is_loading) Connections.fetch_connections
    connection : Settles (λ v. v.is_loading) (Connections.fetch_connection_details id)
    authorizers : Settles (λ v. v.is_loading) Authorizers.fetch_authorizers
    authorizer : Settles (λ v. v.is_loading) (Authorizers.fetch_authorizer_details id)

  -- Whatever the server answers and in whatever state they start, these nine functions that fetch
  -- what a component shows throw nothing, and leave the component no longer loading.
  pub fetches-Settled : Settled
  unfolding update AgentDetails.set_loading TopicDetails.set_loading PluginDetails.set_loading
      Connections.set_loading Authorizers.set_loading AgentDetails.fetch_agents Hosts.fetch_hosts
      TopicDetails.fetch_topics PluginDetails.fetch_plugin_details Plugins.fetch_plugins
      Connections.fetch_connections Connections.fetch_connection_details
      Authorizers.fetch_authorizers Authorizers.fetch_authorizer_details
  fetches-Settled = record {
    agents =
        Settles-try _ _ _ (AgentDetails.set_loading false) (λ e t. refl) (λ t. refl) (λ t. refl);
    hosts =
        Settles-try _ _ _ (update (λ v. record v { is_loading = false })) (λ e t. refl) (λ t. refl)
          (λ t. refl);
    topics =
        Settles-try _ _ _ (TopicDetails.set_loading false) (λ e t. refl) (λ t. refl) (λ t. refl);
    plugin =
        Settles-try _ _ _ (PluginDetails.set_loading false) (λ e t. refl) (λ t. refl) (λ t. refl);
    plugins =
        Settles-try _ _ _ (update (λ v. record v { is_loading = false })) (λ e t. refl) (λ t. refl)
          (λ t. refl);
    connections =
        Settles-try _ _ _ (Connections.set_loading false) (λ e t. refl) (λ t. refl) (λ t. refl);
    connection =
        Settles-try _ _ _ (Connections.set_loading false) (λ e t. refl) (λ t. refl) (λ t. refl);
    authorizers =
        Settles-try _ _ _ (Authorizers.set_loading false) (λ e t. refl) (λ t. refl) (λ t. refl);
    authorizer =
        Settles-try _ _ _ (Authorizers.set_loading false) (λ e t. refl) (λ t. refl) (λ t. refl);
  }
