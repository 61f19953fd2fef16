-- ===== src/Services/Deletion.antt =====
-- The order in which `deleteAgent` takes an agent apart.
use agience.Base.{String, List, [], ◌∷◌, ◌++◌, ◌≡◌, ◌<>◌}
use agience.Js.Value.{Value, get, get?, get-eq-get?, iterated, text}
use agience.Js.Exec.{ok, for_each}
use agience.World.{Call, World}
use agience.Client.{get_call, delete_call}
use agience.Services.Agents.{get_agent_by_id, with_image, remove_plugin, remove_topic, delete_agent}
use agience.Services.AgentPlugins.{remove_plugin_from_agent}
use agience.Services.AgentTopics.{remove_topic_from_agent}
use agience.Trace.Follows.{Follows, Follows-bind, Follows-logged, Follows-lift, Follows-send}

-- The calls that take one item of a list from the agent: its id goes into the URL.
abbrev pub plugin_removals : String → List Value → List Call
plugin_removals id [] = []
plugin_removals id (p ∷ ps) =
    delete_call ("/manage/agent/" <> id <> "/plugin/" <> text (get? "id" p)) ∷ plugin_removals id ps

abbrev pub topic_removals : String → List Value → List Call
topic_removals id [] = []
topic_removals id (t ∷ ts) =
    delete_call ("/manage/agent/" <> id <> "/topic/" <> text (get? "id" t)) ∷ topic_removals id ts

module _ (id : String) where
  remove_plugin_from_agent-Follows :
      (pid : String) (w : World)
      → Follows
          (delete_call ("/manage/agent/" <> id <> "/plugin/" <> pid) ∷ [])
          (remove_plugin_from_agent id pid)
          w
  unfolding remove_plugin_from_agent
  remove_plugin_from_agent-Follows pid w =
      Follows-logged _ _ w
        (Follows-bind [] _ _ w (Follows-send _ w) (λ _ _. Follows-lift (ok tt) _))

  remove_topic_from_agent-Follows :
      (tid : String) (w : World)
      → Follows
          (delete_call ("/manage/agent/" <> id <> "/topic/" <> tid) ∷ [])
          (remove_topic_from_agent id tid)
          w
  unfolding remove_topic_from_agent
  remove_topic_from_agent-Follows tid w = Follows-logged _ _ w (Follows-send _ w)

  remove_plugin-Follows :
      (p : Value) (w : World) → Follows (plugin_removals id (p ∷ [])) (remove_plugin id p) w
  unfolding remove_plugin
  remove_plugin-Follows p w =
      Follows-bind _ _ _ w (Follows-lift (get "id" p) w) λ pid read.
        rw (← get-eq-get? "id" p pid read) (remove_plugin_from_agent-Follows (text pid) w)

  remove_topic-Follows :
      (t : Value) (w : World) → Follows (topic_removals id (t ∷ [])) (remove_topic id t) w
  unfolding remove_topic
  remove_topic-Follows t w = Follows-bind _ _ _ w (Follows-lift (get "id" t) w) λ tid read.
      rw (← get-eq-get? "id" t tid read) (
        Follows-bind [] _ _ w (remove_topic_from_agent-Follows (text tid) w)
          (λ _ _. Follows-lift (ok tt) _))

  plugins-Follows :
      (ps : List Value) (w : World)
      → Follows (plugin_removals id ps) (for_each (remove_plugin id) ps) w
  unfolding for_each
  plugins-Follows [] w = Follows-lift (ok tt) w
  plugins-Follows (p ∷ ps) w =
      Follows-bind (plugin_removals id ps) _ _ w (remove_plugin-Follows p w)
        (λ _ _. plugins-Follows ps _)

  topics-Follows :
      (ts : List Value) (w : World)
      → Follows (topic_removals id ts) (for_each (remove_topic id) ts) w
  unfolding for_each
  topics-Follows [] w = Follows-lift (ok tt) w
  topics-Follows (t ∷ ts) w =
      Follows-bind (topic_removals id ts) _ _ w (remove_topic-Follows t w)
        (λ _ _. topics-Follows ts _)

  get_agent_by_id-Follows :
      (w : World) → Follows (get_call ("/manage/agent/" <> id) ∷ []) (get_agent_by_id id) w
  unfolding get_agent_by_id
  get_agent_by_id-Follows w = Follows-logged _ _ w (
      Follows-bind [] _ _ w (Follows-send _ w) (λ response _. Follows-lift (with_image response) _))

-- What `deleteAgent` sends once it has fetched the agent.
abbrev pub deletion_plan : String → Value → List Call
deletion_plan id agent =
    get_call ("/manage/agent/" <> id) ∷ []
    ++ (plugin_removals id (iterated (get? "plugins" agent))
        ++ (topic_removals id (iterated (get? "topics" agent))
            ++ delete_call ("/manage/agent/" <> id) ∷ []))

-- Once `deleteAgent` has fetched the agent, it sends the calls of its plan in order, each once: a
-- DELETE for each of the agent's plugins, then one for each of its topics, then the one for the
-- agent itself. It sends nothing after a call that was refused. If it returns, it has sent the
-- whole plan and no call was refused.
pub delete_agent-Follows :
    (id : String) (w : World) (agent : Value)
    → (get_agent_by_id id w).0 ≡ ok agent
    → Follows (deletion_plan id agent) (delete_agent id) w
unfolding delete_agent
delete_agent-Follows id w agent fetched = Follows-logged _ _ w (
    Follows-bind _ _ _ w (get_agent_by_id-Follows id w) λ a same.
      let e : agent ≡ a = cc in
      rw e (
        Follows-bind _ _ _ _ (Follows-lift (get "plugins" a) _) λ plugins read.
          rw (← get-eq-get? "plugins" a plugins read) (
            Follows-bind _ _ _ _ (plugins-Follows id (iterated plugins) _) λ _ _.
              Follows-bind _ _ _ _ (Follows-lift (get "topics" a) _) λ topics read'.
                rw (← get-eq-get? "topics" a topics read') (
                  Follows-bind _ _ _ _ (topics-Follows id (iterated topics) _) λ _ _.
                    Follows-bind [] _ _ _ (Follows-send _ _) (λ _ _. Follows-lift (ok tt) _)))))
