-- ===== src/Trace.antt =====
-- What a run leaves in the history.
pub mod Sends
pub mod Follows
use agience.Base.{List, [], ◌∷◌, ◌≡◌, arith}
use agience.World.{
  Call, Event, request, oidc, console_log, console_error, set_location, navigated, set_item,
  set_search, remove_item, World,
}
use agience.Client.{authorization, send}

-- The calls among the events, in their order: the newest first.
abbrev pub calls : List Event → List Call
calls [] = []
calls (request r ∷ es) = r.call ∷ calls es
calls (oidc _ ∷ es) = calls es
calls (console_log _ ∷ es) = calls es
calls (console_error _ ∷ es) = calls es
calls (set_location _ ∷ es) = calls es
calls (navigated _ _ ∷ es) = calls es
calls (set_search _ ∷ es) = calls es
calls (set_item _ _ ∷ es) = calls es
calls (remove_item _ ∷ es) = calls es

-- All calls that have been sent, the newest first.
abbrev pub sent : World → List Call
sent w = calls w.history

pub sent-authorization : (w : World) → sent (authorization w).1 ≡ sent w
unfolding authorization
sent-authorization w = ground arith

-- A call through the client is sent once, whatever becomes of it.
pub sent-send : (c : Call) (w : World) → sent (send c w).1 ≡ c ∷ sent w
unfolding send
sent-send c w = ground arith
