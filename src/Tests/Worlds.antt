-- ===== src/Tests/Worlds.antt =====
-- Worlds with a server and an identity provider that are functions.
use agience.Base.{String, none, some, List, [], ◌∷◌}
use agience.Js.Value.{Value, null, str, object, array}
use agience.Js.Exec.{Exn, Result, ok, thrown}
use agience.World.{OidcCall, Event, World}

abbrev pub offline : Exn
offline = record { name = "AxiosError"; message = "Network Error"; status = none }

abbrev pub not_found : Exn
not_found = record { name = "AxiosError"; message = "Not Found"; status = some 404 }

abbrev pub ada : Value
ada = object (("access_token", str "t1") ∷ [])

abbrev pub signed_in : List Event → OidcCall → Result Value
signed_in _ _ = ok ada

-- A server that says the same to every request.
abbrev pub saying : Result Value → World
saying answer = record {
  env = record { server = λ _ _. answer; identity = signed_in };
  history = [];
}

-- A server that looks only at the address.
abbrev pub serving : (String → Result Value) → World
serving answers = record {
  env = record { server = λ _ r. answers r.call.url; identity = signed_in };
  history = [];
}

-- An identity provider that cannot be reached.
abbrev pub signed_out : World
signed_out = record {
  env = record { server = λ _ _. ok null; identity = λ _ _. thrown offline };
  history = [];
}

-- An agent with a plugin and a topic.
abbrev pub agent : Value
agent = object (
    ("id", str "a1")
    ∷ ("plugins", array (object (("id", str "p1") ∷ []) ∷ []))
    ∷ ("topics", array (object (("id", str "t1") ∷ []) ∷ []))
    ∷ [])
