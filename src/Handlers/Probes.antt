-- ===== src/Handlers/Probes.antt =====
-- The handlers of internal/handlers/handlers.go that only look: `handlePing`, `handleIP`,
-- `handleHealthz` and `handleReadyz`, with `setNoStore`, `writeJSON` and `unauthorized`.
use go_speedtest.Prelude.{ℕ, Option, none, some, List, [], ◌∷◌, String, if◌then◌else◌}
use go_speedtest.ClientIp.{Addr, is_valid}

-- What a handler answers: its headers, its status and its body, a text or JSON of `A`.
pub data Body (A : Type 0) : Type 0 where
  empty : Body A
  plain : String → Body A
  json : A → Body A

pub record Response (A : Type 0) : Type 0 where
  pub headers : List (String × String)
  pub status : ℕ
  pub body : Body A

-- `setNoStore`
unfoldable pub set_no_store : List (String × String) → List (String × String)
set_no_store headers =
    ("Cache-Control", "no-store, no-cache, must-revalidate, max-age=0")
    ∷ ("Pragma", "no-cache")
    ∷ ("X-Accel-Buffering", "no")
    ∷ headers

-- `writeJSON`
unfoldable pub write_json : {A : Type 0} → List (String × String) → (status : ℕ) → A → Response A
write_json headers status v = record {
  headers = ("Content-Type", "application/json; charset=utf-8") ∷ headers;
  status = status;
  body = json v;
}

-- `unauthorized`, up to the headers of `http.Error`
unfoldable pub unauthorized : Response Unit
unauthorized = record {
  headers = ("WWW-Authenticate", "Bearer") ∷ [];
  status = 401;
  body = plain "unauthorized";
}

-- `handlePing`
unfoldable pub handle_ping : Response Unit
unfolding set_no_store
handle_ping = record { headers = set_no_store []; status = 200; body = empty }

-- `handleIP` of the address that the resolver finds; `text` is `Addr.String`.
unfoldable pub handle_ip : (text : Addr → String) → Addr → Response (List (String × String))
unfolding set_no_store write_json
handle_ip text addr =
    let ip : String = if is_valid addr then text addr else "" in
    write_json (set_no_store []) 200 (("ip", ip) ∷ [])

-- `handleHealthz`
unfoldable pub handle_healthz : Response Unit
unfolding set_no_store
handle_healthz = record { headers = set_no_store []; status = 200; body = plain "ok" }

-- `handleReadyz`, with the buffer of the package payload
unfoldable pub handle_readyz : Option (List ℕ) → Response Unit
unfolding set_no_store
handle_readyz none = record {
  headers = set_no_store [];
  status = 503;
  body = plain "payload not ready";
}
handle_readyz (some buffer) = record {
  headers = set_no_store [];
  status = 200;
  body = plain "ready";
}
