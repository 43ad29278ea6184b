-- ===== src/Handlers/Recorder.antt =====
-- `statusRecorder` of internal/handlers/handlers.go, whose status `logMW` logs.
use go_speedtest.Handlers.Info.{ep_download, ep_upload, ep_ping, ep_ws}
use go_speedtest.Prelude.{
  str_eq_iff, arith, ◌⊎◌, ◌↔◌, ◌||◌, String, str_eq, ℕ, ◌≡◌, refl, Bool, true, false, not, List, [],
  ◌∷◌, if◌then◌else◌,
}

-- `isPayloadRoute`, which `logMW` logs at debug level only
pub is_payload_route : String → Bool
is_payload_route p =
    str_eq p ep_download || (str_eq p ep_upload || (str_eq p ep_ping || str_eq p ep_ws))

-- What a handler does to its ResponseWriter: `WriteHeader`, `Write`, or `Hijack`, after which the one
-- who took the connection over answers with a status of its own.
pub data Write : Type 0 where
  header : ℕ → Write
  body : Write
  taken_over : (status : ℕ) → Write

pub record StatusRecorder : Type 0 where
  pub status : ℕ
  pub written : Bool

-- `logMW` begins with a 200.
abbrev pub new_recorder : StatusRecorder
new_recorder = record { status = 200; written = false }

-- `WriteHeader`, `Write` and `Hijack`, which leaves no trace
pub observe : StatusRecorder → Write → StatusRecorder
observe r (header code) = if not r.written then record { status = code; written = true } else r
observe r body = record r { written = true }
observe r (taken_over status) = r

pub observe_all : StatusRecorder → List Write → StatusRecorder
observe_all r [] = r
observe_all r (w ∷ ws) = observe_all (observe r w) ws

-- The status on the wire, where every code is a final one (no 1xx): net/http sends that of the first
-- call, 200 for a body or no call at all, and nothing where the connection is taken over.
unfoldable pub wire_status : List Write → ℕ
wire_status [] = 200
wire_status (header code ∷ ws) = code
wire_status (body ∷ ws) = 200
wire_status (taken_over status ∷ ws) = status

-- The handler answers by its ResponseWriter: it does not begin by taking the connection over.
abbrev pub IsAnswered : List Write → Type 0
IsAnswered (taken_over status ∷ ws) = ⊥
IsAnswered ws = Unit

observe_all_written :
    (r : StatusRecorder) (ws : List Write) → r.written ≡ true → (observe_all r ws).status ≡ r.status
unfolding observe_all observe
observe_all_written r [] h = refl
observe_all_written r (header code ∷ ws) h =
    rw h (observe_all_written (record r { written = true }) ws refl)
observe_all_written r (body ∷ ws) h = observe_all_written (record r { written = true }) ws refl
observe_all_written r (taken_over status ∷ ws) h = observe_all_written r ws h

-- The status that is logged is the one that the client got, whatever the handler calls, in
-- whatever order, where every status code that it sets is a final one.
pub observe_all-status :
    (ws : List Write) → IsAnswered ws → (observe_all new_recorder ws).status ≡ wire_status ws
unfolding observe_all observe wire_status
observe_all-status [] a = refl
observe_all-status (header code ∷ ws) a =
    observe_all_written (record { status = code; written = true }) ws refl
observe_all-status (body ∷ ws) a =
    observe_all_written (record { status = 200; written = true }) ws refl
observe_all-status (taken_over status ∷ ws) a = absurd a

-- Where a connection is taken over and nothing else is called, a 200 is logged.
pub observe_all_taken_over :
    (status : ℕ) → (observe_all new_recorder (taken_over status ∷ [])).status ≡ 200
unfolding observe_all observe
observe_all_taken_over status = refl

-- The paths of the payload.
abbrev pub IsPayloadPath : String → Type 0
IsPayloadPath p =
    (p ≡ "/api/v1/download") ⊎ (p ≡ "/api/v1/upload") ⊎ (p ≡ "/api/v1/ping") ⊎ (p ≡ "/api/v1/ws")

pub is_payload_route_iff : (p : String) → (is_payload_route p ≡ true) ↔ IsPayloadPath p
unfolding is_payload_route
is_payload_route_iff p = ground (
  arith,
  str_eq_iff p ep_download,
  str_eq_iff p ep_upload,
  str_eq_iff p ep_ping,
  str_eq_iff p ep_ws,
)
