-- ===== src/Handlers/Socket.antt =====
-- `handleWS` of internal/handlers/handlers.go: the echo loop of a WebSocket connection. The
-- connection of golang.org/x/net/websocket is a parameter. The loop ends only where an operation
-- fails, so that it is followed for a number of rounds.
use go_speedtest.Prelude.{
  ℕ, zero, suc, ◌+◌, ◌≤◌, ◌<◌, ◌≡◌, refl, ap, ◌∙◌, ◌⊎◌, inl, inr, Bool, true, false, not, Option,
  none, some, List, [], ◌∷◌, if◌then◌else◌, arith, length, Option-cases,
}
use go_speedtest.ClientIp.{Bytes}

-- 4 KiB
abbrev pub ws_max_message_bytes : ℕ
ws_max_message_bytes = 4096

-- Round i of the connection: whether the deadlines can be set, the message that is received under a
-- limit of bytes, none for an error, and whether the answer can be sent.
pub record Conn : Type 0 where
  pub sets_read_deadline : ℕ → Bool
  pub receive : (max_payload_bytes i : ℕ) → Option Bytes
  pub sets_write_deadline : ℕ → Bool
  pub sends : ℕ → Bool

-- `Receive` hands out no message over the limit.
pub record IsLimited (conn : Conn) : Type 0 where
  pub within : (max i : ℕ) {m : Bytes} → conn.receive max i ≡ some m → length m ≤ max

module _ (conn : Conn) where
  -- The body of the loop: the message that is sent back, or none where it returns.
  unfoldable pub echo : ℕ → Option Bytes
  echo i =
      if not (conn.sets_read_deadline i) then none else elim (conn.receive ws_max_message_bytes i) [
        | none ↦ none
        | some m ↦
            if not (conn.sets_write_deadline i)
            then none
            else if not (conn.sends i)
            then none
            else some m
      ]

  abbrev pub before : Bytes → List Bytes × Bool → List Bytes × Bool
  before m (ms, r) = (m ∷ ms, r)

  -- The loop from round i on, for `n` rounds at most: what it sends, and whether it has returned.
  unfoldable pub handle_ws : (n i : ℕ) → List Bytes × Bool
  handle_ws zero i = ([], false)
  handle_ws (suc n) i =
      let rest = handle_ws n (suc i) in elim (echo i) [ none ↦ ([], true) | some m ↦ before m rest ]

  -- A message that was received in round i and sent back.
  abbrev pub IsEchoed : ℕ → Bytes → Type 0
  IsEchoed i m =
      (conn.receive ws_max_message_bytes i ≡ some m)
      × (conn.sends i ≡ true)
      × (length m ≤ ws_max_message_bytes)

  -- The messages of the rounds from i on.
  abbrev pub AreEchoed : ℕ → List Bytes → Type 0
  AreEchoed i [] = Unit
  AreEchoed i (m ∷ ms) = IsEchoed i m × AreEchoed (suc i) ms

  echo-some : (limited : IsLimited conn) (i : ℕ) {m : Bytes} → echo i ≡ some m → IsEchoed i m
  unfolding echo
  echo-some limited i h = elim (Option-cases (conn.receive ws_max_message_bytes i)) [
    | inl e ↦ ground (arith, e)
    | inr (m, e) ↦ ground (arith, e, limited.within ws_max_message_bytes i e)
  ]

  handle_ws_from :
      (limited : IsLimited conn) (n i : ℕ)
      → let (sent, over) = handle_ws n i in
        AreEchoed i sent
        × (((over ≡ false) × (length sent ≡ n))
            ⊎ ((over ≡ true) × (length sent < n) × (echo (length sent + i) ≡ none)))
  unfolding handle_ws
  handle_ws_from limited zero i = (tt, inl (refl, refl))
  handle_ws_from limited (suc n) i = elim (Option-cases (echo i)) [
    | inl e ↦ rw (e, handle_ws) (tt, inr (refl, omega arith, ap echo (omega arith) ∙ e))
    | inr (m, e) ↦
        let (es, o) = handle_ws_from limited n (suc i) in
        rw (e, handle_ws)
          (
            (echo-some limited i e, es),
            elim o [
              | inl (r, l) ↦ inl (r, ap suc l)
              | inr (r, l, f) ↦ inr (r, omega arith, ap echo (omega arith) ∙ f)
            ],
          )
  ]

  pub handle_ws_lem :
      (limited : IsLimited conn) (n : ℕ)
      → let (sent, over) = handle_ws n 0 in
        AreEchoed 0 sent
        × (((over ≡ false) × (length sent ≡ n))
            ⊎ ((over ≡ true) × (length sent < n) × (echo (length sent) ≡ none)))
  handle_ws_lem limited n =
      let (es, o) = handle_ws_from limited n 0 in
      (es, elim o [ inl c ↦ inl c | inr (r, l, f) ↦ inr (r, l, ap echo (omega arith) ∙ f) ])
