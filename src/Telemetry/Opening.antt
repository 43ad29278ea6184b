-- ===== src/Telemetry/Opening.antt =====
-- `NewSQLite` and `Close` of internal/telemetry/sqlite.go and `newID` of internal/telemetry/telemetry.go.
use Prim.Native.String.{◌++◌ as concat}
use mathlib.Core.Path.{ap₂}
use go_speedtest.Prelude.{
  ℕ, ◌+◌, ◌-◌, ◌*◌, ◌/◌, ◌%◌, ◌≤◌, ◌<◌, ◌≡◌, refl, ◌≢◌, Option, none, some, List, [], ◌∷◌, String,
  if◌then◌else◌, arith, length, All, ltb, ◌⊎◌,
}

-- The package database/sql: `sql.Open`, `SetMaxOpenConns` and the execution of the schema, none for
-- an error.
pub record Driver (Db : Type 0) : Type 0 where
  pub connect : (dsn : String) → Option Db
  pub set_max_open_conns : Db → ℕ → Db
  pub exec_schema : Db → Option Db

-- What `NewSQLite` leaves: no database, one that it has closed again, or the open one of the store.
pub data Opened (Db : Type 0) : Type 0 where
  unopened : Opened Db
  closed_again : Db → Opened Db
  opened : Db → Opened Db

unfoldable pub dsn_of : (path : String) → String
dsn_of path = concat "file:" (
    concat path (
      concat "?_pragma=journal_mode(WAL)"
        (concat "&_pragma=busy_timeout(5000)" "&_pragma=synchronous(NORMAL)")))

abbrev pub initialised : {Db : Type 0} → Db → Option Db → Opened Db
initialised db none = closed_again db
initialised db (some ready) = opened ready

abbrev pub limited : {Db : Type 0} → Driver Db → Option Db → Opened Db
limited d none = unopened
limited d (some db) = let one : _ = d.set_max_open_conns db 1 in initialised one (d.exec_schema one)

-- `NewSQLite`
unfoldable pub new_sqlite : {Db : Type 0} → Driver Db → (path : String) → Opened Db
unfolding dsn_of
new_sqlite d path = limited d (d.connect (dsn_of path))

-- A digit of `hex.EncodeToString`
unfoldable pub hex_digit : ℕ → ℕ
hex_digit n = if ltb n 10 then b'0' + n else b'a' + (n - 10)

-- `hex.EncodeToString`
unfoldable pub encode_hex : List ℕ → List ℕ
unfolding hex_digit
encode_hex [] = []
encode_hex (b ∷ bs) = hex_digit (b / 16) ∷ hex_digit (b % 16) ∷ encode_hex bs

-- `newID`, of the 16 bytes of `rand.Read`, none on an error
unfoldable pub new_id : Option (List ℕ) → Option (List ℕ)
unfolding encode_hex
new_id none = none
new_id (some b) = some (encode_hex b)

abbrev pub IsByte : ℕ → Type 0
IsByte b = b < 256

abbrev pub IsHex : ℕ → Type 0
IsHex c = ((b'0' ≤ c) × (c ≤ b'9')) ⊎ ((b'a' ≤ c) × (c ≤ b'f'))

hex_digit-IsHex : (n : ℕ) → n < 16 → IsHex (hex_digit n)
unfolding hex_digit
hex_digit-IsHex n h = ground arith

hex_digit_inj : (m n : ℕ) → m < 16 → n < 16 → hex_digit m ≡ hex_digit n → m ≡ n
unfolding hex_digit
hex_digit_inj m n h k e = ground arith

encode_hex-IsHex :
    (bs : List ℕ)
    → All IsByte bs
    → All IsHex (encode_hex bs) × (length (encode_hex bs) ≡ 2 * length bs)
unfolding encode_hex
encode_hex-IsHex [] h = (tt, refl)
encode_hex-IsHex (b ∷ bs) (h, hs) =
    let (d, l) = encode_hex-IsHex bs hs in
    (
      (hex_digit-IsHex (b / 16) (omega arith), (hex_digit-IsHex (b % 16) (omega arith), d)),
      omega arith,
    )

encode_hex_inj :
    (xs ys : List ℕ) → All IsByte xs → All IsByte ys → encode_hex xs ≡ encode_hex ys → xs ≡ ys
unfolding encode_hex
encode_hex_inj [] [] h k e = refl
encode_hex_inj [] (y ∷ ys) h k e = cc
encode_hex_inj (x ∷ xs) [] h k e = cc
encode_hex_inj (x ∷ xs) (y ∷ ys) (h, hs) (k, ks) e =
    let hi = hex_digit_inj (x / 16) (y / 16) (omega arith) (omega arith) (cc e) in
    let lo = hex_digit_inj (x % 16) (y % 16) (omega arith) (omega arith) (cc e) in
    let same : x ≡ y = omega arith in ap₂ (λ z zs. z ∷ zs) same (encode_hex_inj xs ys hs ks (cc e))

-- An identifier of the stores is 32 hexadecimal digits, from the 16 bytes that it is made of, and
-- from different bytes come different identifiers.
pub new_id_lem :
    (xs ys : List ℕ)
    → All IsByte xs
    → All IsByte ys
    → length xs ≡ 16
    → xs ≢ ys
    → ((id : List ℕ) × (new_id (some xs) ≡ some id) × (length id ≡ 32) × All IsHex id)
      × (new_id (some xs) ≢ new_id (some ys))
unfolding new_id
new_id_lem xs ys h k l d =
    let (digits, n) = encode_hex-IsHex xs h in
    ((encode_hex xs, refl, omega arith, digits), λ e. d (encode_hex_inj xs ys h k (cc e)))
