-- ===== src/Handlers/Upload.antt =====
-- `handleUpload` of internal/handlers/handlers.go. `drain` is `io.Copy` to nowhere of a request's
-- body, behind `http.MaxBytesReader` if it is given a limit: the bytes read and the error.
use go_speedtest.Prelude.{
  ℕ, ◌+◌, ◌^◌, ◌≤◌, ◌<◌, ◌≡◌, refl, inl, inr, Bool, Option, none, some, arith, ltb, if◌then◌else◌,
  Bool-cases, ap,
}
use go_speedtest.Prelude.Int.{ℤ, pos, pos_part, ◌≤ℤ◌, ◌<ℤ◌, ltb_ℤ, int64-add}
use go_speedtest.Metrics.{Registry, add, bytes_received}
use go_speedtest.Metrics.Series.{value, value-add}

pub data ReadError : Type 0 where
  too_large other : ReadError

pub record Upload : Type 0 where
  pub status : ℕ
  pub sets_deadline : Bool
  pub metrics : Registry

abbrev pub limit_of : ℤ → Option ℕ
limit_of max_upload_bytes =
    if ltb_ℤ (pos 0) max_upload_bytes then some (pos_part max_upload_bytes) else none

abbrev pub status_of : Option ReadError → ℕ
status_of none = 200
status_of (some too_large) = 413
status_of (some other) = 400

unfoldable pub handle_upload :
    (drain : Option ℕ → ℕ × Option ReadError) (max_upload_bytes read_deadline : ℤ)
    → Registry
    → Upload
handle_upload drain max_upload_bytes read_deadline m =
    let (n, e) = drain (limit_of max_upload_bytes) in
    record {
      status = status_of e;
      sets_deadline = ltb_ℤ (pos 0) read_deadline;
      metrics = if ltb 0 n then add m bytes_received (pos n) else m;
    }

-- The documented behaviour of the two readers on a body of `size` bytes: no more than the body and
-- the limit are read, a copy without an error reads the whole body, and `MaxBytesError` is for a
-- body over the limit.
pub record IsReader (size : ℕ) (drain : Option ℕ → ℕ × Option ReadError) : Type 0 where
  pub within_body : (l : Option ℕ) → (drain l).0 ≤ size
  pub within_limit : (l : ℕ) → (drain (some l)).0 ≤ l
  pub complete : (l : Option ℕ) → (drain l).1 ≡ none → (drain l).0 ≡ size
  pub over : (l : Option ℕ) → (drain l).1 ≡ some too_large → (k : ℕ) × (l ≡ some k) × (k < size)

abbrev pub received : Registry → ℤ
received m = value bytes_received m.counters

received-add :
    (m : Registry) (v n : ℕ)
    → received m ≡ pos v
    → v + n < 2 ^ 63
    → received (if ltb 0 n then add m bytes_received (pos n) else m) ≡ pos (v + n)
received-add m v n h k = elim (Bool-cases (ltb 0 n)) [
  | inl e ↦
      rw (e, value-add m bytes_received bytes_received (pos n), h)
        (int64-add v (pos n) (omega arith) k)
  | inr e ↦ rw (e, h) (ap pos (ground arith))
]

-- An upload is answered with 200 only when its whole body was read, and then the body is within
-- the limit, if there is one; 413 is for a body over the limit. The counter of bytes received
-- grows by the bytes that were read, which are at most the body and the limit, whatever the
-- answer. The readers behave as documented, and the counter stays within an `int64`.
pub handle_upload_lem :
    (size v : ℕ) (drain : Option ℕ → ℕ × Option ReadError) (max_upload_bytes read_deadline : ℤ)
    (m : Registry)
    → IsReader size drain
    → received m ≡ pos v
    → v + size < 2 ^ 63
    → let r = handle_upload drain max_upload_bytes read_deadline m in
      let n = (drain (limit_of max_upload_bytes)).0 in
      (r.status ≡ 200 → (n ≡ size) × (pos 0 <ℤ max_upload_bytes → pos size ≤ℤ max_upload_bytes))
      × (r.status ≡ 413 → (pos 0 <ℤ max_upload_bytes) × (max_upload_bytes <ℤ pos size))
      × (received r.metrics ≡ pos (v + n))
      × (n ≤ size)
      × (pos 0 <ℤ max_upload_bytes → pos n ≤ℤ max_upload_bytes)
unfolding handle_upload
handle_upload_lem size v drain max_upload_bytes read_deadline m d h b =
    let l : Option ℕ = limit_of max_upload_bytes in
    let n : ℕ = (drain l).0 in
    let grown = received-add m v n h (omega (arith, d.within_body l)) in
    ground (
      arith,
      d.within_body l,
      d.within_limit (pos_part max_upload_bytes),
      d.complete l,
      d.over l,
      grown,
    )

pub handle_upload-gauges :
    (drain : Option ℕ → ℕ × Option ReadError) (max_upload_bytes read_deadline : ℤ) (m : Registry)
    → (handle_upload drain max_upload_bytes read_deadline m).metrics.gauges ≡ m.gauges
unfolding handle_upload add
handle_upload-gauges drain max_upload_bytes read_deadline m =
    elim (Bool-cases (ltb 0 (drain (limit_of max_upload_bytes)).0)) [
      | inl e ↦ simp e refl
      | inr e ↦ simp e refl
    ]
