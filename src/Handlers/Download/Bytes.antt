-- ===== src/Handlers/Download/Bytes.antt =====
-- What `handleDownload` of internal/handlers/handlers.go announces, sends and counts.
use go_speedtest.Prelude.{
  ℕ, zero, suc, ◌+◌, ◌*◌, ◌^◌, ◌≤◌, ◌<◌, ◌≡◌, refl, ◌∙◌, ap, subst, ◌==◌, ◌⊎◌, inl, inr, Bool, true,
  false, Option, none, some, String, arith, ltb, Bool-cases,
}
use go_speedtest.Prelude.Int.{
  ℤ, pos, pos_part, ◌≤ℤ◌, ◌<ℤ◌, int64, int64-pos, int64-add, scale, min_ℤ,
}
use go_speedtest.Metrics.{Registry, bytes_served}
use go_speedtest.Metrics.Series.{value, value-add}
use go_speedtest.Handlers.Download.{
  requested, capped, content_length_of, capped, counted, write_loop, serve, sent, handle_download,
}

-- The bytes that the first writes report, from the one with the number i.
unfoldable pub bytes_of : (write : ℕ → ℕ × Bool) → (count i : ℕ) → ℕ
bytes_of write zero i = 0
bytes_of write (suc count) i = (write i).0 + bytes_of write count (suc i)

abbrev pub served : Registry → ℤ
served m = value bytes_served m.counters

served-counted :
    (m : Registry) (v n : ℕ)
    → served m ≡ pos v
    → v + n < 2 ^ 63
    → served (counted m n) ≡ pos (v + n)
served-counted m v n h k = elim (Bool-cases (ltb 0 n)) [
  | inl e ↦
      rw (e, value-add m bytes_served bytes_served (pos n), h) (int64-add v (pos n) (omega arith) k)
  | inr e ↦ rw (e, h) (ap pos (ground arith))
]

-- The loop makes `k` writes: all that are left, or up to the first that fails; and it counts what
-- each of them reports.
abbrev Wrote : (write : ℕ → ℕ × Bool) → (left i v : ℕ) → ℕ × Registry → Type 0
Wrote write left i v r =
    (k : ℕ) × (k ≤ left)
    × (r.0 ≡ i + k)
    × (served r.1 ≡ pos (v + bytes_of write k i))
    × ((j : ℕ) → i ≤ j → suc j < i + k → (write j).1 ≡ false)
    × ((k ≡ left) ⊎ ((j : ℕ) × (suc j ≡ i + k) × ((write j).1 ≡ true)))

write_loop-Wrote :
    (write : ℕ → ℕ × Bool) (left i v : ℕ) (m : Registry)
    → served m ≡ pos v
    → v + bytes_of write left i < 2 ^ 63
    → Wrote write left i v (write_loop write left i m)
unfolding write_loop bytes_of
write_loop-Wrote write zero i v m h b = (
  0,
  omega arith,
  omega arith,
  h ∙ ap pos (omega arith),
  (λ j l u. absurd (omega arith)),
  inl refl,
)
write_loop-Wrote write (suc left) i v m h b =
    let n : ℕ = (write i).0 in
    let h' = served-counted m v n h (omega arith) in
    elim (Bool-cases (write i).1) [
      | inl e ↦ rw e (
        1,
        omega arith,
        omega arith,
        h' ∙ ap pos (omega arith),
        λ j l u. absurd (omega arith),
        inr (i, omega arith, e),
      )
      | inr e ↦
          let (k, l, w, c, early, last) =
            write_loop-Wrote write left (suc i) (v + n) (counted m n) h' (omega arith) in
          rw e (
            suc k,
            omega arith,
            omega arith,
            c ∙ ap pos (omega arith),
            λ j low up. first_or_later j low e (λ m. early j m (omega arith)),
            later k last,
          )
    ]
  where
    first_or_later :
        (j : ℕ)
        → i ≤ j
        → (write i).1 ≡ false
        → (suc i ≤ j → (write j).1 ≡ false)
        → (write j).1 ≡ false
    first_or_later j l e f = elim (Bool-cases (i == j)) [
      | inl s ↦ subst (λ x. (write x).1 ≡ false) (ground arith) e
      | inr s ↦ f (ground arith)
    ]

    later :
        (k : ℕ)
        → ((k ≡ left) ⊎ ((j : ℕ) × (suc j ≡ suc i + k) × ((write j).1 ≡ true)))
        → ((suc k ≡ suc left) ⊎ ((j : ℕ) × (suc j ≡ i + suc k) × ((write j).1 ≡ true)))
    later k (inl e) = inl (omega arith)
    later k (inr (j, e, f)) = inr (j, omega arith, f)

write_loop_count :
    (write : ℕ → ℕ × Bool) (left v : ℕ) (m : Registry)
    → served m ≡ pos v
    → v + bytes_of write left 0 < 2 ^ 63
    → let r = write_loop write left 0 m in
      (r.0 ≤ left)
      × (served r.1 ≡ pos (v + bytes_of write r.0 0))
      × ((j : ℕ) → suc j < r.0 → (write j).1 ≡ false)
      × ((r.0 ≡ left) ⊎ ((j : ℕ) × (suc j ≡ r.0) × ((write j).1 ≡ true)))
write_loop_count write left v m h b =
    let (k, l, w, c, early, last) = write_loop-Wrote write left 0 v m h b in
    let e : (write_loop write left 0 m).0 ≡ k = omega arith in
    rw e (l, c, (λ j u. early j (omega arith) (omega arith)), shifted k last)
  where
    shifted :
        (k : ℕ)
        → ((k ≡ left) ⊎ ((j : ℕ) × (suc j ≡ 0 + k) × ((write j).1 ≡ true)))
        → ((k ≡ left) ⊎ ((j : ℕ) × (suc j ≡ k) × ((write j).1 ≡ true)))
    shifted k (inl e) = inl e
    shifted k (inr (j, e, f)) = inr (j, omega arith, f)

requested_pos :
    (parse_int : String → Option ℤ) (q : String) (n : ℤ)
    → requested parse_int q ≡ some n
    → pos 1 ≤ℤ n
unfolding requested
requested_pos parse_int q n h = ground arith

-- The chunks that a request for `n` gets.
unfoldable pub chunks_for : (chunk_cap n : ℤ) → ℕ
chunks_for chunk_cap n = pos_part (capped chunk_cap n)

chunks_for_bounds :
    (chunk_cap n : ℤ)
    → pos 1 ≤ℤ n
    → (1 ≤ chunks_for chunk_cap n)
      × (pos 0 <ℤ chunk_cap → pos (chunks_for chunk_cap n) ≡ min_ℤ n chunk_cap)
      × (chunk_cap ≤ℤ pos 0 → pos (chunks_for chunk_cap n) ≡ n)
      × (capped chunk_cap n ≡ pos (chunks_for chunk_cap n))
unfolding chunks_for capped min_ℤ
chunks_for_bounds chunk_cap n h = ground arith

content_length_exact : (n : ℕ) → n < 2 ^ 43 → content_length_of (pos n) ≡ pos (n * 1_048_576)
unfolding scale
content_length_exact n h = ground (arith, int64-pos (n * 1_048_576))

length_wraps : (n : ℕ) → 2 ^ 43 ≤ n → n < 2 ^ 44 → content_length_of (pos n) <ℤ pos 0
unfolding scale int64
length_wraps n h k = ground arith

module _ (parse_int : String → Option ℤ) (write : ℕ → ℕ × Bool) (chunk_cap : ℤ) (q : String)
    (m : Registry) where
  accepted :
      (n : ℤ)
      → requested parse_int q ≡ some n
      → handle_download parse_int write true chunk_cap q m
        ≡ sent (capped chunk_cap n) (write_loop write (pos_part (capped chunk_cap n)) 0 m)
  unfolding handle_download serve
  accepted n e = rw (e, handle_download)

  -- With the payload ready, a request that is accepted for `n` chunks is answered with the chunks
  -- that the cap leaves, `n` of them or the cap, if there is one and it is less: one write each, up to
  -- the first that fails, which ends the answer. The counter of bytes served
  -- grows by exactly what these writes report, and the announced length is that of all the chunks.
  -- The chunks are fewer than 2 ^ 43 and the counter stays within an `int64`.
  pub handle_download_lem :
      (n : ℤ) (v : ℕ)
      → requested parse_int q ≡ some n
      → served m ≡ pos v
      → chunks_for chunk_cap n < 2 ^ 43
      → v + bytes_of write (chunks_for chunk_cap n) 0 < 2 ^ 63
      → let r = handle_download parse_int write true chunk_cap q m in
        let chunks = chunks_for chunk_cap n in
        (r.status ≡ 200)
        × (r.content_length ≡ some (pos (chunks * 1_048_576)))
        × (1 ≤ chunks)
        × (pos 0 <ℤ chunk_cap → pos chunks ≡ min_ℤ n chunk_cap)
        × (chunk_cap ≤ℤ pos 0 → pos chunks ≡ n)
        × (r.writes ≤ chunks)
        × (served r.metrics ≡ pos (v + bytes_of write r.writes 0))
        × ((j : ℕ) → suc j < r.writes → (write j).1 ≡ false)
        × ((r.writes ≡ chunks) ⊎ ((j : ℕ) × (suc j ≡ r.writes) × ((write j).1 ≡ true)))
  handle_download_lem n v e h c b =
      let (low, high, free, same) = chunks_for_bounds chunk_cap n (requested_pos parse_int q n e) in
      let (most, count, early, last) = write_loop_count write (chunks_for chunk_cap n) v m h b in
      let exact = content_length_exact (chunks_for chunk_cap n) c in
      rw (accepted n e ∙ ap (λ c. sent c (write_loop write (pos_part c) 0 m)) same)
        (refl, ap some exact, low, high, free, most, count, early, last)

  -- Without a cap, or with one that high, a request for 2 ^ 43 chunks or more, below 2 ^ 44, is
  -- accepted and announces a negative length: the multiplication wraps. The payload is ready.
  pub handle_download_overflow :
      (n : ℕ)
      → requested parse_int q ≡ some (pos n)
      → (chunk_cap ≤ℤ pos 0) ⊎ (pos n ≤ℤ chunk_cap)
      → 2 ^ 43 ≤ n
      → n < 2 ^ 44
      → let r = handle_download parse_int write true chunk_cap q m in
        (r.status ≡ 200) × ((k : ℤ) × (r.content_length ≡ some k) × (k <ℤ pos 0))
  unfolding capped
  handle_download_overflow n e u h k =
      let same : capped chunk_cap (pos n) ≡ pos n = ground arith in
      rw (accepted (pos n) e ∙ ap (λ c. sent c (write_loop write (pos_part c) 0 m)) same)
        (refl, (content_length_of (pos n), refl, length_wraps n h k))

  -- A refused parameter, or a payload that is not ready, sends nothing and counts nothing.
  pub handle_download_refused :
      (ready : Bool)
      → (requested parse_int q ≡ none) ⊎ (ready ≡ false)
      → let r = handle_download parse_int write ready chunk_cap q m in
        ((r.status ≡ 400) ⊎ (r.status ≡ 503))
        × (r.writes ≡ 0)
        × (r.content_length ≡ none)
        × (r.metrics ≡ m)
  unfolding handle_download
  handle_download_refused ready h = ground arith
