-- ===== src/RateLimit.antt =====
-- internal/ratelimit/ratelimit.go: `Acquire`, the release function that it returns, and the no-op
-- limiter. The map `entries` is a function from addresses to pointers and the entries stand on a
-- heap, since a release function keeps its pointer when the sweep drops the entry from the map.
pub mod Open
pub mod Admission
pub mod Concurrency
pub mod Handout
pub mod Bucket
pub mod Burst
pub mod Tests
use go_speedtest.Prelude.{
  ℕ, suc, ◌+◌, ◌*◌, ◌≡◌, Bool, true, false, not, ◌&&◌, Option, none, some, List, [], ◌∷◌, ◌++◌, ltb,
  ◌==◌, if◌then◌else◌, length, get_elem?, set, Comparable,
}
use go_speedtest.Prelude.Int.{ℤ, pos, ◌+ℤ◌, ◌-ℤ◌, ltb_ℤ, leb_ℤ, eqb_ℤ}
use go_speedtest.Prelude.Double.{Double, seconds}
use go_speedtest.Prelude.Instant.{second, sub_time}

abbrev pub idle_ttl : ℕ
idle_ttl = 5 * (60 * second)

abbrev pub cleanup_every : ℕ
cleanup_every = 60 * second

pub record Entry (F : Type 0) : Type 0 where
  pub active : ℤ
  pub tokens : F
  pub last_refill : ℕ
  pub last_seen : ℕ

-- A release function: the entry that it captured and its `sync.Once`. No code reads `client`, the
-- address that was admitted; it is there to state theorems.
pub record Release (IP : Type 0) : Type 0 where
  pub entry : ℕ
  pub fired : Bool
  pub client : IP

abbrev pub update {ℓ} : {A : Type ℓ} → (ℕ → A) → ℕ → A → ℕ → A
update h p a q = if q == p then a else h q

module _ {F : Type 0} where
  abbrev pub is_idle : ℕ → Entry F → Bool
  is_idle now e = eqb_ℤ e.active (pos 0) && ltb_ℤ (pos idle_ttl) (sub_time now e.last_seen)

  -- the loop that deletes idle entries, at one key
  abbrev pub keep : (ℕ → Entry F) → ℕ → Option ℕ → Option ℕ
  keep heap now none = none
  keep heap now (some p) = if is_idle now (heap p) then none else some p

module _ {F : Type 0} ⦃d : Double F⦄ where
  pub refill : F → F → ℕ → Entry F → Entry F
  refill rate burst now e =
      let seen = record e { last_seen = now } in
      let elapsed : ℤ = sub_time now e.last_refill in
      if ltb_ℤ (pos 0) elapsed
      then record seen {
        tokens = d.fmin burst (d.add e.tokens (d.mul (seconds elapsed) rate));
        last_refill = now;
      }
      else seen

  abbrev pub at_capacity : ℤ → Entry F → Bool
  at_capacity per_ip e = ltb_ℤ (pos 0) per_ip && leb_ℤ per_ip e.active

  abbrev pub limits_rate : F → Bool
  limits_rate burst = d.lt (d.of_int (pos 0)) burst

  abbrev pub out_of_tokens : F → Entry F → Bool
  out_of_tokens burst e = limits_rate burst && d.lt e.tokens (d.of_int (pos 1))

  pub admit : F → Entry F → Entry F
  admit burst e =
      let paid =
        if limits_rate burst then record e { tokens = d.sub e.tokens (d.of_int (pos 1)) } else e in
      record paid { active = paid.active +ℤ pos 1 }

pub record Limiter (IP F : Type 0) : Type 0 where
  pub per_ip : ℤ
  pub rate : F
  pub burst : F
  pub entries : IP → Option ℕ
  pub next_cleanup : ℕ
  -- the heap, and the pointer that the next `&entry{}` gives
  pub heap : ℕ → Entry F
  pub next : ℕ
  -- the release functions handed out, oldest first
  pub releases : List (Release IP)

-- A `ratelimit.Limiter`: the no-op one of `NewNoop`, or the real one.
pub data AnyLimiter (IP F : Type 0) : Type 0 where
  noop : AnyLimiter IP F
  limited : Limiter IP F → AnyLimiter IP F

-- What `Acquire` of either returns: a refusal, the no-op release function, or one with its number.
pub data Ticket : Type 0 where
  refused free : Ticket
  held : ℕ → Ticket

abbrev pub ticket : Option ℕ → Ticket
ticket none = refused
ticket (some n) = held n

-- What clients do, in the order in which they take the mutex.
pub data Call (IP : Type 0) : Type 0 where
  acquires : ℕ → IP → Call IP
  releases : ℕ → Call IP

module _ {IP F : Type 0} ⦃c : Comparable IP⦄ ⦃d : Double F⦄ where
  -- `New`, with the zero time in `nextCleanup`. The heap is empty: what it holds is never read.
  pub new : ℤ → F → ℤ → Limiter IP F
  new per_ip rate burst = record {
    per_ip = per_ip;
    rate = rate;
    burst = d.of_int burst;
    entries = λ ip. none;
    next_cleanup = 0;
    heap = λ p. record { active = pos 0; tokens = d.of_int burst; last_refill = 0; last_seen = 0 };
    next = 0;
    releases = [];
  }

  pub sweep : Limiter IP F → ℕ → Limiter IP F
  sweep l now =
      if ltb l.next_cleanup now
      then record l {
        entries = λ ip. keep l.heap now (l.entries ip);
        next_cleanup = now + cleanup_every;
      }
      else l

  -- `e := l.entries[ip]`, with a full bucket for a new address
  pub entry_for : Limiter IP F → ℕ → IP → Limiter IP F × ℕ
  entry_for l now ip = elim (l.entries ip) [
    | some p ↦ (l, p)
    | none ↦ (
      record l {
        entries = λ j. if c.eq j ip then some l.next else l.entries j;
        heap =
            update l.heap l.next
              (record { active = pos 0; tokens = l.burst; last_refill = now; last_seen = 0 });
        next = suc l.next;
      },
      l.next,
    )
  ]

  -- The checks of `Acquire` once the entry is refilled; the number is the release function's.
  pub decide_entry : Limiter IP F → ℕ → IP → Limiter IP F × Option ℕ
  unfolding admit
  decide_entry l p ip =
      let e = l.heap p in
      if at_capacity l.per_ip e then (l, none) else if out_of_tokens l.burst e then (l, none) else (
        record l {
          heap = update l.heap p (admit l.burst e);
          releases = l.releases ++ record { entry = p; fired = false; client = ip } ∷ [];
        },
        some (length l.releases),
      )

  -- `Acquire`: `none` is a refusal, whose release function does nothing.
  pub acquire : Limiter IP F → ℕ → IP → Limiter IP F × Option ℕ
  acquire l now ip =
      let (l', p) = entry_for (sweep l now) now ip in
      decide_entry (record l' { heap = update l'.heap p (refill l'.rate l'.burst now (l'.heap p)) })
        p ip

  -- The release function with the number `n`, through its `sync.Once`.
  pub fire : Limiter IP F → ℕ → Option (Release IP) → Limiter IP F
  fire l n none = l
  fire l n (some r) = if r.fired then l else record l {
    heap =
        update l.heap r.entry
          (record (l.heap r.entry) { active = (l.heap r.entry).active -ℤ pos 1 });
    releases = set l.releases n (record r { fired = true });
  }

  pub release : Limiter IP F → ℕ → Limiter IP F
  unfolding fire
  release l n = fire l n (get_elem? l.releases n)

  pub step : Limiter IP F → Call IP → Limiter IP F
  step l (acquires now ip) = (acquire l now ip).0
  step l (releases n) = release l n

  pub run : Limiter IP F → List (Call IP) → Limiter IP F
  run l [] = l
  run l (k ∷ ks) = run (step l k) ks

  unfoldable pub acquire_any : AnyLimiter IP F → ℕ → IP → AnyLimiter IP F × Ticket
  acquire_any noop now ip = (noop, free)
  acquire_any (limited l) now ip = let (l', o) = acquire l now ip in (limited l', ticket o)

  -- a call of the release function
  unfoldable pub release_any : AnyLimiter IP F → Ticket → AnyLimiter IP F
  release_any (limited l) (held n) = limited (release l n)
  release_any l t = l
