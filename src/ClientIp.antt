-- ===== src/ClientIp.antt =====
-- internal/clientip/clientip.go: the client's address from the peer and the forwarded headers. A
-- text is the list of its bytes. `strings.TrimSpace`, `net.SplitHostPort` and the parsers of
-- net/netip are parameters; addresses and prefixes carry no zone, since `parseAddr` strips it.
pub mod Hops
pub mod Trust
pub mod Tests
use mathlib.Core.List.{reverse}
use go_speedtest.Prelude.{
  ℕ, ◌+◌, ◌-◌, ◌*◌, ◌/◌, ◌%◌, ◌^◌, ◌≡◌, refl, Bool, true, false, not, ◌&&◌, ◌||◌, Option, none,
  some, List, [], ◌∷◌, ◌++◌, arith, leb, ◌==◌, if◌then◌else◌, Comparable,
}

abbrev pub Bytes : Type 0
Bytes = List ℕ

-- `netip.Addr`
pub data Addr : Type 0 where
  invalid : Addr
  v4 : ℕ → Addr
  v6 : ℕ → Addr

-- `netip.Prefix`: an address and the number of its leading bits that count
pub record Prefix : Type 0 where
  pub addr : Addr
  pub bits : ℕ

pub record Net : Type 0 where
  pub trim_space : Bytes → Bytes
  -- the host of a "host:port" that parses
  pub split_host_port : Bytes → Option Bytes
  pub parse_addr : Bytes → Option Addr
  pub parse_prefix : Bytes → Option Prefix

abbrev pub is_valid : Addr → Bool
is_valid invalid = false
is_valid a = true

-- `Unmap`: an IPv4-mapped IPv6 address is the IPv4 address.
unfoldable pub unmap : Addr → Addr
unmap invalid = invalid
unmap (v4 x) = v4 x
unmap (v6 x) = if x / 2 ^ 32 == 0xffff then v4 (x % 2 ^ 32) else v6 x

-- the leading `bits` of the `width` bits of `x`
abbrev leading : ℕ → ℕ → ℕ → ℕ
leading width bits x = x / 2 ^ (width - bits)

-- `Prefix.Contains`
unfoldable pub contains : Prefix → Addr → Bool
contains p a = elim p.addr [
  | invalid ↦ false
  | v4 x ↦ elim a [ v4 y ↦ leb p.bits 32 && leading 32 p.bits x == leading 32 p.bits y | _ ↦ false ]
  | v6 x ↦ elim a [
    | v6 y ↦ leb p.bits 128 && leading 128 p.bits x == leading 128 p.bits y
    | _ ↦ false
  ]
]

-- `Prefix.Masked` clears the bits that do not count.
unfoldable pub masked : Prefix → Prefix
masked p = elim p.addr [
  | invalid ↦ p
  | v4 x ↦ record p { addr = v4 (leading 32 p.bits x * 2 ^ (32 - p.bits)) }
  | v6 x ↦ record p { addr = v6 (leading 128 p.bits x * 2 ^ (128 - p.bits)) }
]

pub extend_first : ℕ → List Bytes → List Bytes
extend_first c [] = (c ∷ []) ∷ []
extend_first c (p ∷ ps) = (c ∷ p) ∷ ps

-- `strings.Split(s, ",")`
unfoldable pub split_comma : Bytes → List Bytes
unfolding extend_first
split_comma [] = [] ∷ []
split_comma (c ∷ s) =
    let rest = split_comma s in if c == b',' then [] ∷ rest else extend_first c rest

-- `strings.TrimPrefix(s, "[")` and `strings.TrimSuffix(s, "]")`
pub trim_open : Bytes → Bytes
trim_open [] = []
trim_open (c ∷ s) = if c == b'[' then s else c ∷ s

pub trim_close : Bytes → Bytes
trim_close [] = []
trim_close (c ∷ []) = if c == b']' then [] else c ∷ []
trim_close (c ∷ d ∷ s) = c ∷ trim_close (d ∷ s)

-- up to the first '%'
pub strip_zone : Bytes → Bytes
strip_zone [] = []
strip_zone (c ∷ s) = if c == b'%' then [] else c ∷ strip_zone s

abbrev pub unmap_parsed : Option Addr → Addr
unmap_parsed none = invalid
unmap_parsed (some a) = unmap a

abbrev host_of : Net → Bytes → Bytes
host_of net s = elim (net.split_host_port s) [ none ↦ s | some host ↦ host ]

abbrev pub is_empty : Bytes → Bool
is_empty [] = true
is_empty (c ∷ s) = false

module _ (net : Net) where
  -- `netip.ParseAddr` of a trimmed text, with the port, the brackets and the zone taken off
  pub parse_host : Bytes → Option Addr
  unfolding trim_open trim_close strip_zone
  parse_host s = net.parse_addr (strip_zone (trim_close (trim_open (host_of net s))))

  -- `parseAddr`
  unfoldable pub parse_addr : Bytes → Addr
  unfolding parse_host
  parse_addr text =
      let s = net.trim_space text in if is_empty s then invalid else unmap_parsed (parse_host s)

  -- `NewResolver`: the trusted networks, or none if a text does not parse
  pub new_resolver : List Bytes → Option (List Prefix)
  new_resolver [] = some []
  new_resolver (c ∷ cs) = elim (net.parse_prefix (net.trim_space c)) [
    | none ↦ none
    | some p ↦ elim (new_resolver cs) [ none ↦ none | some ps ↦ some (masked p ∷ ps) ]
  ]

-- the loop of `trusted`
pub any_contains : List Prefix → Addr → Bool
any_contains [] a = false
any_contains (p ∷ ps) a = contains p a || any_contains ps a

unfoldable pub trusted : List Prefix → Addr → Bool
unfolding any_contains
trusted cidrs a = any_contains cidrs (unmap a)

-- What `FromRequest` reads; `Header.Get` gives "" for a header that is not there.
pub record Request : Type 0 where
  pub remote_addr : Bytes
  pub forwarded_for : Bytes
  pub real_ip : Bytes

abbrev pub or_else : {A : Type 0} → Option A → Option A → Option A
or_else none b = b
or_else (some a) b = some a

abbrev pub or_peer : Option Addr → Addr → Addr
or_peer none peer = peer
or_peer (some a) peer = a

module _ (net : Net) (cidrs : List Prefix) where
  -- The walk from the right, over the parts in reverse order.
  pub rightmost_untrusted : List Bytes → Option Addr
  rightmost_untrusted [] = none
  rightmost_untrusted (part ∷ parts) =
      let a = parse_addr net part in
      if not (is_valid a)
      then rightmost_untrusted parts
      else if trusted cidrs a
      then rightmost_untrusted parts
      else some a

  pub leftmost_valid : List Bytes → Option Addr
  leftmost_valid [] = none
  leftmost_valid (part ∷ parts) =
      let a = parse_addr net part in if is_valid a then some a else leftmost_valid parts

  -- what X-Forwarded-For gives, if anything
  pub from_forwarded_for : Bytes → Option Addr
  from_forwarded_for xff =
      if is_empty xff
      then none
      else let parts = split_comma xff in
        or_else (rightmost_untrusted (reverse parts)) (leftmost_valid parts)

  pub from_real_ip : Bytes → Option Addr
  from_real_ip xr =
      if is_empty xr then none else let a = parse_addr net xr in if is_valid a then some a else none

  -- `FromRequest`
  unfoldable pub from_request : Request → Addr
  from_request r =
      let peer = parse_addr net r.remote_addr in
      if not (is_valid peer) || not (trusted cidrs peer)
      then peer
      else or_peer (or_else (from_forwarded_for r.forwarded_for) (from_real_ip r.real_ip)) peer
