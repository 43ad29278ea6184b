-- ===== src/ClientIp/Trust.antt =====
-- Which address `FromRequest` of internal/clientip/clientip.go believes.
use mathlib.Core.List.{reverse, append_assoc}
use go_speedtest.Prelude.{
  ◌≡◌, refl, ◌≢◌, sym, ap, ◌∙◌, Bool, true, false, Option, none, some, List, [], ◌∷◌, ◌++◌, arith,
  if◌then◌else◌, All,
}
use go_speedtest.ClientIp.{
  Bytes, Addr, invalid, v4, v6, Prefix, Net, Request, is_valid, unmap, split_comma, parse_addr,
  parse_host, trusted, rightmost_untrusted, leftmost_valid, from_forwarded_for, from_real_ip,
  from_request, unmap_parsed, or_else, or_peer, is_empty,
}
use go_speedtest.ClientIp.Hops.{IsSkipped, split_comma-append, rightmost_untrusted-reverse}

append-ne_nil : (s t : Bytes) → s ++ b',' ∷ t ≢ []
append-ne_nil [] t h = cc
append-ne_nil (c ∷ s) t h = cc

module _ (net : Net) (cidrs : List Prefix) where
  -- A peer that is no trusted proxy cannot choose the address: whatever headers two requests carry,
  -- they resolve to the peer that they come from.
  pub from_request_untrusted :
      (r : Request)
      → trusted cidrs (parse_addr net r.remote_addr) ≡ false
      → (xff xr : Bytes)
      → from_request net cidrs (record r { forwarded_for = xff; real_ip = xr })
        ≡ parse_addr net r.remote_addr
  unfolding from_request
  from_request_untrusted r t xff xr = ground arith

  -- A valid peer that is a trusted proxy.
  abbrev pub IsProxied : Request → Type 0
  IsProxied r =
      (is_valid (parse_addr net r.remote_addr) ≡ true)
      × (trusted cidrs (parse_addr net r.remote_addr) ≡ true)

  from_request_forwarded :
      (r : Request) {a : Addr}
      → IsProxied r
      → from_forwarded_for net cidrs r.forwarded_for ≡ some a
      → from_request net cidrs r ≡ a
  unfolding from_request
  from_request_forwarded r (v, t) e = ground arith

  from_forwarded_for_walk :
      (xff : Bytes) {a : Addr}
      → xff ≢ []
      → rightmost_untrusted net cidrs (reverse (split_comma xff)) ≡ some a
      → from_forwarded_for net cidrs xff ≡ some a
  unfolding from_forwarded_for
  from_forwarded_for_walk [] h e = absurd (h refl)
  from_forwarded_for_walk (c ∷ xff) h e = rw (e)

  -- Behind a trusted proxy the client is the closest hop that is not trusted: of the parts of an
  -- X-Forwarded-For header that is not empty, the last one that is an address outside the trusted
  -- networks.
  pub from_request_closest :
      (r : Request) (before after : List Bytes) (part : Bytes)
      → IsProxied r
      → r.forwarded_for ≢ []
      → split_comma r.forwarded_for ≡ before ++ part ∷ after
      → is_valid (parse_addr net part) ≡ true
      → trusted cidrs (parse_addr net part) ≡ false
      → All (IsSkipped net cidrs) after
      → from_request net cidrs r ≡ parse_addr net part
  from_request_closest r before after part p n e v t s = from_request_forwarded r p (
      from_forwarded_for_walk r.forwarded_for n (
        ap (λ l. rightmost_untrusted net cidrs (reverse l)) e
        ∙ rightmost_untrusted-reverse net cidrs before after part s v t))

  -- Behind a trusted proxy, what a client writes in front of the entries that the proxies add has
  -- no influence: let the last of these entries that is an address outside the trusted networks be
  -- `part`; then the header may begin with anything at all, and the client is resolved to `part`.
  pub from_request_spoofed :
      (r : Request) (spoof hops : Bytes) (before after : List Bytes) (part : Bytes)
      → IsProxied r
      → split_comma hops ≡ before ++ part ∷ after
      → is_valid (parse_addr net part) ≡ true
      → trusted cidrs (parse_addr net part) ≡ false
      → All (IsSkipped net cidrs) after
      → from_request net cidrs (record r { forwarded_for = spoof ++ b',' ∷ hops })
        ≡ parse_addr net part
  from_request_spoofed r spoof hops before after part p e v t s =
      from_request_closest (record r { forwarded_for = spoof ++ b',' ∷ hops })
        (split_comma spoof ++ before) after part p (append-ne_nil spoof hops)
        (split_comma-append spoof hops
          ∙ ap (λ l. split_comma spoof ++ l) e
          ∙ sym (append_assoc (split_comma spoof) before (part ∷ after)))
        v t s

unmap_idem : (a : Addr) → unmap (unmap a) ≡ unmap a
unfolding unmap
unmap_idem invalid = refl
unmap_idem (v4 x) = refl
unmap_idem (v6 x) = ground arith

-- No IPv4-mapped form.
abbrev pub IsCanonical : Addr → Type 0
IsCanonical a = unmap a ≡ a

abbrev IsCanonicalIfSome : Option Addr → Type 0
IsCanonicalIfSome none = Unit {0}
IsCanonicalIfSome (some a) = IsCanonical a

unmap_parsed-IsCanonical : (o : Option Addr) → IsCanonical (unmap_parsed o)
unfolding unmap
unmap_parsed-IsCanonical none = refl
unmap_parsed-IsCanonical (some a) = unmap_idem a

if-IsCanonical :
    (b : Bool) (x y : Addr) → IsCanonical x → IsCanonical y → IsCanonical (if b then x else y)
if-IsCanonical true x y h k = h
if-IsCanonical false x y h k = k

if-IsCanonicalIfSome :
    (b : Bool) (x y : Option Addr)
    → IsCanonicalIfSome x
    → IsCanonicalIfSome y
    → IsCanonicalIfSome (if b then x else y)
if-IsCanonicalIfSome true x y h k = h
if-IsCanonicalIfSome false x y h k = k

or_else-IsCanonicalIfSome :
    (x y : Option Addr)
    → IsCanonicalIfSome x
    → IsCanonicalIfSome y
    → IsCanonicalIfSome (or_else x y)
or_else-IsCanonicalIfSome none y h k = k
or_else-IsCanonicalIfSome (some a) y h k = h

or_peer-IsCanonical :
    (x : Option Addr) (a : Addr) → IsCanonicalIfSome x → IsCanonical a → IsCanonical (or_peer x a)
or_peer-IsCanonical none a h k = k
or_peer-IsCanonical (some b) a h k = h

parse_addr-IsCanonical : (net : Net) (s : Bytes) → IsCanonical (parse_addr net s)
unfolding parse_addr unmap
parse_addr-IsCanonical net s =
    if-IsCanonical (is_empty (net.trim_space s)) invalid _ refl
      (unmap_parsed-IsCanonical (parse_host net (net.trim_space s)))

module _ (net : Net) (cidrs : List Prefix) where
  rightmost_untrusted-IsCanonical :
      (ps : List Bytes) → IsCanonicalIfSome (rightmost_untrusted net cidrs ps)
  unfolding rightmost_untrusted
  rightmost_untrusted-IsCanonical [] = tt
  rightmost_untrusted-IsCanonical (p ∷ ps) =
      let rest = rightmost_untrusted-IsCanonical ps in
      if-IsCanonicalIfSome _ _ _ rest (
        if-IsCanonicalIfSome (trusted cidrs (parse_addr net p)) _ (some (parse_addr net p)) rest
          (parse_addr-IsCanonical net p))

  leftmost_valid-IsCanonical : (ps : List Bytes) → IsCanonicalIfSome (leftmost_valid net cidrs ps)
  unfolding leftmost_valid
  leftmost_valid-IsCanonical [] = tt
  leftmost_valid-IsCanonical (p ∷ ps) =
      if-IsCanonicalIfSome _ (some (parse_addr net p)) _ (parse_addr-IsCanonical net p)
        (leftmost_valid-IsCanonical ps)

  headers-IsCanonical :
      (xff xr : Bytes)
      → IsCanonicalIfSome (or_else (from_forwarded_for net cidrs xff) (from_real_ip net cidrs xr))
  unfolding from_forwarded_for from_real_ip
  headers-IsCanonical xff xr =
      or_else-IsCanonicalIfSome _ _
        (if-IsCanonicalIfSome (is_empty xff) none _ tt (
          or_else-IsCanonicalIfSome _ _
            (rightmost_untrusted-IsCanonical (reverse (split_comma xff)))
            (leftmost_valid-IsCanonical (split_comma xff))))
        (if-IsCanonicalIfSome (is_empty xr) none _ tt (
          if-IsCanonicalIfSome _ (some (parse_addr net xr)) none (parse_addr-IsCanonical net xr)
            tt))

  -- The resolved address is never the IPv4-mapped form of another one, so that one client has one
  -- address.
  pub from_request-IsCanonical : (r : Request) → IsCanonical (from_request net cidrs r)
  unfolding from_request
  from_request-IsCanonical r = if-IsCanonical _ _ _ (parse_addr-IsCanonical net r.remote_addr) (
      or_peer-IsCanonical _ _ (headers-IsCanonical r.forwarded_for r.real_ip)
        (parse_addr-IsCanonical net r.remote_addr))
