-- ===== src/ClientIp/Tests.antt =====
-- `FromRequest` of internal/clientip/clientip.go behind the proxy 10.0.0.1. Addresses are texts of
-- one byte, "p" for the proxy, and any letter stands for an address 10.0.0.x or 9.0.0.x.
use go_speedtest.Prelude.{
  ◌+◌, ◌*◌, ◌^◌, ◌≡◌, refl, inr, true, Option, none, some, List, [], ◌∷◌, ◌++◌, ◌==◌, if◌then◌else◌,
}
use go_speedtest.ClientIp.{
  Bytes, Addr, v4, Prefix, Net, Request, split_comma, parse_addr, trusted, unmap, contains,
  from_forwarded_for, rightmost_untrusted, from_request,
}
use go_speedtest.ClientIp.Trust.{
  from_request_untrusted, from_request_closest, from_request_spoofed, from_request-IsCanonical,
  IsCanonical,
}

-- Capital letters are addresses 10.0.0.x, other letters addresses 9.0.0.x.
abbrev letter : Bytes → Option Addr
letter (c ∷ []) =
    if c == b'P'
    then some (v4 (10 * 2 ^ 24 + 1))
    else if c == b'Q'
    then some (v4 (10 * 2 ^ 24 + 2))
    else some (v4 (9 * 2 ^ 24 + c))
letter _ = none

abbrev letters : Net
letters = record {
  trim_space = λ s. s;
  split_host_port = λ s. none;
  parse_addr = letter;
  parse_prefix = λ s. none;
}

-- 10.0.0.0/8
abbrev proxies : List Prefix
proxies = record { addr = v4 (10 * 2 ^ 24); bits = 8 } ∷ []

abbrev proxied : Request
proxied = record {
  remote_addr = b'P' ∷ [];
  forwarded_for = b'x' ∷ b',' ∷ b'c' ∷ b',' ∷ b'Q' ∷ [];
  real_ip = b'r' ∷ [];
}

abbrev direct : Request
direct = record proxied { remote_addr = b'd' ∷ [] }

proxied_test :
    (from_request letters proxies proxied ≡ v4 (9 * 2 ^ 24 + b'c'))
    × (from_request letters proxies direct ≡ v4 (9 * 2 ^ 24 + b'd'))
unfolding from_request parse_addr trusted unmap contains from_forwarded_for rightmost_untrusted
    split_comma
proxied_test = (refl, refl)

from_request_untrusted_holds :
    from_request letters proxies (record direct { forwarded_for = b'x' ∷ []; real_ip = b'y' ∷ [] })
    ≡ parse_addr letters direct.remote_addr
from_request_untrusted_holds =
    from_request_untrusted letters proxies direct (unfold trusted parse_addr unmap contains in refl)
      (b'x' ∷ []) (b'y' ∷ [])

proxy-IsSkipped : trusted proxies (parse_addr letters (b'Q' ∷ [])) ≡ true
unfolding trusted parse_addr unmap contains
proxy-IsSkipped = refl

from_request_closest_example : from_request letters proxies proxied ≡ parse_addr letters (b'c' ∷ [])
from_request_closest_example =
    from_request_closest letters proxies proxied ((b'x' ∷ []) ∷ []) ((b'Q' ∷ []) ∷ []) (b'c' ∷ [])
      (unfold trusted parse_addr unmap contains in (refl, refl)) (λ h. cc)
      (unfold split_comma in refl) (unfold parse_addr unmap in refl)
      (unfold trusted parse_addr unmap contains in refl) (inr proxy-IsSkipped, tt)

from_request_spoofed_example :
    from_request letters proxies
      (record proxied { forwarded_for = (b'Q' ∷ b'?' ∷ []) ++ b',' ∷ b'c' ∷ b',' ∷ b'Q' ∷ [] })
    ≡ parse_addr letters (b'c' ∷ [])
from_request_spoofed_example =
    from_request_spoofed letters proxies proxied (b'Q' ∷ b'?' ∷ []) (b'c' ∷ b',' ∷ b'Q' ∷ []) []
      ((b'Q' ∷ []) ∷ []) (b'c' ∷ []) (unfold trusted parse_addr unmap contains in (refl, refl))
      (unfold split_comma in refl) (unfold parse_addr unmap in refl)
      (unfold trusted parse_addr unmap contains in refl) (inr proxy-IsSkipped, tt)

from_request-IsCanonical_holds : IsCanonical (from_request letters proxies proxied)
from_request-IsCanonical_holds = from_request-IsCanonical letters proxies proxied
