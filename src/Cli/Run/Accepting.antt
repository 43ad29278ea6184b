-- ===== src/Cli/Run/Accepting.antt =====
-- Which command lines cmd/go-speedtest-cli/main.go accepts, and what it then asks of the network.
use go_speedtest.Prelude.{
  ◌≡◌, refl, ◌≢◌, ◌↔◌, ◌⊎◌, inl, inr, some, List, [], ◌∷◌, String, str_eq, str_eq_iff, arith,
  Bool-cases, Option-cases,
}
use go_speedtest.Prelude.Double.{Double}
use go_speedtest.Cli.Flags.{Flags, RunError, check_flags, IsInOrder, check_flags_iff}
use go_speedtest.Cli.World.{World, Run, Call, asks_info, stops}
use go_speedtest.Cli.Run.{parse_server, run, checked}

module _ {U F : Type 0} (w : World U F) where
  -- The server's URL parses and has a scheme and a host.
  abbrev pub IsServer : String → U → Type 0
  IsServer s base = (w.parse s ≡ some base) × (w.scheme base ≢ "") × (w.host base ≢ "")

  -- The command line is accepted.
  pub record IsAccepted (f : Flags) : Type 0 where
    pub named : f.server ≢ ""
    pub base : U
    pub is_server : IsServer f.server base
    pub in_order : IsInOrder f

  parse_server_iff : (s : String) (base : U) → (parse_server w s ≡ some base) ↔ IsServer s base
  unfolding parse_server
  parse_server_iff s base = elim (Option-cases (w.parse s)) [
    | inl e ↦ ground (arith, e)
    | inr (b, e) ↦ ground (arith, e, str_eq_iff (w.scheme b) "", str_eq_iff (w.host b) "")
  ]

module _ {U F : Type 0} ⦃d : Double F⦄ (w : World U F) (f : Flags) where
  abbrev Refused : Run U F → Type 0
  Refused r = (r.calls ≡ []) × ((e : RunError) × (r.ending ≡ stops e))

  abbrev Asked : Run U F → Type 0
  Asked r = (rest : List Call) × (r.calls ≡ asks_info ∷ rest)

  checked-Accepted :
      (base : U)
      → (IsInOrder f × Asked (checked w f base (check_flags f)))
        ⊎ (¬ IsInOrder f × Refused (checked w f base (check_flags f)))
  checked-Accepted base = elim (Option-cases (check_flags f)) [
    | inl e ↦ inl ((check_flags_iff f).0 e, rw e (_, refl))
    | inr (x, e) ↦ inr (λ v. cc (e, (check_flags_iff f).1 v), rw e (refl, (_, refl)))
  ]

  -- A command line is accepted exactly if it names a URL with a scheme and a host, sets one format
  -- at most, leaves the streams at the server's default or sets them from 3 to 12, and leaves a
  -- phase enabled. The first thing that the program asks of the network is then the server's info;
  -- else it asks nothing and ends with an error.
  pub run_accepting : (IsAccepted w f × Asked (run w f)) ⊎ (¬ IsAccepted w f × Refused (run w f))
  unfolding run
  run_accepting = elim (Bool-cases (str_eq f.server "")) [
    | inl e ↦ inr (λ v. v.named ((str_eq_iff f.server "").0 e), rw e (refl, (_, refl)))
    | inr e ↦ elim (Option-cases (parse_server w f.server)) [
      | inl p ↦ inr (
        λ v. let q = (parse_server_iff w f.server v.base).1 v.is_server in cc,
        rw (e, p) (refl, (_, refl)),
      )
      | inr (base, p) ↦ elim (checked-Accepted base) [
        | inl (o, a) ↦ inl (
          record {
            named = λ h. let q = (str_eq_iff f.server "").1 h in cc;
            base = base;
            is_server = (parse_server_iff w f.server base).0 p;
            in_order = o;
          },
          rw (e, p) a,
        )
        | inr (o, r) ↦ inr (λ v. o v.in_order, rw (e, p) r)
      ]
    ]
  ]
