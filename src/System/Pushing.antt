-- ===== src/System/Pushing.antt =====
-- The push of a result from cmd/go-speedtest-cli/main.go to internal/handlers/handlers.go.
use Prim.Native.String.{◌++◌ as concat}
use go_speedtest.Prelude.{
  ◌≡◌, refl, sym, ap, ◌∙◌, ◌≢◌, ◌↔◌, ◌⊎◌, inl, inr, true, [], ◌++◌, String, str_eq, str_eq_iff,
  Bool-cases,
}
use go_speedtest.ClientIp.{Bytes}
use go_speedtest.Handlers.Auth.{bearer, authorized, authorized_iff}
use go_speedtest.Cli.Run.{push_headers}
use go_speedtest.System.{get_header, IsEncoding}

-- The header that the client sends: none without a token.
get_header-push_headers :
    (token : String)
    → ((token ≡ "") × (get_header "Authorization" (push_headers token) ≡ ""))
      ⊎ ((token ≢ "") × (get_header "Authorization" (push_headers token) ≡ concat "Bearer " token))
unfolding get_header
get_header-push_headers token = elim (Bool-cases (str_eq token "")) [
  | inl e ↦ inl ((str_eq_iff token "").0 e, rw e refl)
  | inr e ↦ inr (λ h. let k = (str_eq_iff token "").1 h in cc, rw e refl)
]

bearer-ne_nil : {s : Bytes} → [] ≡ bearer ++ s → ⊥
bearer-ne_nil h = cc

append_cancel_bearer : {s t : Bytes} → bearer ++ s ≡ bearer ++ t → s ≡ t
append_cancel_bearer h = cc

module _ {encode : String → Bytes} (c : IsEncoding encode) where
  header_iff :
      (api_token token : String)
      → api_token ≢ ""
      → (encode (get_header "Authorization" (push_headers token)) ≡ bearer ++ encode api_token)
        ↔ (api_token ≡ token)
  header_iff api_token token ne = elim (get_header-push_headers token) [
    | inl (e, h) ↦ (
      λ k. absurd (bearer-ne_nil (sym c.empty ∙ (ap encode (sym h) ∙ k))),
      λ k. absurd (ne (k ∙ e)),
    )
    | inr (e, h) ↦ (
      λ k. sym (
          c.injective token api_token
            (append_cancel_bearer (sym (ap encode h ∙ c.after_bearer token) ∙ k))),
      λ k. ap encode h ∙ (c.after_bearer token ∙ ap (λ x. bearer ++ encode x) (sym k)),
    )
  ]

  -- With the client's token the server lets the push through exactly if it has no token or that
  -- one.
  pub push_headers-authorized :
      (api_token token : String)
      → (authorized (encode api_token) (encode (get_header "Authorization" (push_headers token)))
          ≡ true)
        ↔ ((api_token ≡ "") ⊎ (api_token ≡ token))
  push_headers-authorized api_token token =
      let header = encode (get_header "Authorization" (push_headers token)) in
      let a = authorized_iff (encode api_token) header in
      elim (Bool-cases (str_eq api_token "")) [
        | inl e ↦
            let k = (str_eq_iff api_token "").0 e in
            (λ h. inl k, λ h. a.1 (inl (ap encode k ∙ c.empty)))
        | inr e ↦
            let ne : api_token ≢ "" = λ h. let k = (str_eq_iff api_token "").1 h in cc in
            let i = header_iff api_token token ne in
            (
              λ h. elim (a.0 h) [
                | inl z ↦ inl (c.injective api_token "" (z ∙ sym c.empty))
                | inr z ↦ inr (i.0 z)
              ],
              λ h. elim h [ inl z ↦ absurd (ne z) | inr z ↦ a.1 (inr (i.1 z)) ],
            )
      ]
