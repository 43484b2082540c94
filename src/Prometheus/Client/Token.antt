-- ===== src/Prometheus/Client/Token.antt =====
-- Which bearer token a request carries.
use sre_operator.Common.{
  ℕ, ◌≡◌, ◌≢◌, ◌≤◌, ◌<◌, false, none, some, [], ◌++◌, Text, str, ◌==◌, eq_iff, arith, Bool-cases,
  Option-cases, inl, inr,
}
use sre_operator.Diagnostics.Lines.{trim_space}
use sre_operator.Prometheus.Client.{new_client, get, read_token, refreshed, body_of, authorization}
use sre_operator.Prometheus.Network.{Client, Config, Network, ok, Exchange, response, token_path}

module _ (net : Network) (content : Text) (readable : net.read_file token_path ≡ some content)
    (token_there : trim_space content ≢ []) where
  read_token-default : read_token net token_path ≡ some (trim_space content)
  unfolding read_token
  read_token-default = rw (readable, read_token)

  not_empty : (trim_space content == []) ≡ false
  not_empty = elim (Bool-cases (trim_space content == [])) [
    | inl e ↦ absurd (token_there ((eq_iff _ _).0 e))
    | inr e ↦ e
  ]

  -- While the service account's token can be read and is not empty, a request that can be built is
  -- sent with that token by a client of every configuration, also by one with a token path of its own.
  pub get_ignores_token_path :
      (cfg : Config) (endpoint : Text) (buildable : net.refuse endpoint ≡ none)
      → let c = record (new_client net cfg) { token = trim_space content } in
        get net (new_client net cfg) endpoint
        ≡ (c, body_of (net.exchange c endpoint (some (str "Bearer " ++ trim_space content))))
  unfolding get refreshed authorization
  get_ignores_token_path cfg endpoint buildable =
      rw (buildable, get) (rw (read_token-default, get) (rw (not_empty, refreshed) (rw not_empty)))

body_of-ok :
    (x : Exchange) (body : Text)
    → body_of x ≡ ok body
    → (status : ℕ) × (200 ≤ status) × (status < 300) × (x ≡ response status body)
unfolding body_of
body_of-ok (Exchange.broken e) body h = cc
body_of-ok (Exchange.unread e) body h = cc
body_of-ok (response status b) body h = (status, ground arith, ground arith, ground arith)

-- A body is returned only from a response with a status of 200 to 299 to a request for the endpoint
-- that carries the client's token, as it is after the call.
pub get_ok :
    (net : Network) (c : Client) (endpoint body : Text)
    → (get net c endpoint).1 ≡ ok body
    → let after = (get net c endpoint).0 in
      (status : ℕ) × (200 ≤ status)
      × (status < 300)
      × (net.exchange after endpoint (authorization net after) ≡ response status body)
unfolding get
get_ok net c endpoint body = elim (Option-cases (net.refuse endpoint)) [
  | inl e ↦ rw (e, get) (λ h. body_of-ok _ body h)
  | inr (m, e) ↦ rw (e, get) (λ h. cc)
]
