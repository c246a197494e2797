-- ===== src/Commands/Cli/Tokens.antt =====
-- The pair that `coda token new` prints, at the gateway.
use opencoda.Prelude.{
  ℕ, ◌≡◌, refl, inl, inr, List, [], ◌∷◌, ◌++◌, arith, Bool-cases, IsDigits, decimal_ℕ-IsDigits,
  Text, bytes, text_beq, decimal_ℕ, Dict,
}
use opencoda.Api.{Time, CodaToken, Float64}
use opencoda.Results.{Result-cases, ok}
use opencoda.Gateway.Router.{Router, EndpointState}
use opencoda.Gateway.Server.{mux, middleware, HttpRequest, Json, Outcome}
use opencoda.Gateway.Server.Requests.{serve}
use opencoda.Gateway.Token.{create_token, token_resource}
use opencoda.Gateway.Token.Validation.{NoColon, Fresh, validate-create_token}
use opencoda.Commands.Cli.{token_id_of, token_new, TokenFlags, Cluster}

-- The default id has no colon.
NoColon-digits : (ds : Text) → IsDigits ds → NoColon ds
NoColon-digits [] h = tt
NoColon-digits (c ∷ ds) h = (ground (arith, h.0), NoColon-digits ds h.1)

NoColon-token_id_of : (pid : ℕ) (id : Text) → NoColon id → NoColon (token_id_of pid id)
unfolding token_id_of decimal_ℕ
NoColon-token_id_of pid id h = elim (Bool-cases (text_beq id [])) [
  | inl missing ↦ rw missing (
    refl,
    (refl, (refl, (refl, (refl, (refl, NoColon-digits (decimal_ℕ pid) (decimal_ℕ-IsDigits pid)))))),
  )
  | inr given ↦ rw given h
]

-- What token_new prints comes from CreateToken.
token_new-create_token :
    (hash_hex : Text → Text) (cluster : Cluster) (pid nano : ℕ) (flags : TokenFlags) (pair : Text)
    → token_new hash_hex cluster pid nano flags ≡ ok pair
    → create_token hash_hex cluster.create flags.namespace (token_id_of pid flags.token_id) nano
      ≡ ok pair
unfolding token_new
token_new-create_token hash_hex cluster pid nano flags pair e =
    elim (Result-cases cluster.get_config) [
      | inl (failure, refused) ↦ absurd (ground (arith, refused, e))
      | inr (done, configured) ↦ elim (Result-cases cluster.new_client) [
        | inl (failure, refused) ↦ absurd (ground (arith, configured, refused, e))
        | inr (done', connected) ↦ ground (arith, configured, connected, e)
      ]
    ]

-- The resource that `coda token new` makes, and a request with a pair as its bearer token.
abbrev pub new_resource : (Text → Text) → ℕ → ℕ → TokenFlags → CodaToken
new_resource hash_hex pid nano flags =
    token_resource hash_hex flags.namespace (token_id_of pid flags.token_id) nano

abbrev pub bearer : Text → Text → Text → HttpRequest
bearer path pair body = record { path = path; authorization = bytes "Bearer " ++ pair; body = body }

module _ (visit : Dict EndpointState → Dict EndpointState) (json : Json)
    (post : Text → Text → Outcome) (kv_hit_rate : Text → Float64) (hash_hex : Text → Text)
    (now : Time) where
  -- The pair that `coda token new` prints, for an id without a colon or for none, opens the gateway
  -- once its resource is listed and no token listed before it has the same id: a request with the
  -- pair as its bearer token comes to the handler of its path.
  pub serve-token_new :
      (cluster : Cluster) (pid nano : ℕ) (flags : TokenFlags) (pair path body : Text)
      (xs ys : List CodaToken) (r : Router)
      → NoColon flags.token_id
      → Fresh (token_id_of pid flags.token_id) xs
      → token_new hash_hex cluster pid nano flags ≡ ok pair
      → serve visit json post kv_hit_rate hash_hex now
          (xs ++ (new_resource hash_hex pid nano flags ∷ ys))
          (bearer path pair body)
          r
        ≡ mux visit json post kv_hit_rate (bearer path pair body) r
  unfolding middleware
  serve-token_new cluster pid nano flags pair path body xs ys r no_colon fresh printed =
      let valid =
        validate-create_token hash_hex now cluster.create flags.namespace
          (token_id_of pid flags.token_id) pair nano xs ys
          (NoColon-token_id_of pid flags.token_id no_colon) fresh
          (token_new-create_token hash_hex cluster pid nano flags pair printed) in
      elim (Bool-cases (text_beq path (bytes "/healthz"))) [
        | inl health ↦ rw (middleware, health) refl
        | inr other ↦ rw (middleware, other, valid) refl
      ]
