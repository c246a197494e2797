-- ===== src/Gateway/Token.antt =====
-- internal/gateway/token.go: bearer tokens against CodaToken resources. The digest, SHA-256 in
-- hexadecimal, is the standard library's and an argument.
pub mod Validation
use opencoda.Prelude.{
  ℕ, Bool, true, false, not, none, some, List, [], ◌∷◌, ◌++◌, if◌then◌else◌, ltb_ℤ, pos, Text,
  bytes, text_beq, has_prefix, trim_prefix, cut, decimal_ℕ,
}
use opencoda.Api.{Time, CodaToken}
use opencoda.Results.{Result, ok, err}

module _ (hash_hex : Text → Text) (now : Time) where
  -- The loop over the listed tokens: the first with this id decides.
  unfoldable pub match_token : Text → Text → List CodaToken → Bool
  match_token token_id secret [] = false
  match_token token_id secret (tok ∷ rest) =
      let later = match_token token_id secret rest in
      let in_time : Bool = elim tok.spec.expires_at [ none ↦ true | some t ↦ not (ltb_ℤ t now) ] in
      if not (text_beq tok.spec.token_id token_id)
      then later
      else if not (text_beq tok.spec.secret_hash (hash_hex secret))
      then false
      else in_time

  -- `listed` is the result of listing the CodaToken resources.
  unfoldable pub validate : Text → Result (List CodaToken) → Bool
  unfolding match_token
  validate auth_header listed =
      let token = trim_prefix auth_header (bytes "Bearer ") in
      let answer : Bool = elim (cut b':' token) [
        | none ↦ false
        | some (token_id, secret) ↦ elim listed [
          | ok tokens ↦ match_token token_id secret tokens
          | err e ↦ false
        ]
      ] in
      if not (has_prefix auth_header (bytes "Bearer ")) then false else answer

module _ (hash_hex : Text → Text) where
  -- The secret is made of the id and the clock's nanoseconds, `unix_nano`.
  abbrev pub secret_of : Text → ℕ → Text
  secret_of token_id unix_nano = token_id ++ (b'-' ∷ decimal_ℕ unix_nano)

  unfoldable pub token_resource : Text → Text → ℕ → CodaToken
  token_resource namespace token_id unix_nano = record {
    metadata = record {
      name = token_id;
      namespace = namespace;
      labels = [];
      annotations = [];
      creation_timestamp = pos 0;
    };
    spec = record {
      token_id = token_id;
      secret_hash = hash_hex (secret_of token_id unix_nano);
      expires_at = none;
    };
    status = record { conditions = [] };
  }

  -- `create` is the API server's answer to the new resource.
  unfoldable pub create_token : (CodaToken → Result (Unit {0})) → Text → Text → ℕ → Result Text
  unfolding token_resource
  create_token create namespace token_id unix_nano =
      elim (create (token_resource namespace token_id unix_nano)) [
        | ok done ↦ ok (token_id ++ (b':' ∷ secret_of token_id unix_nano))
        | err e ↦ err e
      ]
