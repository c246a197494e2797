-- ===== src/Gateway/Token/Validation.antt =====
-- Which bearer tokens pass.
use opencoda.Prelude.{
  ℕ, ◌≡◌, refl, ◌∙◌, true, false, some, List, [], ◌∷◌, ◌++◌, arith, nat_beq, All, ◌≤ℤ◌, Text, bytes,
  text_beq, text_beq_refl, has_prefix, trim_prefix, cut,
}
use opencoda.Api.{Time, CodaToken}
use opencoda.Results.{Result, ok}
use opencoda.Gateway.Token.{match_token, validate, secret_of, token_resource, create_token}

-- The id has no colon, at which the pair of id and secret is cut.
abbrev pub NoColon : Text → Type 0
NoColon id = All (λ c. nat_beq c b':' ≡ false) id

cut-append : (id s : Text) → NoColon id → cut b':' (id ++ (b':' ∷ s)) ≡ some (id, s)
unfolding cut
cut-append [] s h = refl
cut-append (c ∷ id) s h = rw (cut-append id s h.1, h.0)

-- None of the tokens has this id.
abbrev pub Fresh : Text → List CodaToken → Type 0
Fresh id tokens = All (λ t. text_beq t.spec.token_id id ≡ false) tokens

module _ (hash_hex : Text → Text) (now : Time) where
  match_token-Fresh :
      (id secret : Text) (xs ys : List CodaToken)
      → Fresh id xs
      → match_token hash_hex now id secret (xs ++ ys) ≡ match_token hash_hex now id secret ys
  unfolding match_token
  match_token-Fresh id secret [] ys h = refl
  match_token-Fresh id secret (x ∷ xs) ys h =
      rw (match_token, h.0) (match_token-Fresh id secret xs ys h.1)

  bearer-validate :
      (pair : Text) (tokens : List CodaToken) (id secret : Text)
      → cut b':' pair ≡ some (id, secret)
      → validate hash_hex now (bytes "Bearer " ++ pair) (ok tokens)
        ≡ match_token hash_hex now id secret tokens
  unfolding validate has_prefix trim_prefix
  bearer-validate pair tokens id secret e = rw e

  create_token-ok :
      (create : CodaToken → Result (Unit {0})) (namespace id pair : Text) (nano : ℕ)
      → create_token hash_hex create namespace id nano ≡ ok pair
      → pair ≡ id ++ (b':' ∷ secret_of hash_hex id nano)
  unfolding create_token
  create_token-ok create namespace id pair nano e = ground arith

  match_token-resource :
      (namespace id : Text) (nano : ℕ) (ys : List CodaToken)
      → match_token hash_hex now id
          (secret_of hash_hex id nano)
          (token_resource hash_hex namespace id nano ∷ ys)
        ≡ true
  unfolding match_token token_resource
  match_token-resource namespace id nano ys =
      rw (text_beq_refl id, text_beq_refl (hash_hex (secret_of hash_hex id nano)))

  -- A pair that CreateToken hands out passes as a bearer token as soon as the new resource is
  -- listed: if the id has no colon and no token listed before it has the same id.
  pub validate-create_token :
      (create : CodaToken → Result (Unit {0})) (namespace id pair : Text) (nano : ℕ)
      (xs ys : List CodaToken)
      → NoColon id
      → Fresh id xs
      → create_token hash_hex create namespace id nano ≡ ok pair
      → validate hash_hex now
          (bytes "Bearer " ++ pair)
          (ok (xs ++ (token_resource hash_hex namespace id nano ∷ ys)))
        ≡ true
  unfolding create_token
  validate-create_token create namespace id pair nano xs ys c f e =
      rw (create_token-ok create namespace id pair nano e) (
        bearer-validate (id ++ (b':' ∷ secret_of hash_hex id nano)) _ id
          (secret_of hash_hex id nano) (cut-append id (secret_of hash_hex id nano) c)
        ∙ match_token-Fresh id (secret_of hash_hex id nano) xs _ f
        ∙ match_token-resource namespace id nano ys)

-- The first token listed under the id has the digest of the secret and has not run out.
pub record Found (hash_hex : Text → Text) (now : Time) (id secret : Text) (tokens : List CodaToken)
    : Type 0 where
  pub before : List CodaToken
  pub token : CodaToken
  pub after : List CodaToken
  pub listed : tokens ≡ before ++ (token ∷ after)
  pub first : Fresh id before
  pub same_id : token.spec.token_id ≡ id
  pub digest : token.spec.secret_hash ≡ hash_hex secret
  pub in_time : (t : Time) → token.spec.expires_at ≡ some t → now ≤ℤ t
