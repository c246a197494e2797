-- ===== src/Commands/Tests.antt =====
-- Runs of the commands.
use opencoda.Prelude.{◌≡◌, refl, none, [], ◌∷◌, pos, Text, bytes, text_beq, split, decimal_ℕ, Dict}
use opencoda.Results.{ok}
use opencoda.Gateway.Router.{new_router, EndpointState}
use opencoda.Gateway.Server.{mux, Json, Outcome, nil_map, unsent}
use opencoda.Gateway.Server.Requests.{serve}
use opencoda.Gateway.Token.{create_token}
use opencoda.Commands.Cli.{
  default_token_flags, token_id_of, token_new, execute, Cluster, Tools, deploy,
}
use opencoda.Commands.Cli.Tokens.{new_resource, bearer, serve-token_new}
use opencoda.Commands.NodeAgent.{image_list}

abbrev digest : Text → Text
digest s = b'#' ∷ s

abbrev cluster : Cluster
cluster = record { get_config = ok tt; new_client = ok tt; create = λ token. ok tt }

printed : token_new digest cluster 42 7 default_token_flags ≡ ok (bytes "token-42:token-42-7")
unfolding token_new token_id_of create_token text_beq decimal_ℕ
printed = refl

abbrev json : Json
json = record {
  model_of = λ body. body;
  object_of = λ body. nil_map;
  encode_text = λ t. none;
  encode_object = λ o. none;
}

abbrev in_order : Dict EndpointState → Dict EndpointState
in_order d = d

abbrev post : Text → Text → Outcome
post url body = unsent url

abbrev pair : Text
pair = bytes "token-42:token-42-7"

serve-token_new_example :
    serve in_order json post
      (λ n. 0)
      digest
      (pos 9)
      (new_resource digest 42 7 default_token_flags ∷ [])
      (bearer (bytes "/v1/models") pair [])
      new_router
    ≡ mux in_order json post (λ n. 0) (bearer (bytes "/v1/models") pair []) new_router
unfolding token_id_of text_beq
serve-token_new_example =
    serve-token_new in_order json post (λ n. 0) digest (pos 9) cluster 42 7 default_token_flags pair
      (bytes "/v1/models") [] [] [] new_router tt tt printed

two_images : image_list (bytes "a,b") ≡ bytes "a" ∷ bytes "b" ∷ []
unfolding image_list split
two_images = refl

-- The subcommands that are stubs change nothing and succeed.
stubs :
    (tools : Tools)
    → execute digest cluster tools 42 7 deploy
      ≡ ok (bytes "coda deploy: apply CodaEndpoint CR via gateway (stub)")
unfolding execute
stubs tools = refl
