-- ===== src/Commands/Cli.antt =====
-- The subcommands of coda: cli/commands.go, cli/token.go and cli/image_convert.go, as cmd/coda/main.go
-- puts them together. What is printed comes back, or the error that main prints before it exits
-- with 1.
pub mod Tokens
use opencoda.Prelude.{
  ℕ, not, ◌||◌, List, [], ◌∷◌, ◌++◌, if◌then◌else◌, Text, bytes, text_beq, decimal_ℕ,
}
use opencoda.Api.{CodaToken}
use opencoda.Results.{◌>>=◌, Result, message, ok, err}
use opencoda.Gateway.Token.{create_token}

-- The flags of `coda token new`; the namespace is "default" where it is not given.
pub record TokenFlags : Type 0 where
  pub namespace : Text
  pub token_id : Text

abbrev pub default_token_flags : TokenFlags
default_token_flags = record { namespace = bytes "default"; token_id = [] }

-- The id that is taken where none is given: "token-" and the process id.
unfoldable pub token_id_of : ℕ → Text → Text
unfolding text_beq decimal_ℕ
token_id_of pid token_id =
    if text_beq token_id [] then bytes "token-" ++ decimal_ℕ pid else token_id

-- The cluster as the command meets it: the configuration, the client and the API server.
pub record Cluster : Type 0 where
  pub get_config : Result (Unit {0})
  pub new_client : Result (Unit {0})
  pub create : CodaToken → Result (Unit {0})

unfoldable pub token_new : (Text → Text) → Cluster → ℕ → ℕ → TokenFlags → Result Text
unfolding token_id_of create_token
token_new hash_hex cluster pid unix_nano flags = do
  configured ← cluster.get_config
  connected ← cluster.new_client
  create_token hash_hex cluster.create flags.namespace (token_id_of pid flags.token_id) unix_nano

-- exec.LookPath, and the run of a command.
pub record Tools : Type 0 where
  pub look_path : Text → Result Text
  pub run : List Text → Result (Unit {0})

unfoldable pub convert_image : Tools → Text → Text → Result (Unit {0})
unfolding text_beq
convert_image tools source target =
    if text_beq source [] || text_beq target []
    then err (message (bytes "--source and --target required"))
    else elim (tools.look_path (bytes "nydusify")) [
      | err e ↦
          err
            (message (bytes "nydusify not found in PATH: install from dragonflyoss/nydus releases"))
      | ok nydusify ↦
          tools.run (
            nydusify ∷ bytes "convert" ∷ bytes "--source" ∷ source ∷ bytes "--target" ∷ target ∷ [])
    ]

pub data Command : Type 0 where
  deploy logs scale : Command
  new_token : TokenFlags → Command
  image_convert : Text → Text → Command

-- What a subcommand prints.
unfoldable pub execute : (Text → Text) → Cluster → Tools → ℕ → ℕ → Command → Result Text
unfolding token_new convert_image
execute hash_hex cluster tools pid unix_nano deploy =
    ok (bytes "coda deploy: apply CodaEndpoint CR via gateway (stub)")
execute hash_hex cluster tools pid unix_nano logs =
    ok (bytes "coda logs: stream from Loki via gateway (stub)")
execute hash_hex cluster tools pid unix_nano scale =
    ok (bytes "coda scale: patch scaling annotation (stub)")
execute hash_hex cluster tools pid unix_nano (new_token flags) =
    token_new hash_hex cluster pid unix_nano flags
execute hash_hex cluster tools pid unix_nano (image_convert source target) =
    elim (convert_image tools source target) [ ok done ↦ ok [] | err e ↦ err e ]
