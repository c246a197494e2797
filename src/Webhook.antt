-- ===== src/Webhook.antt =====
-- internal/webhook/codaendpoint_webhook.go: the admission of a CodaEndpoint. The decoded object
-- comes in as a result; quoting a text in a message is an argument.
pub mod Admission
mod Tests
use opencoda.Prelude.{
  Bool, true, false, not, ◌&&◌, none, some, [], ◌++◌, if◌then◌else◌, Text, bytes, text_beq,
}
use opencoda.Api.{CodaEndpoint}
use opencoda.Results.{Error, Result, ok, err}

pub data Response : Type 0 where
  allowed : Response
  denied : Text → Response
  errored : Error → Response

unfoldable pub runtime_class : CodaEndpoint → Text
unfolding text_beq
runtime_class ep = if text_beq ep.spec.runtime.class [] then bytes "runc" else ep.spec.runtime.class

abbrev pub has_snapshot : CodaEndpoint → Bool
has_snapshot ep = elim ep.spec.snapshot [ none ↦ false | some ref ↦ true ]

unfoldable pub admit : (Text → Text) → CodaEndpoint → Response
unfolding runtime_class text_beq
admit quote ep =
    if has_snapshot ep && not (text_beq (runtime_class ep) (bytes "runc"))
    then denied
        (bytes "SnapshotClass requires runtime.class=runc, got " ++ quote (runtime_class ep))
    else if not (text_beq ep.spec.engine.kind [])
        && not (text_beq ep.spec.engine.kind (bytes "vllm"))
    then denied (
        bytes "engine type "
        ++ (quote ep.spec.engine.kind ++ bytes " not supported in v1 (only vllm)"))
    else allowed

unfoldable pub handle : (Text → Text) → Result CodaEndpoint → Response
unfolding admit
handle quote (err e) = errored e
handle quote (ok ep) = admit quote ep
