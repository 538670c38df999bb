-- ===== src/Sampling/Storage/JsonCodec.antt =====
-- x-pack/apm-server/sampling/eventstorage/jsoncodec.go: the codec of stored events. The JSON libraries
-- are parameters.
use apm_server.Prelude.{String, Bytes, ◌⊎◌}
use apm_server.Model.Event.{ApmEvent, zero_event}
use apm_server.Sampling.Storage.{Codec}

-- What the codec uses of encoding/json and of github.com/json-iterator/go, which fills in the fields of
-- an event.
pub record EncodingJson (F : Type 0) : Type 0 where
  pub marshal : ApmEvent F → Bytes ⊎ String
  pub unmarshal : Bytes → ApmEvent F → ApmEvent F ⊎ String

-- `JSONCodec`, decoding into a new event as `ReadTraceEvents` does.
abbrev pub json_codec : {F : Type 0} → EncodingJson F → Codec F
json_codec {F} json = record {
  encode_event = json.marshal;
  decode_event = λ value. json.unmarshal value (zero_event F);
}
