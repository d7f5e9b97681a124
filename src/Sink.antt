-- ===== src/Sink.antt =====
-- crates/camrtsp-core/src/lib.rs, `AccessUnitSink`: where a capture backend sends its access units. The
-- two closures that it holds are those of apps/cli/src/main.rs, which call the broadcaster; what a
-- backend does to a sink is the list of its calls, in order.
pub mod Reaching
use camrtsp.Common.{ℕ, List, [], ◌∷◌}
use camrtsp.Core.{CodecConfig, EncodedAccessUnit}
use camrtsp.Broadcaster.{BroadcastState, set_codec_config, publish}

pub data SinkCall : Type 0 where
  published : EncodedAccessUnit → SinkCall
  configured : CodecConfig → SinkCall

-- One call, on the broadcaster that the closures share, at the time `now`.
unfoldable pub apply_call : ℕ → SinkCall → BroadcastState → BroadcastState
unfolding publish set_codec_config
apply_call now (published unit) source = publish now unit source
apply_call now (configured codec) source = set_codec_config codec source

unfoldable pub apply_calls : ℕ → List SinkCall → BroadcastState → BroadcastState
unfolding apply_call
apply_calls now [] source = source
apply_calls now (call ∷ calls) source = apply_calls now calls (apply_call now call source)
