-- ===== src/Broadcaster/Run.antt =====
-- Any sequence of calls of the broadcaster's methods, by any number of sessions and publishers, in
-- the order in which they take the lock.
use camrtsp.Common.{ℕ, List, [], ◌∷◌}
use camrtsp.Core.{CodecConfig, EncodedAccessUnit}
use camrtsp.Broadcaster.{
  BroadcastState, subscribe, drop_subscription, recv_timeout, set_codec_config, set_frame_rate,
  take_keyframe_request, publish,
}

pub data Call : Type 0 where
  subscribing : Call
  dropping : ℕ → Call
  receiving : ℕ → Call
  configuring : CodecConfig → Call
  rating : ℕ → ℕ → Call
  taking_request : Call
  publishing : ℕ → EncodedAccessUnit → Call

unfoldable pub apply : Call → BroadcastState → BroadcastState
unfolding subscribe drop_subscription recv_timeout set_codec_config set_frame_rate
    take_keyframe_request publish
apply subscribing s = (subscribe s).0
apply (dropping i) s = drop_subscription i s
apply (receiving i) s = (recv_timeout i s).0
apply (configuring codec) s = set_codec_config codec s
apply (rating numerator denominator) s = set_frame_rate numerator denominator s
apply taking_request s = (take_keyframe_request s).0
apply (publishing now unit) s = publish now unit s

unfoldable pub run : BroadcastState → List Call → BroadcastState
unfolding apply
run s [] = s
run s (call ∷ calls) = run (apply call s) calls
