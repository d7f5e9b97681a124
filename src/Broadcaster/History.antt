-- ===== src/Broadcaster/History.antt =====
-- What one subscriber takes, and what is published, while calls run.
use camrtsp.Common.{ℕ, Option, none, some, List, [], ◌∷◌, ◌==◌, if◌then◌else◌}
use camrtsp.Core.{EncodedAccessUnit}
use camrtsp.Broadcaster.{BroadcastState, recv_timeout, prepare}
use camrtsp.Broadcaster.Run.{Call, receiving, publishing, apply}

-- What subscriber `i` takes in a call, and what a call publishes, in front of the earlier ones.
abbrev pub push : Option EncodedAccessUnit → List EncodedAccessUnit → List EncodedAccessUnit
push none given = given
push (some u) given = u ∷ given

unfoldable pub taken : ℕ → Call → BroadcastState → List EncodedAccessUnit → List EncodedAccessUnit
taken i (receiving j) s given = if j == i then push (recv_timeout j s).1 given else given
taken i call s given = given

unfoldable pub published : Call → BroadcastState → List EncodedAccessUnit → List EncodedAccessUnit
published (publishing now u) s units = prepare s.codec u ∷ units
published call s units = units

-- The histories of a run, as subscriber `i` sees it.
pub record History : Type 0 where
  pub state : BroadcastState
  pub units : List EncodedAccessUnit
  pub given : List EncodedAccessUnit

unfoldable pub watch : ℕ → Call → History → History
unfolding taken published
watch i call h = record {
  state = apply call h.state;
  units = published call h.state h.units;
  given = taken i call h.state h.given;
}

unfoldable pub watch_all : ℕ → List Call → History → History
unfolding watch
watch_all i [] h = h
watch_all i (call ∷ calls) h = watch_all i calls (watch i call h)
