-- ===== src/Session/LeftAlone.antt =====
-- A whole session in which no request is authorized.
use camrtsp.Common.{◌≡◌, List, [], ◌∷◌, ◌++◌}
use camrtsp.Broadcaster.{BroadcastState}
use camrtsp.Broadcaster.Run.{run}
use camrtsp.Session.{Config, Tick, Session}
use camrtsp.Session.Media.{round, joined}
use camrtsp.Session.Safety.{IsUntouched}
use camrtsp.Session.Refused.{RoundRefused}

-- Every round of the loop takes a request that is refused, or none.
abbrev pub AllRefused : Config → List Tick → Session → Type 0
AllRefused c [] s = Unit
AllRefused c (t ∷ ts) s = RoundRefused c t (joined t s) × AllRefused c ts (round c t (joined t s)).1

-- What the other threads made of the broadcaster before some rounds.
abbrev pub left_by_others : List Tick → BroadcastState → BroadcastState
left_by_others [] source = source
left_by_others (t ∷ ts) source = left_by_others ts (run source t.others)

-- A session that was left alone but for its broadcaster, which other threads changed before the rounds
-- that were done, and nobody else.
pub record IsLeftToOthers (ts : List Tick) (before after : Session) : Type 0 where
  pub done : List Tick
  pub undone : List Tick
  pub rounds : ts ≡ done ++ undone
  pub source : after.source ≡ left_by_others done before.source
  pub untouched : IsUntouched (record before { source = after.source }) after
