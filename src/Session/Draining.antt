-- ===== src/Session/Draining.antt =====
-- From a queue of access units to the viewer: the rounds of `handle`'s loop in which no request is
-- complete, until the units that were in the queue are sent.
use camrtsp.Common.{
  true, ℕ, ◌+◌, ◌*◌, ◌≤◌, ◌<◌, ◌≡◌, refl, sym, ap, ◌∙◌, subst, some, List, [], ◌∷◌, ◌++◌,
  append-nil, append_assoc, length, drop, drop-length, All, arith, Result, ok, err,
}
use camrtsp.Io.{IoError}
use camrtsp.Core.{EncodedAccessUnit}
use camrtsp.Rtp.Reassembly.{receive_all}
use camrtsp.Broadcaster.{BroadcastState, Client, find, front, pop_front, recv_timeout}
use camrtsp.Broadcaster.Lookup.{find-update_self}
use camrtsp.Broadcaster.Run.{run}
use camrtsp.Broadcaster.Undisturbed.{AllHarmless, run-IsGrown}
use camrtsp.Request.{incomplete, read_control}
use camrtsp.Transport.{Delivery, Output}
use camrtsp.Session.{Config, Tick, Session, Flow, next_round, serve, ended}
use camrtsp.Session.Media.{marked_payloads, round, close, joined, session_loop}
use camrtsp.Session.Sending.{packet_writes}
use camrtsp.Session.Viewer.{viewed, numbered, bodies}
use camrtsp.Session.Viewer.Reading.{AreApart, viewed-nil, viewed-packet_writes}
use camrtsp.Session.Viewer.Units.{empty_receiver, marked_payloads-Short}
use camrtsp.Session.Viewer.Queue.{all_numbered, all_nals, IsSendable, receive-all_numbered}
use camrtsp.Session.Delivering.{
  Sent, written_since, CanSend, length-packet_writes, before_delivery, round-Sent,
}

-- Writes that are enough for a list of access units: two for a packet, and two for each report.
abbrev pub writes_for : List EncodedAccessUnit → ℕ
writes_for [] = 0
writes_for (unit ∷ units) = 2 * length (marked_payloads unit.nal_units) + 2 + writes_for units

-- No request is complete in any of the rounds.
abbrev pub AllQuiet : List Tick → List ℕ → Type 0
AllQuiet [] input = Unit
AllQuiet (t ∷ ts) input =
    ((read_control t.socket input).0 ≡ incomplete) × AllQuiet ts (read_control t.socket input).1

session_loop_goes_on :
    (c : Config) (t : Tick) (ts : List Tick) (s : Session)
    → (round c t (joined t s)).0 ≡ ok next_round
    → session_loop c (t ∷ ts) s ≡ session_loop c ts (round c t (joined t s)).1
unfolding session_loop
session_loop_goes_on c t ts s e =
    let s' = (round c t (joined t s)).1 in
    let rest = session_loop c ts s' in
    ap
      (λ (result : Result IoError Flow). elim result [
        | err e ↦ close s'
        | ok flow ↦ elim flow [ next_round ↦ rest | serve ↦ rest | ended ↦ close s' ]
      ])
      e

pop_front-id : (client : Client) → (pop_front client).id ≡ client.id
pop_front-id client = refl

front_taken :
    (c : Client) (unit : EncodedAccessUnit) (rest : List EncodedAccessUnit)
    → c.frames ≡ unit ∷ rest
    → (front (some c) ≡ some unit) × ((pop_front c).frames ≡ rest)
front_taken c unit rest e = rw e (refl, refl)

-- The calls of other threads before each of the rounds only add to the subscriber's queue, of which
-- each round takes the first unit.
abbrev pub Undisturbed : ℕ → List Tick → BroadcastState → Type 0
Undisturbed id [] source = Unit
Undisturbed id (t ∷ ts) source =
    AllHarmless id t.others source × Undisturbed id ts (recv_timeout id (run source t.others)).0

-- What the session has written in the rounds, as the viewer reads it.
record IsEmptied (c : Config) (delivery : Delivery) (units : List EncodedAccessUnit)
    (s s' : Session) : Type 0 where
  pub written : List Output
  pub grown : s'.out ≡ s.out ++ written
  pub read : viewed delivery written ≡ all_numbered c.ssrc s.sequence units

module _ (c : Config) (delivery : Delivery) (id : ℕ) (apart : AreApart delivery)
    (source_fits : c.ssrc < 4294967296) where
  -- The first unit before the others.
  first-IsEmptied :
      (unit : EncodedAccessUnit) (units : List EncodedAccessUnit) (t : Tick) (s s' last : Session)
      → IsSendable unit
      → s.sequence < 65536
      → Sent c delivery unit (before_delivery t id (joined t s)) s'
      → IsEmptied c delivery units s' last
      → IsEmptied c delivery (unit ∷ units) s last
  unfolding all_numbered
  first-IsEmptied unit units t s s' last ready fits sent later =
      let ps = marked_payloads unit.nal_units in
      let packets = packet_writes c delivery unit.pts_90khz s.sequence ps in
      record {
        written = packets ++ (sent.behind ++ later.written);
        grown =
            later.grown
            ∙ ap (λ os. os ++ later.written) sent.grown
            ∙ append_assoc s.out (packets ++ sent.behind) later.written
            ∙ ap (λ os. s.out ++ os) (append_assoc packets sent.behind later.written);
        read =
            viewed-packet_writes c delivery unit.pts_90khz s.sequence ps
              (sent.behind ++ later.written) source_fits ready.0 fits
              (marked_payloads-Short unit.nal_units)
            ∙ ap (λ l. numbered c.ssrc unit.pts_90khz s.sequence ps ++ l)
                (sent.unseen later.written
                  ∙ later.read
                  ∙ ap (λ n. all_numbered c.ssrc n units) sent.numbered_on);
      }

  emptied :
      (units : List EncodedAccessUnit) (ts : List Tick) (s : Session) (client : Client)
      → s.subscription ≡ some id
      → s.delivery ≡ some delivery
      → find id s.source.clients ≡ some client
      → client.alive ≡ true
      → (more : List EncodedAccessUnit) → client.frames ≡ units ++ more
      → Undisturbed id ts s.source
      → length ts ≡ length units
      → AllQuiet ts s.input
      → All IsSendable units
      → s.sequence < 65536
      → writes_for units ≤ s.writes_left
      → IsEmptied c delivery units s (session_loop c ts s)
  unfolding all_numbered
  emptied [] [] s client playing set_up found live more queue harmless count quiet ready fits room =
      unfold session_loop in
      record { written = []; grown = sym (append-nil s.out); read = viewed-nil delivery }
  emptied [] (t ∷ ts) s client playing set_up found live more queue harmless count quiet ready fits
        room =
      absurd (omega arith)
  emptied (unit ∷ units) [] s client playing set_up found live more queue harmless count quiet ready
        fits room =
      absurd (omega arith)
  emptied (unit ∷ units) (t ∷ ts) s client playing set_up found live more queue harmless count quiet
        ready fits room =
      let ps = marked_payloads unit.nal_units in
      let s0 = joined t s in
      let grown = run-IsGrown id t.others client s.source found live harmless.0 in
      let more' = more ++ grown.more in
      let queue0 : grown.client.frames ≡ unit ∷ (units ++ more') =
        grown.queue
        ∙ ap (λ l. l ++ grown.more) queue
        ∙ ap (λ l. unit ∷ l) (append_assoc units more grown.more) in
      let taken = front_taken grown.client unit (units ++ more') queue0 in
      let before = before_delivery t id s0 in
      let can : CanSend c delivery unit before = record {
        apart = apart;
        source_fits = source_fits;
        time_fits = ready.0.0;
        sequence_fits = fits;
        units = ready.0.1;
        enough_writes =
            omega (arith, room, length-packet_writes c delivery unit.pts_90khz s.sequence ps);
      } in
      let first : front (find id s0.source.clients) ≡ some unit = ap front grown.found ∙ taken.0 in
      let (went, sent) = round-Sent c t delivery unit id s0 playing set_up first quiet.0 can in
      let s' = (round c t s0).1 in
      let found' : find id s'.source.clients ≡ some (pop_front grown.client) =
        ap (λ (source : BroadcastState). find id source.clients) sent.source
        ∙ (unfold recv_timeout in
            find-update_self id pop_front s0.source.clients grown.client pop_front-id
              grown.found) in
      let harmless' : Undisturbed id ts s'.source =
        subst (Undisturbed id ts) (sym sent.source) harmless.1 in
      let quiet' : AllQuiet ts s'.input = subst (AllQuiet ts) (sym sent.input) quiet.1 in
      let later =
        emptied units ts s' (pop_front grown.client) (sent.playing ∙ playing) (sent.set_up ∙ set_up)
          found' grown.live more' taken.1 harmless' (omega (arith, count)) quiet' ready.1
          (omega (arith, sent.numbered_on)) (omega (arith, room, sent.writes)) in
      subst (IsEmptied c delivery (unit ∷ units) s) (sym (session_loop_goes_on c t ts s went))
        (first-IsEmptied unit units t s s' (session_loop c ts s') ready.0 fits sent later)

-- In as many rounds without a complete request as a playing viewer has access units in its queue, the
-- session delivers them all, if other threads, which may act before each round, do not drop the queue
-- or take from it: they change no codec's parameter sets, publish nothing while the queue is full, and
-- leave the subscription alone; what they publish goes behind these units. Over TCP or UDP the viewer reads the RTP packets of every unit in the
-- order of the queue, with the unit's time and with sequence numbers that go on from one unit to the
-- next, and from them the NAL units of all; the reports between them do not disturb it. The
-- transport's RTP and RTCP sides differ, the numbers fit their fields, no write fails, and no NAL unit
-- is empty or a fragment.
pub queued_units_arrive :
    (c : Config) (ts : List Tick) (delivery : Delivery) (id : ℕ) (s : Session) (client : Client)
    → s.subscription ≡ some id
    → s.delivery ≡ some delivery
    → find id s.source.clients ≡ some client
    → client.alive ≡ true
    → Undisturbed id ts s.source
    → length ts ≡ length client.frames
    → AllQuiet ts s.input
    → AreApart delivery
    → c.ssrc < 4294967296
    → s.sequence < 65536
    → All IsSendable client.frames
    → writes_for client.frames ≤ s.writes_left
    → let packets = viewed delivery (written_since s (session_loop c ts s)) in
      (packets ≡ all_numbered c.ssrc s.sequence client.frames)
      × ((receive_all empty_receiver (bodies packets)).units ≡ all_nals client.frames)
queued_units_arrive c ts delivery id s client playing set_up found live harmless count quiet apart
      source_fits fits ready room =
    let d =
      emptied c delivery id apart source_fits client.frames ts s client playing set_up found live []
        (sym (append-nil client.frames)) harmless count quiet ready fits room in
    let read : viewed delivery (written_since s (session_loop c ts s))
        ≡ all_numbered c.ssrc s.sequence client.frames =
      ap (λ os. viewed delivery (drop (length s.out) os)) d.grown
      ∙ ap (viewed delivery) (drop-length s.out d.written)
      ∙ d.read in
    (
      read,
      ap (λ ps. (receive_all empty_receiver (bodies ps)).units) read
          ∙ receive-all_numbered empty_receiver c.ssrc s.sequence client.frames ready,
    )
