-- ===== src/Session/Safety.antt =====
-- What a session may not do.
use camrtsp.Common.{ℕ, zero, suc, ◌≡◌, ◌≢◌, refl, false, same, ok}
use camrtsp.Text.{chars}
use camrtsp.Request.{Request}
use camrtsp.Auth.{authorized}
use camrtsp.Transport.{Output}
use camrtsp.Session.{Config, Tick, Session, next_round, serve, pure, continue_with, write_with}
use camrtsp.Session.Control.{unauthorized, handle_request}

-- What a refused request leaves alone.
pub record IsUntouched (before after : Session) : Type 0 where
  pub delivery : after.delivery ≡ before.delivery
  pub subscription : after.subscription ≡ before.subscription
  pub source : after.source ≡ before.source
  pub counters :
      (after.sequence ≡ before.sequence)
      × (after.packets ≡ before.packets)
      × (after.octets ≡ before.octets)
  pub reports :
      (after.last_timestamp ≡ before.last_timestamp) × (after.last_report ≡ before.last_report)

-- An answer after which the round is over changes what was written, and no more.
refused_by_write :
    (n : ℕ) (o : Output) (before s : Session)
    → IsUntouched before s
    → s.input ≡ before.input
    → IsUntouched before (continue_with (λ _. pure next_round) (write_with n o s)).1
      × ((continue_with (λ _. pure next_round) (write_with n o s)).1.input ≡ before.input)
      × ((continue_with (λ _. pure next_round) (write_with n o s)).0 ≢ ok serve)
unfolding write_with
refused_by_write zero o before s h e = (h, e, λ p. cc)
refused_by_write (suc n) o before s h e = (
  record {
    delivery = h.delivery;
    subscription = h.subscription;
    source = h.source;
    counters = h.counters;
    reports = h.reports;
  },
  e,
  λ p. cc,
)

-- A request other than OPTIONS that is not authorized changes nothing but the nonce, the time of the
-- last request and what was written: no transport is set up, no subscription made or dropped, the
-- broadcaster is not called, and the buffer, the three counters and the two times of the reports stay.
-- Its round of the loop delivers nothing.
pub unauthorized-IsUntouched :
    (c : Config) (t : Tick) (request : Request) (s : Session)
    → same request.method (chars "OPTIONS") ≡ false
    → authorized c.packages request c.credentials s.auth t.at_request ≡ false
    → IsUntouched s (handle_request c t request s).1
      × ((handle_request c t request s).1.input ≡ s.input)
      × ((handle_request c t request s).0 ≢ ok serve)
unfolding handle_request
unauthorized-IsUntouched c t request s not_options denied =
    rw (not_options, denied)
      (unfold unauthorized in
        refused_by_write s.writes_left _ s _
          (record {
            delivery = refl;
            subscription = refl;
            source = refl;
            counters = (refl, refl, refl);
            reports = (refl, refl);
          })
          refl)
