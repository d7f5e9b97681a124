-- ===== src/Session/Refused.antt =====
-- A request that is refused, and the round of a session that takes it.
use camrtsp.Common.{
  ℕ, zero, suc, ◌≡◌, refl, ◌∙◌, true, false, not, Option, none, some, List, [], same, Result, ok,
  err, Bool-cases, if_either, if◌then◌else◌, subst, sym, ◌⊎◌, inl, inr,
}
use camrtsp.Io.{IoError}
use camrtsp.Text.{chars}
use camrtsp.Broadcaster.{is_some}
use camrtsp.Request.{Request, Taken, complete, incomplete, failed, stuck, read_control}
use camrtsp.Auth.{authorized}
use camrtsp.Transport.{Output, Delivery}
use camrtsp.Session.{
  Config, Tick, Session, Flow, next_round, serve, ended, pure, continue_with, write_with, write,
}
use camrtsp.Session.Control.{
  reply, unauthorized, refuse, answer, dispatch, options, method_of, is_found, wrong_session,
  supplied_session, admitted, handle_checked, handle_request,
}
use camrtsp.Session.Media.{deliver, serve_media, is_idle, after_request, on_taken, round}
use camrtsp.Session.Safety.{IsUntouched, unauthorized-IsUntouched}

pub IsUntouched-refl : (s : Session) → IsUntouched s s
IsUntouched-refl s = record {
  delivery = refl;
  subscription = refl;
  source = refl;
  counters = (refl, refl, refl);
  reports = (refl, refl);
}

pub IsUntouched-trans : (a b c : Session) → IsUntouched a b → IsUntouched b c → IsUntouched a c
IsUntouched-trans a b c h h' = record {
  delivery = h'.delivery ∙ h.delivery;
  subscription = h'.subscription ∙ h.subscription;
  source = h'.source ∙ h.source;
  counters =
      (h'.counters.0 ∙ h.counters.0, h'.counters.1 ∙ h.counters.1, h'.counters.2 ∙ h.counters.2);
  reports = (h'.reports.0 ∙ h.reports.0, h'.reports.1 ∙ h.reports.1);
}

continue-IsUntouched {ℓ κ} :
    {A : Type ℓ} {B : Type κ} (f : A → Session → Result IoError B × Session) (before : Session)
    (r : Result IoError A) (s : Session)
    → IsUntouched before s
    → ((a : A) → IsUntouched before (f a s).1)
    → IsUntouched before (continue_with f (r, s)).1
continue-IsUntouched f before (ok a) s h k = k a
continue-IsUntouched f before (err e) s h k = h

write_with-IsUntouched : (n : ℕ) (o : Output) (s : Session) → IsUntouched s (write_with n o s).1
unfolding write_with
write_with-IsUntouched zero o s = IsUntouched-refl s
write_with-IsUntouched (suc n) o s = record {
  delivery = refl;
  subscription = refl;
  source = refl;
  counters = (refl, refl, refl);
  reports = (refl, refl);
}

answer-IsUntouched :
    (request : Request) (status headers body : List ℕ) (s : Session)
    → IsUntouched s (answer request status headers body s).1
unfolding answer reply write
answer-IsUntouched request status headers body s =
    let written = write_with-IsUntouched s.writes_left _ s in
    continue-IsUntouched (λ _. pure serve) s (reply request status headers body s).0 _ written
      (λ _. written)

refuse-IsUntouched :
    (request : Request) (status : List ℕ) (s : Session) → IsUntouched s (refuse request status s).1
unfolding refuse reply write
refuse-IsUntouched request status s =
    let written = write_with-IsUntouched s.writes_left _ s in
    continue-IsUntouched (λ _. pure next_round) s (reply request status [] [] s).0 _ written
      (λ _. written)

abbrev UntouchedBy : Session → Result IoError Flow × Session → Type 0
UntouchedBy s r = IsUntouched s r.1

-- OPTIONS, the one request that needs no authorization.
options-IsUntouched :
    (c : Config) (t : Tick) (request : Request) (s : Session)
    → same request.method (chars "OPTIONS") ≡ true
    → IsUntouched s (handle_checked c t request s).1
unfolding handle_checked dispatch
options-IsUntouched c t request s is_options =
    let is_method : method_of request.method ≡ options = unfold method_of in rw is_options refl in
    if_either (UntouchedBy s) (not (is_found c.path request)) (refuse-IsUntouched request _ s) (
      if_either (UntouchedBy s)
        (wrong_session c (method_of request.method) (is_some s.delivery) (supplied_session request))
        (refuse-IsUntouched request _ s)
        (subst
          (λ m.
            IsUntouched s
              (dispatch c t request m (is_some s.delivery) (is_some s.subscription) s).1)
          (sym is_method) (answer-IsUntouched request _ _ _ s)))

-- A request that is OPTIONS or not authorized.
abbrev pub IsRefused : Config → Tick → Request → Session → Type 0
IsRefused c t request s =
    (same request.method (chars "OPTIONS") ≡ true)
    ⊎ (authorized c.packages request c.credentials s.auth t.at_request ≡ false)

handle_request-IsUntouched :
    (c : Config) (t : Tick) (request : Request) (s : Session)
    → IsRefused c t request s
    → IsUntouched s (handle_request c t request s).1
unfolding handle_request
handle_request-IsUntouched c t request s refused =
    elim (Bool-cases (same request.method (chars "OPTIONS"))) [
      | inl is_options ↦
          let heard = record s { last_control = t.at_request } in
          let allowed : admitted c t request heard ≡ true = unfold admitted in rw is_options refl in
          subst
            (λ b.
              IsUntouched s
                (if b then handle_checked c t request heard else unauthorized t request heard).1)
            (sym allowed)
            (IsUntouched-trans s heard _
              (record {
                delivery = refl;
                subscription = refl;
                source = refl;
                counters = (refl, refl, refl);
                reports = (refl, refl);
              })
              (options-IsUntouched c t request heard is_options))
      | inr other ↦ elim refused [
        | inl is_options ↦ cc
        | inr denied ↦ (unauthorized-IsUntouched c t request s other denied).0
      ]
    ]

deliver_nothing :
    (c : Config) (t : Tick) (subscription : Option ℕ) (delivery : Option Delivery) (s : Session)
    → subscription ≡ none
    → IsUntouched s (continue_with (λ _. pure next_round) (deliver c t subscription delivery s)).1
unfolding deliver
deliver_nothing c t none delivery s e = IsUntouched-refl s
deliver_nothing c t (some id) delivery s e = cc

serve_media-IsUntouched :
    (c : Config) (t : Tick) (s : Session)
    → s.subscription ≡ none
    → IsUntouched s (serve_media c t s).1
unfolding serve_media
serve_media-IsUntouched c t s e = elim (Bool-cases (is_idle t s)) [
  | inl idle ↦ rw idle (IsUntouched-refl s)
  | inr busy ↦ rw busy (deliver_nothing c t s.subscription s.delivery s e)
]

after_request-IsUntouched :
    (c : Config) (t : Tick) (flow : Flow) (s : Session)
    → s.subscription ≡ none
    → IsUntouched s (after_request c t flow s).1
unfolding after_request
after_request-IsUntouched c t serve s e = serve_media-IsUntouched c t s e
after_request-IsUntouched c t next_round s e = IsUntouched-refl s
after_request-IsUntouched c t ended s e = IsUntouched-refl s

-- What a round takes from the socket: if it is a request, then one that is refused.
abbrev pub TakesRefused : Config → Tick → Session → Taken → Type 0
TakesRefused c t s (complete request) = IsRefused c t request s
TakesRefused c t s incomplete = Unit
TakesRefused c t s (failed e) = Unit
TakesRefused c t s stuck = Unit

on_taken-IsUntouched :
    (c : Config) (t : Tick) (taken : Taken) (s : Session)
    → s.subscription ≡ none
    → TakesRefused c t s taken
    → IsUntouched s (on_taken c t taken s).1
unfolding on_taken
on_taken-IsUntouched c t (complete request) s e refused =
    let (result, s') = handle_request c t request s in
    let handled = handle_request-IsUntouched c t request s refused in
    continue-IsUntouched (after_request c t) s result s' handled (λ flow.
      IsUntouched-trans s s' _ handled
        (after_request-IsUntouched c t flow s' (handled.subscription ∙ e)))
on_taken-IsUntouched c t incomplete s e refused = serve_media-IsUntouched c t s e
on_taken-IsUntouched c t (failed error) s e refused = IsUntouched-refl s
on_taken-IsUntouched c t stuck s e refused = IsUntouched-refl s

abbrev pub RoundRefused : Config → Tick → Session → Type 0
RoundRefused c t s =
    let (taken, input) = read_control t.socket s.input in
    TakesRefused c t (record s { input = input }) taken

pub round-IsUntouched :
    (c : Config) (t : Tick) (s : Session)
    → s.subscription ≡ none
    → RoundRefused c t s
    → IsUntouched s (round c t s).1
unfolding round
round-IsUntouched c t s e refused =
    let (taken, input) = read_control t.socket s.input in
    let read = record s { input = input } in
    IsUntouched-trans s read _
      (record {
        delivery = refl;
        subscription = refl;
        source = refl;
        counters = (refl, refl, refl);
        reports = (refl, refl);
      })
      (on_taken-IsUntouched c t taken read e refused)
