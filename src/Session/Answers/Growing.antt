-- ===== src/Session/Answers/Growing.antt =====
-- Writes only add to what was written.
use camrtsp.Common.{
  ℕ, zero, suc, append-nil, ◌≡◌, refl, sym, ap, ◌∙◌, Option, none, some, List, [], ◌∷◌, ◌++◌, ok,
  Result, err, append_assoc,
}
use camrtsp.Io.{IoError}
use camrtsp.Response.{rtcp_bye}
use camrtsp.Transport.{Delivery, Output, rtcp_writes}
use camrtsp.Session.{Config, Session, continue_with, write, write_with, write_all}
use camrtsp.Session.Control.{say_bye}

-- What a step writes stands behind what was written before.
abbrev pub Grows : Session → Session → Type 0
Grows s s' = (more : List Output) × (s'.out ≡ s.out ++ more)

write_with-Grows : (n : ℕ) (o : Output) (s : Session) → Grows s (write_with n o s).1
unfolding write_with
write_with-Grows zero o s = ([], sym (append-nil s.out))
write_with-Grows (suc n) o s = (o ∷ [], refl)

write_next-Grows :
    (os : List Output) (s : Session) (p : Result IoError (Unit {0}) × Session)
    → ((s' : Session) → Grows s' (write_all os s').1)
    → Grows s p.1
    → Grows s (continue_with (λ _. write_all os) p).1
write_next-Grows os s (ok a, s') later (more, e) =
    let (rest, grown) = later s' in
    (more ++ rest, grown ∙ ap (λ l. l ++ rest) e ∙ append_assoc s.out more rest)
write_next-Grows os s (err x, s') later now = now

pub write_all-Grows : (os : List Output) (s : Session) → Grows s (write_all os s).1
unfolding write_all write
write_all-Grows [] s = ([], sym (append-nil s.out))
write_all-Grows (o ∷ os) s =
    write_next-Grows os s (write_with s.writes_left o s) (write_all-Grows os)
      (write_with-Grows s.writes_left o s)

pub say_bye-Grows :
    (c : Config) (delivery : Option Delivery) (s : Session) → Grows s (say_bye c delivery s)
unfolding say_bye
say_bye-Grows c none s = ([], sym (append-nil s.out))
say_bye-Grows c (some delivery) s = write_all-Grows (rtcp_writes delivery (rtcp_bye c.ssrc)) s
