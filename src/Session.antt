-- ===== src/Session.antt =====
-- crates/camrtsp-server/src/lib.rs, `handle`: the session of one control connection. Its local
-- variables, the buffer, the shared broadcaster and what was written are one record of state; `?`
-- ends the session with the error, and what was written before stays written.
pub mod Control
pub mod Media
pub mod Safety
pub mod Refused
pub mod LeftAlone
pub mod Packets
pub mod Sending
pub mod Viewer
pub mod Delivering
pub mod Arrival
pub mod Draining
pub mod Answers
pub mod Ready
pub mod Rounds
use camrtsp.Common.{
  ℕ, zero, suc, ◌+◌, ◌-◌, ◌≡◌, Bool, true, false, Option, none, some, List, [], ◌∷◌, ◌++◌, ◌==◌,
  if◌then◌else◌, Result, ok, err,
}
use camrtsp.Io.{IoError, broken_pipe}
use camrtsp.Broadcaster.{BroadcastState}
use camrtsp.Broadcaster.Run.{Call}
use camrtsp.Auth.{Packages, AuthState}
use camrtsp.Transport.{TransportPolicy, Delivery, Output}
use camrtsp.Request.{Read}

-- What does not change in a session. `local_text` is the printed address of the server's side, and
-- `show_rate` prints the quotient of two numbers as a float.
pub record Config : Type 0 where
  pub packages : Packages
  pub show_rate : ℕ → ℕ → List ℕ
  pub path : List ℕ
  pub credentials : Option (List ℕ × List ℕ)
  pub policy : TransportPolicy
  pub peer_ip : List ℕ
  pub local_ip : List ℕ
  pub local_text : List ℕ
  pub session_id : List ℕ
  pub ssrc : ℕ

-- What one round of the loop reads from outside: the socket, the clock in microseconds where the
-- request is handled, where idleness is tested, where a unit was sent and where a report is due, the
-- time since 1970 in seconds and nanoseconds, a new nonce, and the ports that can be bound.
pub record Tick : Type 0 where
  pub socket : Read
  pub at_request : ℕ
  pub at_idle : ℕ
  pub at_sent : ℕ
  pub at_report : ℕ
  pub seconds : ℕ
  pub nanos : ℕ
  pub nonce : List ℕ
  pub can_bind : ℕ → Bool
  pub others : List Call  -- what other threads did with the broadcaster since the round before

pub record Session : Type 0 where
  pub input : List ℕ
  pub delivery : Option Delivery
  pub subscription : Option ℕ  -- the subscriber's id
  pub auth : AuthState
  pub sequence : ℕ  -- u16
  pub packets : ℕ  -- u32
  pub octets : ℕ  -- u32
  pub last_timestamp : Option (ℕ × ℕ)
  pub last_report : ℕ
  pub last_control : ℕ
  pub source : BroadcastState
  pub out : List Output
  pub writes_left : ℕ  -- the writes that will succeed before one fails

abbrev pub M {ℓ} : Type ℓ → Type ℓ
M A = Session → Result IoError A × Session

-- What a request leads to: the next round of the loop, the rest of this round, or the end.
pub data Flow : Type 0 where
  next_round serve ended : Flow

abbrev pub continue_with {ℓ κ} :
    {A : Type ℓ} {B : Type κ}
    → (A → Session → Result IoError B × Session)
    → Result IoError A × Session
    → Result IoError B × Session
continue_with f (ok a, s) = f a s
continue_with f (err e, s) = (err e, s)

infixl 5 ◌>>=◌ ◌>>◌
abbrev pub ◌>>=◌ {ℓ κ} :
    {A : Type ℓ} {B : Type κ} → M A → (A → M B) → Session → Result IoError B × Session
◌>>=◌ m f s = continue_with f (m s)

abbrev pub ◌>>◌ {ℓ κ} : {A : Type ℓ} {B : Type κ} → M A → M B → Session → Result IoError B × Session
◌>>◌ m k s = continue_with (λ _. k) (m s)

abbrev pub pure {ℓ} : {A : Type ℓ} → A → M A
pure a s = (ok a, s)

unfoldable pub write_with : ℕ → Output → M (Unit {0})
write_with zero o s = (err broken_pipe, s)
write_with (suc n) o s = (ok tt, record s { out = s.out ++ o ∷ []; writes_left = n })

unfoldable pub write : Output → M (Unit {0})
unfolding write_with
write o s = write_with s.writes_left o s

unfoldable pub write_all : List Output → M (Unit {0})
unfolding write
write_all [] s = (ok tt, s)
write_all (o ∷ os) s = continue_with (λ _. write_all os) (write o s)
