-- ===== src/Server.antt =====
-- crates/camrtsp-server/src/lib.rs, `RtspServer`: its construction and its accept loop. A session's
-- thread is a number; the listener, the threads that have finished and the failures of the system
-- are inputs of each round.
pub mod Limits
pub mod Table
pub mod Refinement
use camrtsp.Common.{
  ℕ, zero, suc, ◌≤◌, Bool, true, false, ◌||◌, not, Option, none, some, List, [], ◌∷◌, ◌++◌, length,
  leb, ◌==◌, if◌then◌else◌, Result, ok, err,
}
use camrtsp.Io.{IoError, invalid_input, would_block, interrupted}
use camrtsp.Broadcaster.{BroadcastState, set_frame_rate}
use camrtsp.Transport.{TransportPolicy}
use camrtsp.Response.{valid_path}

pub record RtspServer : Type 0 where
  pub path : List ℕ
  pub credentials : Option (List ℕ × List ℕ)
  pub transport : TransportPolicy

abbrev pub is_incomplete : Option (List ℕ × List ℕ) → Bool
is_incomplete none = false
is_incomplete (some (u, p)) = length u == 0 || length p == 0

abbrev pub listen_on : Result IoError (Unit {0}) → RtspServer → Result IoError RtspServer
listen_on (err e) server = err e
listen_on (ok _) server = ok server

-- The server, and the broadcaster that it was given; `listener` is what `TcpListener::bind` answers.
unfoldable pub bind_with_transport :
    Result IoError (Unit {0})
    → List ℕ
    → ℕ
    → Option (List ℕ × List ℕ)
    → TransportPolicy
    → BroadcastState
    → Result IoError RtspServer × BroadcastState
unfolding valid_path set_frame_rate
bind_with_transport listener path fps credentials transport source =
    if not (valid_path path) || is_incomplete credentials
    then (err (invalid_input "invalid stream path or incomplete credentials"), source)
    else (
      listen_on listener (record { path = path; credentials = credentials; transport = transport }),
      set_frame_rate fps 1 source,
    )

abbrev pub max_connections : ℕ
max_connections = 128

-- What `swap_remove` leaves behind the removed element: the last element, in its place, and the
-- others but the last.
unfoldable pub swap_into : List ℕ → List ℕ
swap_into [] = []
swap_into (w ∷ []) = w ∷ []
swap_into (w ∷ v ∷ ws) = elim (swap_into (v ∷ ws)) [ [] ↦ w ∷ [] | last ∷ rest ↦ last ∷ w ∷ rest ]

-- The loop that joins the threads that have finished, from the current index on. Each round passes
-- or removes one thread, so their number is fuel enough.
unfoldable pub reap_fuel : ℕ → (ℕ → Bool) → List ℕ → List ℕ
unfolding swap_into
reap_fuel zero is_finished ws = ws
reap_fuel (suc fuel) is_finished [] = []
reap_fuel (suc fuel) is_finished (w ∷ ws) =
    let later = reap_fuel fuel is_finished (if is_finished w then swap_into ws else ws) in
    if is_finished w then later else w ∷ later

unfoldable pub reap : (ℕ → Bool) → List ℕ → List ℕ
unfolding reap_fuel
reap is_finished ws = reap_fuel (length ws) is_finished ws

-- What `accept` gives: a connection, with the results of `try_clone` and `spawn`, or an error.
pub data Accepted : Type 0 where
  connection : (worker : ℕ) → Result IoError (Unit {0}) → Result IoError (Unit {0}) → Accepted
  no_connection : IoError → Accepted

pub record Round : Type 0 where
  pub stopping : Bool
  pub is_finished : ℕ → Bool
  pub accepted : Accepted

-- `continue`, or `break` with the result.
pub data Next : Type 0 where
  again : Next
  stop : Result IoError (Unit {0}) → Next

abbrev pub start_session :
    ℕ → Result IoError (Unit {0}) → Result IoError (Unit {0}) → List ℕ → Next × List ℕ
start_session worker (err e) spawned ws = (stop (err e), ws)
start_session worker (ok _) (err e) ws = (stop (err e), ws)
start_session worker (ok _) (ok _) ws = (again, ws ++ worker ∷ [])

abbrev pub keeps_accepting : IoError → Bool
keeps_accepting would_block = true
keeps_accepting interrupted = true
keeps_accepting _ = false

unfoldable pub accept : Accepted → List ℕ → Next × List ℕ
accept (connection worker cloned spawned) ws =
    if leb max_connections (length ws) then (again, ws) else start_session worker cloned spawned ws
accept (no_connection e) ws = (if keeps_accepting e then again else stop (err e), ws)

unfoldable pub accept_round : Round → List ℕ → Next × List ℕ
unfolding reap accept
accept_round r ws =
    if r.stopping then (stop (ok tt), ws) else accept r.accepted (reap r.is_finished ws)

-- What is left of `run_until`: it still runs with these sessions, or it has shut these down, joined
-- their threads and returned.
pub data Running : Type 0 where
  running : List ℕ → Running
  returned : Result IoError (Unit {0}) → (shut_down : List ℕ) → Running

unfoldable pub run_from : List ℕ → List Round → Running
unfolding accept_round
run_from ws [] = running ws
run_from ws (r ∷ rs) =
    let (next, ws') = accept_round r ws in
    let later = run_from ws' rs in elim next [ again ↦ later | stop result ↦ returned result ws' ]

unfoldable pub run_until : List Round → Running
unfolding run_from
run_until rs = run_from [] rs
