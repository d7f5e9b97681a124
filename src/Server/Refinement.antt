-- ===== src/Server/Refinement.antt =====
-- What the accept loop promises, on a table without an order, and that `run_until` keeps it.
use mathlib.Core.List.{Permᴰ}
use mathlib.Core.List.Permᴰ
use mathlib.Core.Quot
use mathlib.Core.Quot.{Quot}
use camrtsp.Common.{
  ℕ, ◌≡◌, refl, ap, ◌∙◌, List, [], ◌∷◌, length, leb, if◌then◌else◌, Result, ok, err, Bool-cases,
  inl, inr,
}
use camrtsp.Io.{IoError}
use camrtsp.Server.{
  reap, Accepted, connection, no_connection, start_session, keeps_accepting, accept, accept_round,
  Round, Next, again, stop, Running, running, returned, run_from, run_until,
}
use camrtsp.Server.Table.{Table, of_list, size, without, with_thread, of_list-reap}

-- A connection joins the table if there are fewer than 128 threads and the system can serve it; a
-- failure of the system ends the loop, and leaves the table.
abbrev pub join : ℕ → Result IoError (Unit {0}) → Result IoError (Unit {0}) → Table → Next × Table
join worker (err e) spawned table = (stop (err e), table)
join worker (ok _) (err e) table = (stop (err e), table)
join worker (ok _) (ok _) table = (again, with_thread worker table)

abbrev pub accept_one : Accepted → Table → Next × Table
accept_one (connection worker cloned spawned) table =
    if leb 128 (size table) then (again, table) else join worker cloned spawned table
accept_one (no_connection e) table = (if keeps_accepting e then again else stop (err e), table)

-- A round: nothing is done when the server stops; else the finished threads leave, at once and
-- wherever they stand, and one connection is served.
abbrev pub promised_round : Round → Table → Next × Table
promised_round r table =
    if r.stopping
    then (stop (ok tt), table)
    else accept_one r.accepted (without r.is_finished table)

pub data Promised : Type 0 where
  runs : Table → Promised
  ended : Result IoError (Unit {0}) → (shut_down : Table) → Promised

abbrev continue_with : Next → Table → Promised → Promised
continue_with again table later = later
continue_with (stop result) table later = ended result table

unfoldable pub promised : Table → List Round → Promised
promised table [] = runs table
promised table (r ∷ rs) =
    let (next, table') = promised_round r table in continue_with next table' (promised table' rs)

-- The order forgotten.
abbrev pub forget : Next × List ℕ → Next × Table
forget (next, ws) = (next, of_list ws)

abbrev pub forget_order : Running → Promised
forget_order (running ws) = runs (of_list ws)
forget_order (returned result ws) = ended result (of_list ws)

start_session-forget :
    (worker : ℕ) (cloned spawned : Result IoError (Unit {0})) (ws : List ℕ)
    → forget (start_session worker cloned spawned ws) ≡ join worker cloned spawned (of_list ws)
unfolding with_thread
start_session-forget worker (err e) spawned ws = refl
start_session-forget worker (ok _) (err e) ws = refl
start_session-forget worker (ok _) (ok _) ws =
    ap (λ table. (again, table))
      (Quot.sound (Permᴰ.trans (Permᴰ.middle worker ws []) (Permᴰ.cons refl (Permᴰ.append-nil ws))))

accept-forget :
    (accepted : Accepted) (ws : List ℕ)
    → forget (accept accepted ws) ≡ accept_one accepted (of_list ws)
unfolding accept size
accept-forget (connection worker cloned spawned) ws = elim (Bool-cases (leb 128 (length ws))) [
  | inl full ↦ rw full refl
  | inr free ↦ rw free (start_session-forget worker cloned spawned ws)
]
accept-forget (no_connection e) ws = refl

accept_round-forget :
    (r : Round) (ws : List ℕ) → forget (accept_round r ws) ≡ promised_round r (of_list ws)
unfolding accept_round
accept_round-forget r ws = elim (Bool-cases r.stopping) [
  | inl stopping ↦ rw stopping refl
  | inr not_stopping ↦ rw not_stopping (
      accept-forget r.accepted (reap r.is_finished ws)
      ∙ ap (accept_one r.accepted) (of_list-reap r.is_finished ws))
]

-- How the loop goes on after a round.
continue_from :
    (next : Next) (ws : List ℕ) (later : Running) (later' : Promised)
    → forget_order later ≡ later'
    → forget_order (elim next [ again ↦ later | stop result ↦ returned result ws ])
      ≡ continue_with next (of_list ws) later'
continue_from again ws later later' e = e
continue_from (stop result) ws later later' e = refl

run_from-promised :
    (rs : List Round) (ws : List ℕ) → forget_order (run_from ws rs) ≡ promised (of_list ws) rs
unfolding run_from promised
run_from-promised [] ws = refl
run_from-promised (r ∷ rs) ws =
    let (next, ws') = accept_round r ws in
    continue_from next ws' (run_from ws' rs) (promised (of_list ws') rs) (run_from-promised rs ws')
    ∙ ap (λ after. continue_with after.0 after.1 (promised after.1 rs)) (accept_round-forget r ws)

-- The accept loop implements its promise: up to the order of its table, which `swap_remove` changes,
-- it runs with the threads, or ends with the result and the threads, that the promise has.
pub run_until-promised : (rs : List Round) → forget_order (run_until rs) ≡ promised (of_list []) rs
unfolding run_until
run_until-promised rs = run_from-promised rs []
