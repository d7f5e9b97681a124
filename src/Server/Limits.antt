-- ===== src/Server/Limits.antt =====
-- The sessions of the accept loop.
use camrtsp.Common.{
  ℕ, zero, suc, ◌≤◌, ◌<◌, ◌≡◌, refl, Bool, false, List, [], ◌∷◌, length, leb, arith, length-append,
  All, Result, ok, err, Bool-cases, inl, inr,
}
use camrtsp.Io.{IoError}
use camrtsp.Server.{
  swap_into, reap_fuel, reap, Accepted, connection, no_connection, start_session, accept,
  accept_round, Round, Next, again, stop, Running, running, returned, run_from, run_until,
}

pub length-swap_into : (ws : List ℕ) → length (swap_into ws) ≡ length ws
unfolding swap_into
length-swap_into [] = refl
length-swap_into (w ∷ []) = refl
length-swap_into (w ∷ v ∷ ws) = swapped (swap_into (v ∷ ws)) (length-swap_into (v ∷ ws))
  where
    swapped :
        (zs : List ℕ)
        → length zs ≡ length (v ∷ ws)
        → length (elim zs [ [] ↦ w ∷ [] | last ∷ rest ↦ last ∷ w ∷ rest ]) ≡ suc (length (v ∷ ws))
    swapped [] e = omega (arith, e)
    swapped (z ∷ zs) e = omega (arith, e)

length-reap_fuel :
    (fuel : ℕ) (is_finished : ℕ → Bool) (ws : List ℕ)
    → length (reap_fuel fuel is_finished ws) ≤ length ws
unfolding reap_fuel
length-reap_fuel zero is_finished ws = omega arith
length-reap_fuel (suc fuel) is_finished [] = omega arith
length-reap_fuel (suc fuel) is_finished (w ∷ ws) = elim (Bool-cases (is_finished w)) [
  | inl done ↦
      rw done (omega (arith, length-reap_fuel fuel is_finished (swap_into ws), length-swap_into ws))
  | inr not_done ↦ rw not_done (omega (arith, length-reap_fuel fuel is_finished ws))
]

reap_fuel_running :
    (fuel : ℕ) (is_finished : ℕ → Bool) (ws : List ℕ)
    → length ws ≤ fuel
    → All (λ w. is_finished w ≡ false) (reap_fuel fuel is_finished ws)
unfolding reap_fuel
reap_fuel_running zero is_finished [] h = tt
reap_fuel_running zero is_finished (w ∷ ws) h = absurd (omega arith)
reap_fuel_running (suc fuel) is_finished [] h = tt
reap_fuel_running (suc fuel) is_finished (w ∷ ws) h = elim (Bool-cases (is_finished w)) [
  | inl done ↦
      rw done
        (reap_fuel_running fuel is_finished (swap_into ws) (omega (arith, length-swap_into ws)))
  | inr not_done ↦ rw not_done (not_done, reap_fuel_running fuel is_finished ws (omega arith))
]

-- Every thread that has finished is joined and leaves the table in one pass, although `swap_remove`
-- moves the others about, and the table does not grow.
pub reap_removes_finished :
    (is_finished : ℕ → Bool) (ws : List ℕ)
    → All (λ w. is_finished w ≡ false) (reap is_finished ws)
      × (length (reap is_finished ws) ≤ length ws)
unfolding reap
reap_removes_finished is_finished ws = (
  reap_fuel_running (length ws) is_finished ws (omega arith),
  length-reap_fuel (length ws) is_finished ws,
)

started_bounded :
    (worker : ℕ) (cloned spawned : Result IoError (Unit {0})) (ws : List ℕ)
    → length ws < 128
    → length (start_session worker cloned spawned ws).1 ≤ 128
started_bounded worker (err e) spawned ws h = omega arith
started_bounded worker (ok _) (err e) ws h = omega arith
started_bounded worker (ok _) (ok _) ws h = omega (arith, length-append ws (worker ∷ []))

accept_bounded :
    (accepted : Accepted) (ws : List ℕ) → length ws ≤ 128 → length (accept accepted ws).1 ≤ 128
unfolding accept
accept_bounded (connection worker cloned spawned) ws h = elim (Bool-cases (leb 128 (length ws))) [
  | inl full ↦ rw full h
  | inr free ↦ rw free (started_bounded worker cloned spawned ws (ground arith))
]
accept_bounded (no_connection e) ws h = h

round_bounded : (r : Round) (ws : List ℕ) → length ws ≤ 128 → length (accept_round r ws).1 ≤ 128
unfolding accept_round
round_bounded r ws h = elim (Bool-cases r.stopping) [
  | inl stopped ↦ rw stopped h
  | inr runs ↦ rw runs (
      accept_bounded r.accepted (reap r.is_finished ws)
        (omega (arith, (reap_removes_finished r.is_finished ws).1)))
]

-- The sessions that there are while the loop runs, or that it shuts down when it returns.
pub sessions : Running → List ℕ
sessions (running ws) = ws
sessions (returned result ws) = ws

next_bounded :
    (next : Next) (ws : List ℕ) (later : Running)
    → length ws ≤ 128
    → length (sessions later) ≤ 128
    → length (sessions (elim next [ again ↦ later | stop result ↦ returned result ws ])) ≤ 128
unfolding sessions
next_bounded again ws later h h' = h'
next_bounded (stop result) ws later h h' = h

run_from_bounded :
    (ws : List ℕ) (rs : List Round) → length ws ≤ 128 → length (sessions (run_from ws rs)) ≤ 128
unfolding run_from sessions
run_from_bounded ws [] h = h
run_from_bounded ws (r ∷ rs) h =
    let bounded = round_bounded r ws h in
    next_bounded (accept_round r ws).0 (accept_round r ws).1 (run_from (accept_round r ws).1 rs)
      bounded (run_from_bounded (accept_round r ws).1 rs bounded)

-- There are never more than 128 sessions, whatever connections come and threads finish.
pub run_until_bounded : (rs : List Round) → length (sessions (run_until rs)) ≤ 128
unfolding run_until
run_until_bounded rs = run_from_bounded [] rs (omega arith)
