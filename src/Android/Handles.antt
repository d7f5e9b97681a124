-- ===== src/Android/Handles.antt =====
-- The table of servers.
use mathlib.Core.Option
use camrtsp.Common.{
  ap, ℕ, ◌*◌, ◌/◌, ◌%◌, ◌<◌, not, bit_and, ◌≡◌, ◌≢◌, refl, true, false, some, List, [], ◌∷◌, ◌==◌,
  arith, Bool-cases, inl, inr, ok,
}
use camrtsp.Core.{EncodedAccessUnit}
use camrtsp.Broadcaster.{BroadcastState}
use camrtsp.Android.{
  CreateCall, new_server, native_create_server, on_server, ServerHandle, Servers, get_server,
  remove_server, insert_server, update_server,
}

get-remove-other :
    (k handle : ℕ) (servers : List (ℕ × ServerHandle))
    → k ≢ handle
    → get_server k (remove_server handle servers) ≡ get_server k servers
unfolding get_server remove_server
get-remove-other k handle [] ne = refl
get-remove-other k handle ((i, v) ∷ rest) ne = elim (Bool-cases (i == handle)) [
  | inl same_key ↦
      let other : (i == k) ≡ false = ground (arith, same_key) in
      rw (same_key, other) (get-remove-other k handle rest ne)
  | inr other_key ↦ elim (Bool-cases (i == k)) [
    | inl found ↦ rw (other_key, found) refl
    | inr not_found ↦ rw (other_key, not_found) (get-remove-other k handle rest ne)
  ]
]

get-update-other :
    (k handle : ℕ) (f : BroadcastState → BroadcastState) (servers : List (ℕ × ServerHandle))
    → k ≢ handle
    → get_server k (update_server handle f servers) ≡ get_server k servers
unfolding get_server update_server
get-update-other k handle f [] ne = refl
get-update-other k handle f ((i, v) ∷ rest) ne = elim (Bool-cases (i == handle)) [
  | inl same_key ↦
      let other : (i == k) ≡ false = ground (arith, same_key) in rw (same_key, other) refl
  | inr other_key ↦ elim (Bool-cases (i == k)) [
    | inl found ↦ rw (other_key, found) refl
    | inr not_found ↦ rw (other_key, not_found) (get-update-other k handle f rest ne)
  ]
]

abbrev pub with_broadcaster : (BroadcastState → BroadcastState) → ServerHandle → ServerHandle
with_broadcaster f server = record server { broadcaster = f server.broadcaster }

get-update :
    (handle : ℕ) (f : BroadcastState → BroadcastState) (servers : List (ℕ × ServerHandle))
    (server : ServerHandle)
    → get_server handle servers ≡ some server
    → get_server handle (update_server handle f servers) ≡ some (with_broadcaster f server)
unfolding get_server update_server
get-update handle f [] server e = cc
get-update handle f ((i, v) ∷ rest) server e = elim (Bool-cases (i == handle)) [
  | inl found ↦
      let is_server : some v ≡ some server = rw (found, get_server) at e in
      rw (found, found) (ap (Option.map (with_broadcaster f)) is_server)
  | inr other ↦ rw (other, other) (get-update handle f rest server (rw (other, get_server) at e))
]

-- What a call on one server's broadcaster does, if the call's other arguments are good: it reaches
-- that server, and the others are as they were.
pub on_server_reaches :
    (k handle : ℕ) (f : BroadcastState → BroadcastState) (s : Servers) (server : ServerHandle)
    → get_server handle s.servers ≡ some server
    → k ≢ handle
    → (get_server handle (on_server handle (ok f) s).1.servers ≡ some (with_broadcaster f server))
      × (get_server k (on_server handle (ok f) s).1.servers ≡ get_server k s.servers)
unfolding on_server
on_server_reaches k handle f s server found ne =
    rw (found, on_server)
      (get-update handle f s.servers server found, get-update-other k handle f s.servers ne)

-- A server that is created is found by the handle that the call returns, is not stopping, and leaves
-- every server before it as it was, whatever its handle, if handles have not come round.
pub native_create_server_adds :
    (call : CreateCall) (s : Servers) (server : ServerHandle) (k : ℕ)
    → new_server call ≡ ok server
    → k < s.next_handle
    → ((native_create_server call s).0 ≡ ok s.next_handle)
      × (get_server s.next_handle (native_create_server call s).1.servers ≡ some server)
      × (get_server k (native_create_server call s).1.servers ≡ get_server k s.servers)
unfolding native_create_server insert_server get_server
native_create_server_adds call s server k made below =
    let self : (s.next_handle == s.next_handle) ≡ true = ground arith in
    let other : (s.next_handle == k) ≡ false = ground arith in
    rw (made, self, other)
      (refl, refl, get-remove-other k s.next_handle s.servers (λ e. absurd (omega (arith, e))))

-- The access unit of NAL units with a time in microseconds and flags, of which the lowest marks a
-- keyframe.
abbrev pub timed : List (List ℕ) → ℕ → ℕ → EncodedAccessUnit
timed nals pts_us flags = record {
  nal_units = nals;
  pts_90khz = pts_us * 9 / 100 % 4294967296;
  duration_90khz = 0;
  keyframe = not (bit_and flags 1 == 0);
}
