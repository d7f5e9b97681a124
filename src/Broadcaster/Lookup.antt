-- ===== src/Broadcaster/Lookup.antt =====
-- A subscriber's record under the changes of the list of subscribers.
use camrtsp.Common.{ℕ, ◌≡◌, ◌≢◌, refl, true, some, List, [], ◌∷◌, ◌++◌, arith, All}
use camrtsp.Core.{EncodedAccessUnit}
use camrtsp.Broadcaster.{Client, retain_alive, update, find, clear, clear_all, offer, offer_all}
use camrtsp.Broadcaster.Bounds.{IsBounded}

-- The record of subscriber `i` under an update of subscriber `j`.
pub find-update_self :
    (i : ℕ) (f : Client → Client) (cs : List Client) (c : Client)
    → ((d : Client) → (f d).id ≡ d.id)
    → find i cs ≡ some c
    → find i (update i f cs) ≡ some (f c)
unfolding find update
find-update_self i f [] c same_id e = cc
find-update_self i f (d ∷ cs) c same_id e =
    ground (arith, same_id d, find-update_self i f cs c same_id)

pub find-update_ne :
    (i j : ℕ) (f : Client → Client) (cs : List Client)
    → ((d : Client) → (f d).id ≡ d.id)
    → i ≢ j
    → find i (update j f cs) ≡ find i cs
unfolding find update
find-update_ne i j f [] same_id ne = refl
find-update_ne i j f (d ∷ cs) same_id ne =
    ground (arith, same_id d, find-update_ne i j f cs same_id ne)

pub find-clear_all :
    (i : ℕ) (cs : List Client) (c : Client)
    → find i cs ≡ some c
    → find i (clear_all cs) ≡ some (clear c)
unfolding find clear_all
find-clear_all i [] c e = cc
find-clear_all i (d ∷ cs) c e = ground (arith, find-clear_all i cs c)

pub find-retain_alive :
    (i : ℕ) (cs more : List Client) (c : Client)
    → find i cs ≡ some c
    → c.alive ≡ true
    → find i (retain_alive cs ++ more) ≡ some c
unfolding find retain_alive
find-retain_alive i [] more c e live = cc
find-retain_alive i (d ∷ cs) more c e live = ground (arith, find-retain_alive i cs more c)

pub offer-id : (u : EncodedAccessUnit) (c : Client) → (offer u c).id ≡ c.id
unfolding offer
offer-id u c = ground arith

pub find-offer_all :
    (i : ℕ) (u : EncodedAccessUnit) (cs : List Client) (c : Client)
    → find i cs ≡ some c
    → c.alive ≡ true
    → find i (offer_all u cs) ≡ some (offer u c)
unfolding find offer_all
find-offer_all i u [] c e live = cc
find-offer_all i u (d ∷ cs) c e live = ground (arith, offer-id u d, find-offer_all i u cs c)

pub find_fresh :
    (next : ℕ) (cs : List Client) (c : Client)
    → All (IsBounded next) cs
    → c.id ≡ next
    → find next (retain_alive cs ++ c ∷ []) ≡ some c
unfolding find retain_alive
find_fresh next [] c h e = ground arith
find_fresh next (d ∷ cs) c h e = ground (arith, h.0.known, find_fresh next cs c)
