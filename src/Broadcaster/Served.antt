-- ===== src/Broadcaster/Served.antt =====
-- One subscriber's queue and history, under each change of its record.
use camrtsp.Common.{
  ℕ, ◌≡◌, refl, subst, Bool, true, false, List, [], ◌∷◌, if◌then◌else◌, if_either, Bool-cases, inl,
  inr,
}
use camrtsp.Core.{EncodedAccessUnit}
use camrtsp.Broadcaster.{Client, pop_front, clear, overflow, enqueue_unless, offer}
use camrtsp.Broadcaster.Trace.{
  Delivered, start, skip, follow, resume, forget, rev_onto, rev_onto_snoc, rev_onto_append,
}

-- One subscriber's part of the invariant.
pub record Served (units given : List EncodedAccessUnit) (c : Client) : Type 0 where
  pub live : c.alive ≡ true
  pub history : Delivered units (rev_onto c.frames given) c.waiting_for_keyframe

module _ (units given : List EncodedAccessUnit) (c : Client) (served : Served units given c) where
  pub Served-clear : Served units given (clear c)
  unfolding rev_onto
  Served-clear = record {
    live = served.live;
    history = forget (rev_onto c.frames []) given served.history (rev_onto_append c.frames given);
  }

module _ (units given : List EncodedAccessUnit) (u : EncodedAccessUnit) (c : Client) where
  pub Served-enqueue_unless :
      (w : Bool)
      → (if u.keyframe then false else c.waiting_for_keyframe) ≡ w
      → Served units given c
      → Served (u ∷ units) given (enqueue_unless w u c)
  unfolding enqueue_unless
  Served-enqueue_unless true e served = record {
    live = served.live;
    history = skip u served.history;
  }
  Served-enqueue_unless false e served = record {
    live = served.live;
    history = rw rev_onto_snoc (elim (Bool-cases u.keyframe) [
      | inl key ↦ resume u key served.history
      | inr inter ↦
          follow u (
            subst (λ w. Delivered units (rev_onto c.frames given) w) (rw inter at e) served.history)
    ]);
  }

pub Served-offer :
    (units given : List EncodedAccessUnit) (u : EncodedAccessUnit) (c : Client)
    → Served units given c
    → Served (u ∷ units) given (offer u c)
unfolding offer
Served-offer units given u c served =
    Served-enqueue_unless units given u _ _ refl
      (if_either (Served units given) (overflow c) (Served-clear units given c served) served)

unfoldable pub took : List EncodedAccessUnit → List EncodedAccessUnit → List EncodedAccessUnit
took [] given = given
took (u ∷ q) given = u ∷ given

module _ (units given : List EncodedAccessUnit) (n : ℕ) where
  pub Served-pop_front :
      (q : List EncodedAccessUnit) (w a : Bool)
      → let c : Client = record { id = n; frames = q; waiting_for_keyframe = w; alive = a } in
        Served units given c → Served units (took q given) (pop_front c)
  unfolding took rev_onto
  Served-pop_front [] w a served = served
  Served-pop_front (u ∷ q) w a served = record { live = served.live; history = served.history }

pub Served-fresh :
    (n : ℕ)
    → Served [] [] (record { id = n; frames = []; waiting_for_keyframe = true; alive = true })
unfolding rev_onto
Served-fresh n = record { live = refl; history = start }
