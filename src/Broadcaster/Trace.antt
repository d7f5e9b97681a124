-- ===== src/Broadcaster/Trace.antt =====
-- What a subscriber is given, against all that was published while it was subscribed. Histories
-- stand newest first.
use camrtsp.Common.{
  ◌≡◌, refl, sym, ap, ◌∙◌, Bool, true, false, List, [], ◌∷◌, ◌++◌, append_assoc, arith, ◌⊎◌, inl,
  inr, Bool-cases,
}
use camrtsp.Core.{EncodedAccessUnit}

-- `Delivered published given waiting`: each unit that is given follows the unit published just before
-- it, or is a keyframe; a subscriber that does not wait was given the last one published.
pub data Delivered : List EncodedAccessUnit → List EncodedAccessUnit → Bool → Type 0 where
  start : Delivered [] [] true
  wait : {p g : List EncodedAccessUnit} {w : Bool} → Delivered p g w → Delivered p g true
  skip :
      {p g : List EncodedAccessUnit} {w : Bool} (u : EncodedAccessUnit)
      → Delivered p g w
      → Delivered (u ∷ p) g true
  follow :
      {p g : List EncodedAccessUnit} (u : EncodedAccessUnit)
      → Delivered p g false
      → Delivered (u ∷ p) (u ∷ g) false
  resume :
      {p g : List EncodedAccessUnit} {w : Bool} (u : EncodedAccessUnit)
      → u.keyframe ≡ true
      → Delivered p g w
      → Delivered (u ∷ p) (u ∷ g) false

-- What is given is, in order, some of what is published, each at most once.
pub data InOrder : List EncodedAccessUnit → List EncodedAccessUnit → Type 0 where
  none_left : InOrder [] []
  missed : {g p : List EncodedAccessUnit} (u : EncodedAccessUnit) → InOrder g p → InOrder g (u ∷ p)
  got :
      {g p : List EncodedAccessUnit} (u : EncodedAccessUnit) → InOrder g p → InOrder (u ∷ g) (u ∷ p)

pub Delivered-InOrder : {p g : List EncodedAccessUnit} {w : Bool} → Delivered p g w → InOrder g p
Delivered-InOrder start = none_left
Delivered-InOrder (wait d) = Delivered-InOrder d
Delivered-InOrder (skip u d) = missed u (Delivered-InOrder d)
Delivered-InOrder (follow u d) = got u (Delivered-InOrder d)
Delivered-InOrder (resume u key d) = got u (Delivered-InOrder d)

-- Units that are dropped before they are given leave a history that is delivered, and a wait.
pub forget :
    {p g : List EncodedAccessUnit} {w : Bool} (q r : List EncodedAccessUnit)
    → Delivered p g w
    → g ≡ q ++ r
    → Delivered p r true
forget [] r start e = rw (← e) start
forget (x ∷ q) r start e = cc
forget q r (wait d) e = forget q r d e
forget q r (skip u d) e = skip u (forget q r d e)
forget [] r (follow u d) e = rw (← e) (wait (follow u d))
forget (x ∷ q) r (follow u d) e = skip u (forget q r d (cc))
forget [] r (resume u k d) e = rw (← e) (wait (resume u k d))
forget (x ∷ q) r (resume u k d) e = skip u (forget q r d (cc))

-- The queue, newest first, before what was taken from it.
unfoldable pub rev_onto : List EncodedAccessUnit → List EncodedAccessUnit → List EncodedAccessUnit
rev_onto [] r = r
rev_onto (x ∷ xs) r = rev_onto xs (x ∷ r)

pub rev_onto_snoc :
    (q : List EncodedAccessUnit) (u : EncodedAccessUnit) (r : List EncodedAccessUnit)
    → rev_onto (q ++ u ∷ []) r ≡ u ∷ rev_onto q r
unfolding rev_onto
rev_onto_snoc [] u r = refl
rev_onto_snoc (x ∷ q) u r = rev_onto_snoc q u (x ∷ r)

pub rev_onto_append : (q r : List EncodedAccessUnit) → rev_onto q r ≡ rev_onto q [] ++ r
unfolding rev_onto
rev_onto_append [] r = refl
rev_onto_append (x ∷ q) r =
    rev_onto_append q (x ∷ r)
    ∙ sym (append_assoc (rev_onto q []) (x ∷ []) r)
    ∙ ap (λ l. l ++ r) (sym (rev_onto_append q (x ∷ [])))

-- `u` was published right after the unit that stands at the head of what was given before.
pub record DirectlyAfter (p b : List EncodedAccessUnit) (u : EncodedAccessUnit) : Type 0 where
  pub before : EncodedAccessUnit
  pub older : List EncodedAccessUnit
  pub later : List EncodedAccessUnit
  pub earlier : List EncodedAccessUnit
  pub given : b ≡ before ∷ older
  pub published : p ≡ later ++ u ∷ before ∷ earlier

published_more :
    {p b : List EncodedAccessUnit} {u : EncodedAccessUnit} (x : EncodedAccessUnit)
    → DirectlyAfter p b u
    → DirectlyAfter (x ∷ p) b u
published_more x r = record {
  before = r.before;
  older = r.older;
  later = x ∷ r.later;
  earlier = r.earlier;
  given = r.given;
  published = ap (λ l. x ∷ l) r.published;
}

-- A subscriber that does not wait was given the last unit published.
data Latest (p g : List EncodedAccessUnit) : Type 0 where
  latest :
      (v : EncodedAccessUnit) (p' g' : List EncodedAccessUnit)
      → p ≡ v ∷ p'
      → g ≡ v ∷ g'
      → Latest p g

Delivered-Latest :
    {p g : List EncodedAccessUnit} {w : Bool} → Delivered p g w → w ≡ false → Latest p g
Delivered-Latest start e = cc
Delivered-Latest (wait d) e = cc
Delivered-Latest (skip u d) e = cc
Delivered-Latest (follow {p} {g} u d) e = latest u p g refl refl
Delivered-Latest (resume {p} {g} u k d) e = latest u p g refl refl

after-Latest :
    {p g : List EncodedAccessUnit} (x u : EncodedAccessUnit) (b : List EncodedAccessUnit)
    → Latest p g
    → x ∷ g ≡ u ∷ b
    → DirectlyAfter (x ∷ p) b u
after-Latest x u b (latest v p' g' ep eg) e = record {
  before = v;
  older = g';
  later = [];
  earlier = p';
  given = cc;
  published = cc;
}

-- In a delivered history a unit that is no keyframe stands right behind the unit that was published
-- right before it.
follows :
    {p g : List EncodedAccessUnit} {w : Bool} (a b : List EncodedAccessUnit) (u : EncodedAccessUnit)
    → Delivered p g w
    → g ≡ a ++ u ∷ b
    → u.keyframe ≡ false
    → DirectlyAfter p b u
follows [] b u start e k = cc
follows (y ∷ a) b u start e k = cc
follows a b u (wait d) e k = follows a b u d e k
follows a b u (skip x d) e k = published_more x (follows a b u d e k)
follows [] b u (follow x d) e k = after-Latest x u b (Delivered-Latest d refl) e
follows (y ∷ a) b u (follow x d) e k = published_more x (follows a b u d (cc) k)
follows [] b u (resume x key d) e k = ground arith
follows (y ∷ a) b u (resume x key d) e k = published_more x (follows a b u d (cc) k)

-- Each unit of a history is a keyframe or stands right behind the unit published right before it.
abbrev pub NoGaps : List EncodedAccessUnit → List EncodedAccessUnit → Type 0
NoGaps p [] = Unit
NoGaps p (u ∷ b) = ((u.keyframe ≡ true) ⊎ DirectlyAfter p b u) × NoGaps p b

-- The end of a delivered history has no gaps.
pub Delivered-NoGaps :
    {p g : List EncodedAccessUnit} {w : Bool} (a r : List EncodedAccessUnit)
    → Delivered p g w
    → g ≡ a ++ r
    → NoGaps p r
Delivered-NoGaps a [] d e = tt
Delivered-NoGaps a (u ∷ b) d e = (
  elim (Bool-cases u.keyframe) [ inl key ↦ inl key | inr inter ↦ inr (follows a b u d e inter) ],
  Delivered-NoGaps (a ++ u ∷ []) b d (e ∙ sym (append_assoc a (u ∷ []) b)),
)
