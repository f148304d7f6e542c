-- ===== src/Policy/Overlap.antt =====
-- The sides and anchors that policy.py gives to the heads, compared with each other.
use mathlib.Core.Path.{subst}
use xrandrw.Prelude.{
  String, Bool, true, false, ◌&&◌, ◌||◌, ◌≡◌, ◌⊎◌, refl, ◌∙◌, sym, ap, Option, none, some, List, [],
  ◌∷◌, arith, ◌==◌, contains, contains-cons_self, string_eq, eq_iff, length, leb, Bool-cases, inl,
  inr,
}
use xrandrw.Policy.{Place, side_for, and_then, place_from, assign_placements}
use xrandrw.Policy.Placement.{named, side_for_lem}

abbrev same_anchor : Option String → Option String → Bool
same_anchor none none = true
same_anchor (some a) (some b) = a == b
same_anchor _ _ = false

-- A head stands at the side of the anchor.
abbrev taken : String → Option String → List Place → Bool
taken s a [] = false
taken s a (p ∷ ps) = (p.side == s && same_anchor p.anchor a) || taken s a ps

-- No two heads stand at the same side of the same anchor.
abbrev pub NoOverlap : List Place → Type 0
NoOverlap [] = Unit
NoOverlap (p ∷ ps) = (taken p.side p.anchor ps ≡ false) × NoOverlap ps

abbrev pub Distinct : List String → Type 0
Distinct [] = Unit
Distinct (x ∷ xs) = (contains x xs ≡ false) × Distinct xs

abbrev among : Option String → List String → Bool
among none xs = false
among (some b) xs = contains b xs

and_then-some :
    (p : Place) (r : Option (List Place)) (ps : List Place)
    → and_then p r ≡ some ps
    → (qs : List Place) × (r ≡ some qs) × (ps ≡ p ∷ qs)
and_then-some p none ps h = ground arith
and_then-some p (some qs) ps h = (qs, refl, ground arith)

among-cons :
    (b : Option String) (item : String) (xs : List String)
    → among b (item ∷ xs) ≡ false
    → (same_anchor (some item) b ≡ false) × (among b xs ≡ false)
among-cons none item xs h = (refl, refl)
among-cons (some b) item xs h = ground arith

module _ (anchor chain_side : String) where
  place_from-full :
      (occupied : List String) (last : Option String) (item pref : String)
      → (ordered : List (String × String)) → leb 4 (length occupied) ≡ true
      → place_from anchor chain_side occupied last ((item, pref) ∷ ordered)
        ≡ and_then
            (record { item = item; side = chain_side; anchor = last })
            (place_from anchor chain_side occupied (some item) ordered)
  unfolding place_from
  place_from-full occupied last item pref ordered h = rw h refl

  pub place_from-free :
      (occupied : List String) (last : Option String) (item pref s : String)
      → (ordered : List (String × String)) → leb 4 (length occupied) ≡ false
      → side_for chain_side pref occupied ≡ some s
      → place_from anchor chain_side occupied last ((item, pref) ∷ ordered)
        ≡ and_then
            (record { item = item; side = s; anchor = some anchor })
            (place_from anchor chain_side (s ∷ occupied) (some item) ordered)
  unfolding place_from
  place_from-free occupied last item pref s ordered h e = rw h (rw e refl)

  place_from-nil :
      (occupied : List String) (last : Option String) (ps : List Place)
      → place_from anchor chain_side occupied last [] ≡ some ps
      → ps ≡ []
  unfolding place_from
  place_from-nil occupied last ps h = ground arith

  -- One round of the loop: the head chains off the last one, or takes a free side of the anchor.
  abbrev Round : List String → Option String → String → List (String × String) → List Place → Type 0
  Round occupied last item ordered ps =
      ((qs : List Place) × (place_from anchor chain_side occupied (some item) ordered ≡ some qs)
        × (ps ≡ record { item = item; side = chain_side; anchor = last } ∷ qs))
      ⊎ ((s : String) × (contains s occupied ≡ false)
          × (qs : List Place) × (place_from anchor chain_side (s ∷ occupied) (some item) ordered
              ≡ some qs)
          × (ps ≡ record { item = item; side = s; anchor = some anchor } ∷ qs))

  place_from-Round :
      (occupied : List String) (last : Option String) (item pref : String)
      → (ordered : List (String × String)) (ps : List Place)
      → place_from anchor chain_side occupied last ((item, pref) ∷ ordered) ≡ some ps
      → Round occupied last item ordered ps
  place_from-Round occupied last item pref ordered ps h =
      elim (Bool-cases (leb 4 (length occupied))) [
        | inl full ↦ inl (
            and_then-some _ (place_from anchor chain_side occupied (some item) ordered) ps
              (sym (place_from-full occupied last item pref ordered full) ∙ h))
        | inr free ↦
            let (s, e, fresh) = side_for_lem chain_side pref occupied (ground arith) in
            let (qs, f, k) =
              and_then-some _ (place_from anchor chain_side (s ∷ occupied) (some item) ordered) ps
                (sym (place_from-free occupied last item pref s ordered free e) ∙ h) in
            inr (s, fresh, qs, f, k)
      ]

  -- No later head stands at an anchor that is neither the primary nor a head still to come.
  taken-foreign :
      (occupied : List String) (last : Option String) (ordered : List (String × String))
      → (ps : List Place) (s : String) (b : Option String)
      → place_from anchor chain_side occupied last ordered ≡ some ps
      → same_anchor (some anchor) b ≡ false
      → same_anchor last b ≡ false
      → among b (named ordered) ≡ false
      → taken s b ps ≡ false
  taken-foreign occupied last [] ps s b h p q r = ap (taken s b) (place_from-nil occupied last ps h)
  taken-foreign occupied last ((item, pref) ∷ ordered) ps s b h p q r =
      elim (place_from-Round occupied last item pref ordered ps h) [
        | inl (qs, e, k) ↦
            ap (taken s b) k
            ∙ ground (
              arith,
              taken-foreign occupied (some item) ordered qs s b e p
                  (among-cons b item (named ordered) r).0 (among-cons b item (named ordered) r).1,
            )
        | inr (t, fresh, qs, e, k) ↦
            ap (taken s b) k
            ∙ ground (
              arith,
              taken-foreign (t ∷ occupied) (some item) ordered qs s b e p
                  (among-cons b item (named ordered) r).0 (among-cons b item (named ordered) r).1,
            )
      ]

  -- No later head stands at an occupied side of the primary.
  taken-occupied :
      (occupied : List String) (last : Option String) (ordered : List (String × String))
      → (ps : List Place) (s : String)
      → place_from anchor chain_side occupied last ordered ≡ some ps
      → contains s occupied ≡ true
      → same_anchor last (some anchor) ≡ false
      → contains anchor (named ordered) ≡ false
      → taken s (some anchor) ps ≡ false
  taken-occupied occupied last [] ps s h o q r =
      ap (taken s (some anchor)) (place_from-nil occupied last ps h)
  taken-occupied occupied last ((item, pref) ∷ ordered) ps s h o q r =
      elim (place_from-Round occupied last item pref ordered ps h) [
        | inl (qs, e, k) ↦
            ap (taken s (some anchor)) k
            ∙ ground (arith, taken-occupied occupied (some item) ordered qs s e o)
        | inr (t, fresh, qs, e, k) ↦
            ap (taken s (some anchor)) k
            ∙ ground (
              arith,
              eq_iff t s,
              λ (p : t ≡ s). subst (λ (x : String). contains x occupied ≡ false) p fresh,
              taken-occupied (t ∷ occupied) (some item) ordered qs s e (ground arith),
            )
      ]

  -- The last head, where there is one, is neither the primary nor still to come.
  abbrev IsPast : Option String → List (String × String) → Type 0
  IsPast none ordered = Unit
  IsPast (some l) ordered = ((l == anchor) ≡ false) × (contains l (named ordered) ≡ false)

  IsPast-foreign :
      (last : Option String) (item pref : String) (ordered : List (String × String))
      → IsPast last ((item, pref) ∷ ordered)
      → (same_anchor (some anchor) last ≡ false)
        × (same_anchor (some item) last ≡ false)
        × (among last (named ordered) ≡ false)
  IsPast-foreign none item pref ordered q = (refl, refl, refl)
  IsPast-foreign (some l) item pref ordered (p, q) =
      ground (arith, eq_iff l anchor, eq_iff anchor l)

  place_from-NoOverlap :
      (occupied : List String) (last : Option String) (ordered : List (String × String))
      → (ps : List Place) → place_from anchor chain_side occupied last ordered ≡ some ps
      → Distinct (named ordered)
      → contains anchor (named ordered) ≡ false
      → IsPast last ordered
      → NoOverlap ps
  place_from-NoOverlap occupied last [] ps h d r q =
      subst NoOverlap (sym (place_from-nil occupied last ps h)) tt
  place_from-NoOverlap occupied last ((item, pref) ∷ ordered) ps h (n, d) r q =
      let past : (item == anchor) ≡ false = ground arith in
      elim (place_from-Round occupied last item pref ordered ps h) [
        | inl (qs, e, k) ↦ subst NoOverlap (sym k) (
          let (x, y, z) = IsPast-foreign last item pref ordered q in
              taken-foreign occupied (some item) ordered qs chain_side last e x y z,
          place_from-NoOverlap occupied (some item) ordered qs e d (ground arith) (past, n),
        )
        | inr (t, fresh, qs, e, k) ↦ subst NoOverlap (sym k) (
          taken-occupied (t ∷ occupied) (some item) ordered qs t e (contains-cons_self t occupied)
              past (ground arith),
          place_from-NoOverlap (t ∷ occupied) (some item) ordered qs e d (ground arith) (past, n),
        )
      ]

-- No two heads are placed at the same side of the same head, where the heads are different and the
-- primary is not among them.
pub assign_placements-NoOverlap :
    (ordered : List (String × String)) (anchor chain_side : String) (ps : List Place)
    → Distinct (named ordered)
    → contains anchor (named ordered) ≡ false
    → assign_placements ordered anchor chain_side ≡ some ps
    → NoOverlap ps
unfolding assign_placements
assign_placements-NoOverlap ordered anchor chain_side ps d r h =
    place_from-NoOverlap anchor chain_side [] none ordered ps h d r tt
