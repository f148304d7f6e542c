-- ===== src/Policy/Preferred.antt =====
-- Whose preferred side policy.py keeps.
use xrandrw.Prelude.{
  String, true, false, ◌≡◌, refl, ◌∙◌, ap, Option, none, some, List, [], ◌∷◌, arith, contains,
  string_eq, eq_iff, length, ◌+◌, ◌≤◌,
}
use xrandrw.Policy.{sides, Place, and_then, place_from, assign_placements}
use xrandrw.Policy.Overlap.{Distinct, place_from-free}

-- Each head at its preferred side of the primary.
abbrev pub as_preferred : String → List (String × String) → List Place
as_preferred anchor [] = []
as_preferred anchor ((item, pref) ∷ ordered) =
    record { item = item; side = pref; anchor = some anchor } ∷ as_preferred anchor ordered

abbrev pub prefs : List (String × String) → List String
prefs [] = []
prefs ((item, pref) ∷ ordered) = pref ∷ prefs ordered

-- No side of the list is wanted.
abbrev Free : List String → List String → Type 0
Free occupied [] = Unit
Free occupied (s ∷ ss) =
    (contains s occupied ≡ false) × (contains s sides ≡ true) × Free occupied ss

Free-cons :
    (occupied : List String) (t : String) (ss : List String)
    → Free occupied ss
    → contains t ss ≡ false
    → Free (t ∷ occupied) ss
Free-cons occupied t [] f h = tt
Free-cons occupied t (s ∷ ss) (a, b, f) h =
    (ground (arith, eq_iff t s, eq_iff s t), b, Free-cons occupied t ss f (ground arith))

place_from-preferred :
    (anchor chain_side : String) (occupied : List String) (last : Option String)
    → (ordered : List (String × String)) → Free occupied (prefs ordered)
    → Distinct (prefs ordered)
    → length occupied + length ordered ≤ 4
    → place_from anchor chain_side occupied last ordered ≡ some (as_preferred anchor ordered)
unfolding place_from
place_from-preferred anchor chain_side occupied last [] f d b = refl
place_from-preferred anchor chain_side occupied last ((item, pref) ∷ ordered) (a, c, f) (n, d) b =
    place_from-free anchor chain_side occupied last item pref pref ordered (ground arith)
      (rw c (rw a refl))
    ∙ ap (and_then _) (
        place_from-preferred anchor chain_side (pref ∷ occupied) (some item) ordered
          (Free-cons occupied pref (prefs ordered) f n) d (omega (arith, b)))

-- Up to four heads whose preferred sides are different all get the side that they prefer.
pub assign_placements-preferred :
    (ordered : List (String × String)) (anchor chain_side : String)
    → Free [] (prefs ordered)
    → Distinct (prefs ordered)
    → length ordered ≤ 4
    → assign_placements ordered anchor chain_side ≡ some (as_preferred anchor ordered)
unfolding assign_placements
assign_placements-preferred ordered anchor chain_side f d b =
    place_from-preferred anchor chain_side [] none ordered f d (omega (arith, b))
