-- ===== src/Policy/Placement.antt =====
-- Where policy.py puts the external heads.
use xrandrw.Prelude.{
  ℕ, String, Bool, true, false, ◌≡◌, refl, sym, ap, Option, none, some, List, [], ◌∷◌, arith, ◌==◌,
  contains, string_eq, eq_iff, length, leb, if◌then◌else◌, Bool-cases, Option-cases, inl, inr, ◌+◌,
  ◌≤◌, ◌<◌, beq_refl,
}
use mathlib.Core.Path.{subst}
use xrandrw.Policy.{
  sides, Place, first_free, wanted_side, side_for, and_then, place_from, assign_placements,
}

abbrev indicator : Bool → ℕ
indicator b = if b then 1 else 0

-- How many of the four sides are occupied.
abbrev covered : List String → ℕ
covered occupied =
    indicator (contains "right-of" occupied)
    + indicator (contains "left-of" occupied)
    + indicator (contains "above" occupied)
    + indicator (contains "below" occupied)

-- A text is one of the four sides at most.
hits_bound : (x : String) → covered (x ∷ []) ≤ 1
hits_bound x = elim (Bool-cases (x == "right-of")) [
  | inl e ↦ subst (λ y. covered (y ∷ []) ≤ 1) (sym ((eq_iff x "right-of").0 e)) (omega arith)
  | inr a ↦ elim (Bool-cases (x == "left-of")) [
    | inl e ↦ subst (λ y. covered (y ∷ []) ≤ 1) (sym ((eq_iff x "left-of").0 e)) (omega arith)
    | inr b ↦ elim (Bool-cases (x == "above")) [
      | inl e ↦ subst (λ y. covered (y ∷ []) ≤ 1) (sym ((eq_iff x "above").0 e)) (omega arith)
      | inr c ↦ ground arith
    ]
  ]
]

covered_bound : (occupied : List String) → covered occupied ≤ length occupied
covered_bound [] = omega arith
covered_bound (x ∷ occupied) = ground (arith, hits_bound x, covered_bound occupied)

first_free-none : (occupied : List String) → first_free sides occupied ≡ none → 4 ≤ length occupied
first_free-none occupied h = ground (arith, covered_bound occupied)

-- The side that is found is one of the sides, and free.
first_free_lem :
    (choice occupied : List String) (s : String)
    → first_free choice occupied ≡ some s
    → (contains s occupied ≡ false) × (contains s choice ≡ true)
first_free_lem [] occupied s h = ground arith
first_free_lem (t ∷ choice) occupied s h =
    ground (arith, first_free_lem choice occupied s, beq_refl t)

-- The side that is taken while fewer than four are occupied.
pub side_for_lem :
    (chain_side pref : String) (occupied : List String)
    → length occupied < 4
    → (s : String) × (side_for chain_side pref occupied ≡ some s) × (contains s occupied ≡ false)
side_for_lem chain_side pref occupied h =
    elim (Bool-cases (contains (wanted_side chain_side pref) occupied)) [
      | inl taken ↦ elim (Option-cases (first_free sides occupied)) [
        | inl n ↦ ground (arith, first_free-none occupied n)
        | inr (s, e) ↦ (s, rw taken e, (first_free_lem sides occupied s e).0)
      ]
      | inr free ↦ (wanted_side chain_side pref, rw free refl, free)
    ]

abbrev pub items_of : List Place → List String
items_of [] = []
items_of (p ∷ ps) = p.item ∷ items_of ps

abbrev pub named : List (String × String) → List String
named [] = []
named ((item, pref) ∷ ordered) = item ∷ named ordered

place_from-total :
    (anchor chain_side : String) (occupied : List String) (last : Option String)
    → (ordered : List (String × String))
    → (ps : List Place) × (place_from anchor chain_side occupied last ordered ≡ some ps)
      × (items_of ps ≡ named ordered)
unfolding place_from
place_from-total anchor chain_side occupied last [] = ([], refl, refl)
place_from-total anchor chain_side occupied last ((item, pref) ∷ ordered) =
    elim (Bool-cases (leb 4 (length occupied))) [
      | inl full ↦
          let (ps, e, n) = place_from-total anchor chain_side occupied (some item) ordered in
          (
            record { item = item; side = chain_side; anchor = last } ∷ ps,
            rw full (ap (and_then _) e),
            ap (λ is. item ∷ is) n,
          )
      | inr free ↦
          let (s, e, _) = side_for_lem chain_side pref occupied (ground arith) in
          let (ps, e', n) = place_from-total anchor chain_side (s ∷ occupied) (some item) ordered in
          (
            record { item = item; side = s; anchor = some anchor } ∷ ps,
            rw free (rw e (ap (and_then _) e')),
            ap (λ is. item ∷ is) n,
          )
    ]

-- Every list of heads is placed, without an error, and each head once and in the order of the list,
-- however many heads there are.
pub assign_placements-total :
    (ordered : List (String × String)) (anchor chain_side : String)
    → (ps : List Place) × (assign_placements ordered anchor chain_side ≡ some ps)
      × (items_of ps ≡ named ordered)
unfolding assign_placements
assign_placements-total ordered anchor chain_side =
    place_from-total anchor chain_side [] none ordered
