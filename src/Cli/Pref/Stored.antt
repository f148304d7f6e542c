-- ===== src/Cli/Pref/Stored.antt =====
-- The store that `set_pref` of cli.py saves, and the side that it leaves in it.
use xrandrw.Prelude.{
  ℕ, String, true, false, ◌&&◌, not, any, ◌≡◌, refl, ◌∙◌, sym, Option, none, some, List, [], ◌∷◌,
  ◌++◌, contains, string_eq, All, Bool-cases, inl, inr, arith,
}
use mathlib.Core.Path.{subst}
use xrandrw.Prelude.Dict.{lookup}
use xrandrw.Outputs.{Output, Outputs}
use xrandrw.Store.{Profile, Store, ident_keys}
use xrandrw.Store.Linked.{IsLinked, ensure_profile-IsLinked}
use xrandrw.Apply.{connected_of}
use xrandrw.Cli.Pref.{
  sides_valid, Ended, saved, bad_side, no_such, key_error, is_meant, set_side, by_id, or_profile,
  noted, prefer_one, prefer, set_pref,
}
use xrandrw.Cli.Pref.Sides.{
  is_nil, nil-snoc, set_side-IsLinked, side-set_side, identified, Sided, All-side_of,
  identity_map-set_side,
}

-- A saved store is linked and some profile was named; a side that is none of the four, or an argument
-- that no connected output answers to, may end the call; nothing else does.
abbrev pub EndsWell : String → String → List Output → Ended → Type 0
EndsWell output_or_id side os (saved st matched) =
    (contains side sides_valid ≡ true) × IsLinked st × (is_nil matched ≡ false)
EndsWell output_or_id side os bad_side = contains side sides_valid ≡ false
EndsWell output_or_id side os no_such = any (is_meant output_or_id) os ≡ false
EndsWell output_or_id side os key_error = ⊥

by_id-EndsWell :
    (output_or_id side : String) (os : List Output)
    → contains side sides_valid ≡ true
    → (st : Store) → IsLinked st
    → any (is_meant output_or_id) os ≡ false
    → (found : Option Profile) → lookup output_or_id st.profiles ≡ found
    → EndsWell output_or_id side os (by_id output_or_id side st found)
by_id-EndsWell output_or_id side os valid st l n none e = n
by_id-EndsWell output_or_id side os valid st l n (some p) e =
    (valid, set_side-IsLinked side output_or_id st e l, refl)

or_profile-EndsWell :
    (output_or_id side : String) (os : List Output)
    → contains side sides_valid ≡ true
    → (matched : List String) (st : Store) → IsLinked st
    → is_nil matched ≡ not (any (is_meant output_or_id) os)
    → EndsWell output_or_id side os (or_profile output_or_id side matched st)
or_profile-EndsWell output_or_id side os valid (pid ∷ matched) st l n = (valid, l, refl)
or_profile-EndsWell output_or_id side os valid [] st l n =
    by_id-EndsWell output_or_id side os valid st l (ground arith) (lookup output_or_id st.profiles)
      refl

or_profile-matched :
    (output_or_id side : String) (matched : List String) (st : Store)
    → is_nil matched ≡ false
    → or_profile output_or_id side matched st ≡ saved st matched
or_profile-matched output_or_id side (_ ∷ _) st n = refl
or_profile-matched output_or_id side [] st n = ground arith

module _ (new_profile_id : String → String) (output_or_id side default_side : String)
    (now : ℕ) where
  -- What a round makes of the profiles that were matched.
  abbrev Round : Output → List String → List String × Store → Type 0
  Round o matched (matched', st) =
      IsLinked st
      × (is_nil matched' ≡ (is_nil matched && not (is_meant output_or_id o)))
      × (is_meant output_or_id o ≡ true → Sided side o st)

  noted-Round :
      (o : Output) (matched : List String) (pid : String) (st : Store)
      → IsLinked st
      → All (λ k. lookup k st.identity_map ≡ some pid) (ident_keys o)
      → Round o matched
          (noted new_profile_id output_or_id side default_side now o matched (pid, st))
  noted-Round o matched pid st l a =
      let (p, e) = identified o pid st l a in
      elim (Bool-cases (is_meant output_or_id o)) [
        | inl m ↦ rw m (
          set_side-IsLinked side pid st e l,
          nil-snoc matched pid ∙ ground arith,
          λ _.
              All-side_of (set_side side pid st) pid side (ident_keys o)
                (side-set_side side pid st e)
                (subst (λ im. All (λ k. lookup k im ≡ some pid) (ident_keys o))
                  (sym (identity_map-set_side side pid st e)) a),
        )
        | inr n ↦ rw n (l, ground arith, λ h. ground arith)
      ]

  prefer_one-Round :
      (o : Output) (matched : List String) (st : Store)
      → IsLinked st
      → (m : List String × Store) × (prefer_one new_profile_id output_or_id side default_side now o
            (matched, st)
          ≡ some m)
        × Round o matched m
  unfolding prefer_one
  prefer_one-Round o matched st l =
      let (pid, st', e, l', a) = ensure_profile-IsLinked new_profile_id o st default_side now l in
      (
        noted new_profile_id output_or_id side default_side now o matched (pid, st'),
        rw e refl,
        noted-Round o matched pid st' l' a,
      )

  -- What the loop makes of the profiles that were matched before.
  abbrev Loop : List Output → List String → List String × Store → Type 0
  Loop os matched (matched', st) =
      IsLinked st × (is_nil matched' ≡ (is_nil matched && not (any (is_meant output_or_id) os)))

  prefer-Loop :
      (os : List Output) (matched : List String) (st : Store)
      → IsLinked st
      → (m : List String × Store) × (prefer new_profile_id output_or_id side default_side now os
            (matched, st)
          ≡ some m)
        × Loop os matched m
  unfolding prefer
  prefer-Loop [] matched st l = ((matched, st), refl, (l, ground arith))
  prefer-Loop (o ∷ os) matched st l =
      let (m, e, (l', n, _)) = prefer_one-Round o matched st l in
      let (m', e', (l'', n')) = prefer-Loop os m.0 m.1 l' in (m', rw e e', (l'', ground arith))

  prefer-last :
      (front : List Output) (o : Output) (matched : List String) (st : Store)
      → IsLinked st
      → is_meant output_or_id o ≡ true
      → (m : List String × Store) × (prefer new_profile_id output_or_id side default_side now
            (front ++ o ∷ [])
            (matched, st)
          ≡ some m)
        × (is_nil m.0 ≡ false)
        × Sided side o m.1
  unfolding prefer
  prefer-last [] o matched st l meant =
      let (m, e, (l', n, sided)) = prefer_one-Round o matched st l in
      (m, rw e refl, ground arith, sided meant)
  prefer-last (x ∷ front) o matched st l meant =
      let (m, e, (l', _, _)) = prefer_one-Round x matched st l in
      let (m', e', n, sided) = prefer-last front o m.0 m.1 l' meant in (m', rw e e', n, sided)

  -- From a store in which every identity leads to a profile with names, the call raises no `KeyError`:
  -- it saves such a store and names at least one profile, the side being one of the four, or it exits
  -- and saves nothing, the side being none of them or no connected output being the one that is meant.
  pub set_pref-EndsWell :
      (outs : Outputs) (st : Store)
      → IsLinked st
      → EndsWell output_or_id side
          (connected_of outs)
          (set_pref new_profile_id output_or_id side default_side now outs st)
  unfolding set_pref
  set_pref-EndsWell outs st l =
      let (m, e, (l', n)) = prefer-Loop (connected_of outs) [] st l in
      elim (Bool-cases (contains side sides_valid)) [
        | inl valid ↦
            rw (valid, e)
              (or_profile-EndsWell output_or_id side (connected_of outs) valid m.0 m.1 l'
                (ground arith))
        | inr bad ↦ rw bad bad
      ]

  -- From such a store, where the side is one of the four and the last connected output is meant, the
  -- saved store has that side in the profile that each identity of this output leads to.
  pub set_pref-last :
      (outs : Outputs) (st : Store) (front : List Output) (o : Output)
      → IsLinked st
      → contains side sides_valid ≡ true
      → connected_of outs ≡ front ++ o ∷ []
      → is_meant output_or_id o ≡ true
      → (st' : Store) × (matched : List String) × (set_pref new_profile_id output_or_id side
            default_side now outs st
          ≡ saved st' matched)
        × Sided side o st'
  unfolding set_pref
  set_pref-last outs st front o l valid last meant =
      let (m, e, n, sided) = prefer-last front o [] st l meant in
      (m.1, m.0, rw (valid, last, e) (or_profile-matched output_or_id side m.0 m.1 n), sided)
