-- ===== src/Store/Linked.antt =====
-- The links of state.py's two maps, from the identities to the stored profiles.
use xrandrw.Prelude.{
  ℕ, String, Bool, true, false, ◌≡◌, refl, ◌∙◌, sym, Option, none, some, List, [], ◌∷◌, arith, ◌==◌,
  contains, string_eq, eq_iff, if◌then◌else◌, Bool-cases, Option-cases, inl, inr, All,
  contains-cons_self,
}
use xrandrw.Prelude.Dict.{Dict, lookup, insert, remove, lookup-insert, lookup-remove}
use mathlib.Core.Path.{subst}
use xrandrw.Outputs.{Output}
use xrandrw.Store.{
  Profile, Store, relabel, merge_into, merge_all, link_all, touch, choose, add_profile, linked,
  ensure_profile, ident_keys, targets_of, fresh_profile, seen_again, merged, profile_at,
}

abbrev pub named : Option Profile → Bool
named none = false
named (some p) = elim p.names [ none ↦ false | some _ ↦ true ]

-- The value of each entry is a key of a profile that has names.
abbrev pub LinkedIn : Dict String Profile → Dict String String → Type 0
LinkedIn profiles [] = Unit
LinkedIn profiles ((k, pid) ∷ imap) = (named (lookup pid profiles) ≡ true) × LinkedIn profiles imap

abbrev pub IsLinked : Store → Type 0
IsLinked st = LinkedIn st.profiles st.identity_map

LinkedIn-insert :
    (profiles : Dict String Profile) (k pid : String) (imap : Dict String String)
    → named (lookup pid profiles) ≡ true
    → LinkedIn profiles imap
    → LinkedIn profiles (insert k pid imap)
unfolding insert
LinkedIn-insert profiles k pid [] h l = (h, tt)
LinkedIn-insert profiles k pid ((j, v) ∷ imap) h (n, l) =
    ground (arith, LinkedIn-insert profiles k pid imap h l)

LinkedIn-link_all :
    (profiles : Dict String Profile) (ks : List String) (pid : String) (imap : Dict String String)
    → named (lookup pid profiles) ≡ true
    → LinkedIn profiles imap
    → LinkedIn profiles (link_all ks pid imap)
LinkedIn-link_all profiles [] pid imap h l = l
LinkedIn-link_all profiles (k ∷ ks) pid imap h l =
    LinkedIn-link_all profiles ks pid (insert k pid imap) h
      (LinkedIn-insert profiles k pid imap h l)

-- A profile that is written has names.
LinkedIn-written :
    (profiles : Dict String Profile) (pid : String) (p : Profile) (imap : Dict String String)
    → named (some p) ≡ true
    → LinkedIn profiles imap
    → LinkedIn (insert pid p profiles) imap
LinkedIn-written profiles pid p [] h l = tt
LinkedIn-written profiles pid p ((k, v) ∷ imap) h (n, l) =
    (ground (arith, lookup-insert v pid p profiles), LinkedIn-written profiles pid p imap h l)

-- A profile that goes has no identity left.
LinkedIn-relabel :
    (profiles : Dict String Profile) (old new : String) (imap : Dict String String)
    → named (lookup new profiles) ≡ true
    → (old == new) ≡ false
    → LinkedIn profiles imap
    → LinkedIn (remove old profiles) (relabel old new imap)
LinkedIn-relabel profiles old new [] h d l = tt
LinkedIn-relabel profiles old new ((k, v) ∷ imap) h d (n, l) = (
  ground (
    arith,
    lookup-remove v old profiles,
    lookup-remove new old profiles,
    eq_iff v old,
    eq_iff old v,
  ),
  LinkedIn-relabel profiles old new imap h d l,
)

pub LinkedIn-targets :
    (profiles : Dict String Profile) (k pid : String) (imap : Dict String String)
    → LinkedIn profiles imap
    → lookup k imap ≡ some pid
    → named (lookup pid profiles) ≡ true
unfolding lookup
LinkedIn-targets profiles k pid [] l h = ground arith
LinkedIn-targets profiles k pid ((j, v) ∷ imap) (n, l) h =
    ground (arith, LinkedIn-targets profiles k pid imap l)

-- A store in which the profile can be used.
abbrev IsUsable : String → Store → Type 0
IsUsable pid st = IsLinked st × (named (lookup pid st.profiles) ≡ true)

moved-IsUsable :
    (target pid : String) (p : Profile) (st : Store)
    → named (some p) ≡ true
    → (pid == target) ≡ false
    → IsLinked st
    → LinkedIn (remove pid (insert target p st.profiles)) (relabel pid target st.identity_map)
      × (named (lookup target (remove pid (insert target p st.profiles))) ≡ true)
moved-IsUsable target pid p st h d l = (
  LinkedIn-relabel (insert target p st.profiles) pid target st.identity_map
      (ground (arith, lookup-insert target target p st.profiles, eq_iff target target)) d
      (LinkedIn-written st.profiles target p st.identity_map h l),
  ground (
    arith,
    lookup-remove target pid (insert target p st.profiles),
    lookup-insert target target p st.profiles,
    eq_iff target target,
  ),
)

merge_into-IsUsable :
    (target pid : String) (st : Store)
    → (pid == target) ≡ false
    → IsLinked st
    → IsUsable target (merge_into target pid st)
unfolding merge_into
merge_into-IsUsable target pid st d l =
    moved-IsUsable target pid (merged (profile_at target st.profiles) (profile_at pid st.profiles))
      st refl d l

merge-IsUsable :
    (target pid : String) (st : Store) (same : Bool)
    → (pid == target) ≡ same
    → IsUsable target st
    → IsUsable target (if same then st else merge_into target pid st)
merge-IsUsable target pid st true e u = u
merge-IsUsable target pid st false e u = merge_into-IsUsable target pid st e u.0

merge_all-IsUsable :
    (target : String) (pids : List String) (st : Store)
    → IsUsable target st
    → IsUsable target (merge_all target pids st)
unfolding merge_all
merge_all-IsUsable target [] st u = u
merge_all-IsUsable target (pid ∷ pids) st u =
    merge_all-IsUsable target pids _ (merge-IsUsable target pid st (pid == target) refl u)

-- The first profile that the identities lead to is stored.
named-targets :
    (ks : List String) (st : Store) (target : String) (pids : List String)
    → IsLinked st
    → targets_of ks st.identity_map ≡ target ∷ pids
    → named (lookup target st.profiles) ≡ true
named-targets [] st target pids l h = ground arith
named-targets (k ∷ ks) st target pids l h = elim (Option-cases (lookup k st.identity_map)) [
  | inl n ↦ ground (arith, named-targets ks st target pids l)
  | inr (pid, e) ↦ ground (arith, LinkedIn-targets st.profiles k pid st.identity_map l e)
]

lookup-link_all :
    (k : String) (ks : List String) (target : String) (imap : Dict String String)
    → lookup k (link_all ks target imap) ≡ (if contains k ks then some target else lookup k imap)
lookup-link_all k [] target imap = refl
lookup-link_all k (j ∷ ks) target imap =
    lookup-link_all k ks target (insert j target imap)
    ∙ ground (arith, lookup-insert k j target imap)

All-cons :
    (k : String) (ks js : List String)
    → All (λ j. contains j ks ≡ true) js
    → All (λ j. contains j (k ∷ ks) ≡ true) js
All-cons k ks [] h = tt
All-cons k ks (j ∷ js) (a, h) = (ground arith, All-cons k ks js h)

All-contains : (ks : List String) → All (λ k. contains k ks ≡ true) ks
All-contains [] = tt
All-contains (k ∷ ks) = (contains-cons_self k ks, All-cons k ks ks (All-contains ks))

All-linked :
    (ks js : List String) (pid : String) (imap : Dict String String)
    → All (λ j. contains j ks ≡ true) js
    → All (λ j. lookup j (link_all ks pid imap) ≡ some pid) js
All-linked ks [] pid imap h = tt
All-linked ks (j ∷ js) pid imap (a, h) =
    (lookup-link_all j ks pid imap ∙ ground arith, All-linked ks js pid imap h)

module _ (new_profile_id : String → String) where
  add_profile-IsUsable :
      (o : Output) (side : String) (now : ℕ) (st : Store)
      → IsLinked st
      → let (pid, st') = add_profile new_profile_id o side now st in IsUsable pid st'
  add_profile-IsUsable o side now st l =
      let pid = (add_profile new_profile_id o side now st).0 in
      let p = fresh_profile new_profile_id o side now in
      (
        LinkedIn-written st.profiles pid p st.identity_map refl l,
        ground (arith, lookup-insert pid pid p st.profiles, eq_iff pid pid),
      )

  choose-IsUsable :
      (o : Output) (side : String) (now : ℕ) (pids : List String) (st : Store)
      → IsLinked st
      → targets_of (ident_keys o) st.identity_map ≡ pids
      → let (pid, st') = choose new_profile_id o side now pids st in IsUsable pid st'
  choose-IsUsable o side now [] st l h = add_profile-IsUsable o side now st l
  choose-IsUsable o side now (target ∷ pids) st l h =
      let merged =
        merge_all-IsUsable target pids st (l, named-targets (ident_keys o) st target pids l h) in
      elim (Bool-cases (target == "")) [
        | inl e ↦ rw e (add_profile-IsUsable o side now (merge_all target pids st) merged.0)
        | inr e ↦ rw e merged
      ]

  touch-IsLinked :
      (o : Output) (now : ℕ) (pid : String) (st : Store)
      → IsUsable pid st
      → (st' : Store) × (touch o now pid st ≡ some (pid, st'))
        × IsLinked st'
        × (st'.identity_map ≡ st.identity_map)
  unfolding touch
  touch-IsLinked o now pid st (l, n) = elim (Option-cases (lookup pid st.profiles)) [
    | inl e ↦ ground arith
    | inr (p, e) ↦ elim (Option-cases p.names) [
      | inl e' ↦ ground arith
      | inr (ns, e') ↦
          let seen = seen_again o now ns p in
          (
            record st { profiles = insert pid seen st.profiles },
            ground arith,
            LinkedIn-written st.profiles pid seen st.identity_map refl l,
            refl,
          )
    ]
  ]

  -- A store in which every identity leads to a profile with names stays one, `ensure_profile` raises
  -- nothing on it, and afterwards every identity of the head leads to the profile that it returns. The
  -- identities of a profile that was merged away lead to the profile that has taken it in.
  pub ensure_profile-IsLinked :
      (o : Output) (st : Store) (side : String) (now : ℕ)
      → IsLinked st
      → (pid : String) × (st' : Store) × (ensure_profile new_profile_id o st side now
          ≡ some (pid, st'))
        × IsLinked st'
        × All (λ k. lookup k st'.identity_map ≡ some pid) (ident_keys o)
  unfolding ensure_profile
  ensure_profile-IsLinked o st side now l =
      let chosen =
        choose new_profile_id o side now (targets_of (ident_keys o) st.identity_map) st in
      let usable =
        choose-IsUsable o side now (targets_of (ident_keys o) st.identity_map) st l refl in
      let (st', e, l', same) = touch-IsLinked o now chosen.0 (linked new_profile_id o chosen) (
        LinkedIn-link_all chosen.1.profiles (ident_keys o) chosen.0 chosen.1.identity_map usable.1
            usable.0,
        usable.1,
      ) in
      (
        chosen.0,
        st',
        e,
        l',
        subst (λ m. All (λ k. lookup k m ≡ some chosen.0) (ident_keys o)) (sym same)
            (All-linked (ident_keys o) (ident_keys o) chosen.0 chosen.1.identity_map
              (All-contains (ident_keys o))),
      )
