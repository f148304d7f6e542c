-- ===== src/Cli/Pref/Sides.antt =====
-- What setting the side of a stored profile does (cli.py, state.py).
use xrandrw.Prelude.{
  String, Bool, true, false, ◌≡◌, refl, ◌∙◌, sym, ap, Option, none, some, List, [], ◌∷◌, ◌++◌,
  string_eq, All, Option-cases, inl, inr, arith, eq_iff,
}
use mathlib.Core.Path.{subst}
use xrandrw.Prelude.Dict.{Dict, lookup, insert, lookup-insert}
use xrandrw.Outputs.{Output}
use xrandrw.Store.{Profile, Store, ident_keys, or_else}
use xrandrw.Store.Linked.{named, LinkedIn, IsLinked, LinkedIn-targets}
use xrandrw.Apply.Externals.{get_profile}
use xrandrw.Cli.Pref.{set_side, with_side}

abbrev pub is_nil : List String → Bool
is_nil [] = true
is_nil (_ ∷ _) = false

pub nil-snoc : (xs : List String) (x : String) → is_nil (xs ++ x ∷ []) ≡ false
nil-snoc [] x = refl
nil-snoc (_ ∷ _) x = refl

-- The side that an identity's profile has.
abbrev pub side_at : Option Profile → Option String
side_at none = none
side_at (some p) = p.preferred_side

LinkedIn-replaced :
    (profiles : Dict String Profile) (pid : String) (p : Profile) (imap : Dict String String)
    → named (some p) ≡ named (lookup pid profiles)
    → LinkedIn profiles imap
    → LinkedIn (insert pid p profiles) imap
LinkedIn-replaced profiles pid p [] h l = tt
LinkedIn-replaced profiles pid p ((k, v) ∷ imap) h (n, l) = (
  ground (arith, lookup-insert v pid p profiles, eq_iff pid v),
  LinkedIn-replaced profiles pid p imap h l,
)

stored :
    (pid : String) (st : Store) {p : Profile}
    → lookup pid st.profiles ≡ some p
    → get_profile pid st ≡ (p, st)
stored pid st e = ground arith

-- What `set_side` does where the profile is stored.
set_side-stored :
    (side pid : String) (st : Store) {p : Profile}
    → lookup pid st.profiles ≡ some p
    → set_side side pid st ≡ with_side side pid (p, st)
unfolding set_side
set_side-stored side pid st e = ap (with_side side pid) (stored pid st e)

pub set_side-IsLinked :
    (side pid : String) (st : Store) {p : Profile}
    → lookup pid st.profiles ≡ some p
    → IsLinked st
    → IsLinked (set_side side pid st)
set_side-IsLinked side pid st {p} e l = subst IsLinked (sym (set_side-stored side pid st e)) (
    LinkedIn-replaced st.profiles pid (record p { preferred_side = some side }) st.identity_map
      (ground arith) l)

pub side-set_side :
    (side pid : String) (st : Store) {p : Profile}
    → lookup pid st.profiles ≡ some p
    → side_at (lookup pid (set_side side pid st).profiles) ≡ some side
side-set_side side pid st {p} e =
    subst (λ (st' : Store). side_at (lookup pid st'.profiles) ≡ some side)
      (sym (set_side-stored side pid st e))
      (ground (
        arith,
        lookup-insert pid pid (record p { preferred_side = some side }) st.profiles,
        eq_iff pid pid,
      ))

-- A profile that an identity leads to is stored.
named-stored : (o : Option Profile) → named o ≡ true → (p : Profile) × (o ≡ some p)
named-stored none h = ground arith
named-stored (some p) h = (p, refl)

-- The profile that all identities of a head lead to is stored.
pub identified :
    (o : Output) (pid : String) (st : Store)
    → IsLinked st
    → All (λ k. lookup k st.identity_map ≡ some pid) (ident_keys o)
    → (p : Profile) × (lookup pid st.profiles ≡ some p)
identified o pid st l a = elim (Option-cases (or_else o.edid_sha1 none)) [
  | inl n ↦ first (ident_keys o) (ground arith) a
  | inr (h, e) ↦ first (ident_keys o) (ground arith) a
]
  where
    first :
        (ks : List String)
        → is_nil ks ≡ false
        → All (λ k. lookup k st.identity_map ≡ some pid) ks
        → (p : Profile) × (lookup pid st.profiles ≡ some p)
    first [] e b = ground arith
    first (k ∷ ks) e (b, _) =
        named-stored (lookup pid st.profiles)
          (LinkedIn-targets st.profiles k pid st.identity_map l b)

abbrev pub side_of : Store → Option String → Option String
side_of st none = none
side_of st (some pid) = side_at (lookup pid st.profiles)

-- Every identity of the head leads to a profile of that side.
abbrev pub Sided : String → Output → Store → Type 0
Sided side o st = All (λ k. side_of st (lookup k st.identity_map) ≡ some side) (ident_keys o)

pub All-side_of :
    (st : Store) (pid side : String) (ks : List String)
    → side_at (lookup pid st.profiles) ≡ some side
    → All (λ k. lookup k st.identity_map ≡ some pid) ks
    → All (λ k. side_of st (lookup k st.identity_map) ≡ some side) ks
All-side_of st pid side [] h a = tt
All-side_of st pid side (k ∷ ks) h (e, a) = (ap (side_of st) e ∙ h, All-side_of st pid side ks h a)

-- A setting leaves the identities.
pub identity_map-set_side :
    (side pid : String) (st : Store) {p : Profile}
    → lookup pid st.profiles ≡ some p
    → (set_side side pid st).identity_map ≡ st.identity_map
identity_map-set_side side pid st e =
    ap (λ (st' : Store). st'.identity_map) (set_side-stored side pid st e)
