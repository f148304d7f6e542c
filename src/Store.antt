-- ===== src/Store.antt =====
-- xrandrw/state.py: the stored profiles of heads, and the identities that lead to them. The file, its
-- lock and its JSON stand outside; the hash of a seed and the clock are parameters.
pub mod Linked
use Prim.Native.String.{◌++◌ as ◌<>◌}
use xrandrw.Prelude.{
  ℕ, String, Bool, true, false, not, ◌&&◌, Option, none, some, List, [], ◌∷◌, ◌++◌, ◌==◌, contains,
  filter, string_eq, if◌then◌else◌,
}
use xrandrw.Prelude.Dict.{Dict, lookup, insert, remove}
use xrandrw.Prelude.Sort.{sort_by}
use xrandrw.Outputs.{Output}

-- A profile's fields, each of which a stored dict may lack.
pub record Profile : Type 0 where
  pub names : Option (List String)
  pub edid : Option String
  pub preferred_side : Option String
  pub last_seen : Option ℕ

pub record Store : Type 0 where
  pub profiles : Dict String Profile
  pub identity_map : Dict String String
  pub attach_stack : List String

abbrev pub no_fields : Profile
no_fields = record { names = none; edid = none; preferred_side = none; last_seen = none }

-- `a or b`
abbrev pub or_else : Option String → Option String → Option String
or_else none b = b
or_else (some a) b = if a == "" then b else some a

-- `profs.get(pid, {})`
abbrev pub profile_at : String → Dict String Profile → Profile
profile_at pid profiles = elim (lookup pid profiles) [ none ↦ no_fields | some p ↦ p ]

abbrev names_of : Profile → List String
names_of p = elim p.names [ none ↦ [] | some ns ↦ ns ]

abbrev dedup : List String → List String
dedup [] = []
dedup (x ∷ xs) = let rest = dedup xs in if contains x rest then rest else x ∷ rest

abbrev pub ident_keys : Output → List String
ident_keys o = elim (or_else o.edid_sha1 none) [
  | none ↦ ("conn:" <> o.name) ∷ []
  | some sha1 ↦ ("edid:" <> sha1) ∷ ("conn:" <> o.name) ∷ []
]

-- `[imap[k] for k in keys if k in imap]`
abbrev pub targets_of : List String → Dict String String → List String
targets_of [] imap = []
targets_of (k ∷ keys) imap =
    let rest = targets_of keys imap in elim (lookup k imap) [ none ↦ rest | some pid ↦ pid ∷ rest ]

-- The values of one profile renamed to another.
abbrev pub relabel : String → String → Dict String String → Dict String String
relabel old new [] = []
relabel old new ((k, v) ∷ imap) = (k, if v == old then new else v) ∷ relabel old new imap

-- `src` merged into `dst`.
abbrev pub merged : Profile → Profile → Profile
merged dst src = record {
  names = some (sort_by (λ (n : String). n) (dedup (names_of dst ++ names_of src)));
  edid = elim (or_else dst.edid none) [ some _ ↦ dst.edid | none ↦ or_else src.edid dst.edid ];
  preferred_side = elim (or_else dst.preferred_side none) [
    | some _ ↦ dst.preferred_side
    | none ↦ or_else src.preferred_side dst.preferred_side
  ];
  last_seen = dst.last_seen;
}

unfoldable pub merge_into : String → String → Store → Store
merge_into target pid st =
    let both = merged (profile_at target st.profiles) (profile_at pid st.profiles) in
    record {
      profiles = remove pid (insert target both st.profiles);
      identity_map = relabel pid target st.identity_map;
      attach_stack = st.attach_stack;
    }

-- The loop over `targets[1:]`.
unfoldable pub merge_all : String → List String → Store → Store
unfolding merge_into
merge_all target [] st = st
merge_all target (pid ∷ pids) st =
    merge_all target pids (if pid == target then st else merge_into target pid st)

-- The loop that links the identities.
abbrev pub link_all : List String → String → Dict String String → Dict String String
link_all [] target imap = imap
link_all (k ∷ keys) target imap = link_all keys target (insert k target imap)

-- The profile as the last lines of `ensure_profile` leave it.
abbrev pub seen_again : Output → ℕ → List String → Profile → Profile
seen_again o now ns p = record {
  names = some (if contains o.name ns then ns else ns ++ o.name ∷ []);
  edid = or_else p.edid o.edid_sha1;
  preferred_side = p.preferred_side;
  last_seen = some now;
}

-- The last lines of `ensure_profile`; `none` stands for a `KeyError`.
unfoldable pub touch : Output → ℕ → String → Store → Option (String × Store)
touch o now target st = elim (lookup target st.profiles) [
  | none ↦ none
  | some p ↦ elim p.names [
    | none ↦ none
    | some ns ↦
        some (target, record st { profiles = insert target (seen_again o now ns p) st.profiles })
  ]
]

module _ (new_profile_id : String → String) where
  abbrev seed_of : Output → String
  seed_of o = elim (or_else o.edid_sha1 none) [ none ↦ o.name | some sha1 ↦ sha1 ]

  abbrev pub fresh_profile : Output → String → ℕ → Profile
  fresh_profile o default_side now = record {
    names = some (o.name ∷ []);
    edid = o.edid_sha1;
    preferred_side = some default_side;
    last_seen = some now;
  }

  abbrev pub add_profile : Output → String → ℕ → Store → String × Store
  add_profile o default_side now st =
      let target = new_profile_id (seed_of o) in
      (
        target,
        record st { profiles = insert target (fresh_profile o default_side now) st.profiles },
      )

  -- The profile that the identities lead to, after the merges, or a new one.
  abbrev pub choose : Output → String → ℕ → List String → Store → String × Store
  choose o default_side now [] st = add_profile o default_side now st
  choose o default_side now (target ∷ pids) st =
      let st' = merge_all target pids st in
      if target == "" then add_profile o default_side now st' else (target, st')

  abbrev pub linked : Output → String × Store → Store
  linked o (target, st) = record st {
    identity_map = link_all (ident_keys o) target st.identity_map;
  }

  unfoldable pub ensure_profile : Output → Store → String → ℕ → Option (String × Store)
  unfolding touch merge_all
  ensure_profile o st default_side now =
      let chosen = choose o default_side now (targets_of (ident_keys o) st.identity_map) st in
      touch o now chosen.0 (linked o chosen)
