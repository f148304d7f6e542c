-- ===== src/Cli/Pref.antt =====
-- xrandrw/cli.py: `set_pref`, between the store that it loads and the one that it saves.
pub mod Sides
pub mod Stored
use Prim.Native.String.{◌++◌ as ◌<>◌}
use xrandrw.Prelude.{
  ℕ, String, Bool, true, false, ◌||◌, Option, none, some, List, [], ◌∷◌, ◌++◌, ◌==◌, contains,
  string_eq, if◌then◌else◌,
}
use xrandrw.Prelude.Dict.{lookup, insert}
use xrandrw.Prelude.Partial.{◌>>=◌}
use xrandrw.Outputs.{Output, Outputs}
use xrandrw.Store.{Profile, Store, or_else, ensure_profile}
use xrandrw.Apply.{connected_of}
use xrandrw.Apply.Externals.{get_profile}

abbrev pub sides_valid : List String
sides_valid = "right-of" ∷ "left-of" ∷ "above" ∷ "below" ∷ []

-- What a call ends in: the store that is saved and the profiles that the log names, a `SystemExit`
-- that saves nothing, or a `KeyError`.
pub data Ended : Type 0 where
  saved : Store → List String → Ended
  bad_side no_such key_error : Ended

-- Whether a connected output is the one that the argument names.
unfoldable pub is_meant : String → Output → Bool
is_meant output_or_id o =
    (o.name == output_or_id)
    || (elim (or_else o.edid_sha1 none) [
      | none ↦ false
      | some sha1 ↦ ("edid:" <> sha1) == output_or_id
    ])
    || (("conn:" <> o.name) == output_or_id)

-- `get_profile(st, pid)["preferred_side"] = side`
abbrev pub with_side : String → String → Profile × Store → Store
with_side side pid (p, st) = record st {
  profiles = insert pid (record p { preferred_side = some side }) st.profiles;
}

unfoldable pub set_side : String → String → Store → Store
set_side side pid st = with_side side pid (get_profile pid st)

-- The argument as the id of a stored profile.
abbrev pub by_id : String → String → Store → Option Profile → Ended
by_id output_or_id side st none = no_such
by_id output_or_id side st (some _) = saved (set_side side output_or_id st) (output_or_id ∷ [])

-- The end of the call, behind the loop over the outputs.
abbrev pub or_profile : String → String → List String → Store → Ended
or_profile output_or_id side (pid ∷ matched) st = saved st (pid ∷ matched)
or_profile output_or_id side [] st = by_id output_or_id side st (lookup output_or_id st.profiles)

abbrev pub ended : String → String → Option (List String × Store) → Ended
ended output_or_id side none = key_error
ended output_or_id side (some (matched, st)) = or_profile output_or_id side matched st

module _ (new_profile_id : String → String) (output_or_id side default_side : String)
    (now : ℕ) where
  abbrev pub noted : Output → List String → String × Store → List String × Store
  noted o matched (pid, st) =
      if is_meant output_or_id o then (matched ++ pid ∷ [], set_side side pid st) else (matched, st)

  -- One round of the loop over the connected outputs.
  unfoldable pub prefer_one : Output → List String × Store → Option (List String × Store)
  prefer_one o (matched, st) =
      ensure_profile new_profile_id o st default_side now >>= λ found. some (noted o matched found)

  unfoldable pub prefer : List Output → List String × Store → Option (List String × Store)
  prefer [] m = some m
  prefer (o ∷ os) m = prefer_one o m >>= prefer os

  unfoldable pub set_pref : Outputs → Store → Ended
  set_pref outs stored =
      if contains side sides_valid
      then ended output_or_id side (prefer (connected_of outs) ([], stored))
      else bad_side
