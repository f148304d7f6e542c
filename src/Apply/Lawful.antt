-- ===== src/Apply/Lawful.antt =====
-- The commands of a pass of apply.py, against the outputs of its second read.
use xrandrw.Prelude.{
  String, Bool, true, not, ◌≡◌, refl, Option, none, some, List, [], ◌∷◌, ◌++◌, arith, ◌==◌, filter,
  string_eq, All, All-append, All-filter,
}
use mathlib.Core.Path.{subst}
use xrandrw.Prelude.Dict.{DistinctKeys}
use xrandrw.Outputs.{Output, Outputs}
use xrandrw.Profiles.{Profile, connectors_of, same_set}
use xrandrw.Store.{Store}
use xrandrw.Apply.{
  Inputs, scrub_stale, connected_of, names_of, primary_of, finish, place, by_profile, by_connected,
  arrange, apply_once, locked, read_twice, Lock, refused, broken, busy, acquired, Pass,
}
use xrandrw.Apply.Places.{place_externals-All}
use xrandrw.Apply.Externals.{Command}
use xrandrw.Apply.Commands.{
  is_connected, lawful, IsNamed, AllLawful, AllConnected, Holds-self, scrub_stale-lawful, AllNames,
  names-connected, connected_of-AllNames, primary_of-lawful, place_all-lawful, touches-lawful,
  layout-lawful, match_profile-set,
}

module _ (new_profile_id : String → String) (is_part_of : String → String → Bool) where
  finish-lawful :
      (i : Inputs) (outs : Outputs) (connected : List Output) (done : List Command)
      → (r : Option (Store × List Command)) → AllConnected outs (names_of connected)
      → AllLawful outs done
      → ((st : Store) (placed : List Command) → r ≡ some (st, placed) → AllLawful outs placed)
      → AllLawful outs (finish new_profile_id is_part_of i connected done r).commands
  unfolding finish
  finish-lawful i outs connected done none n d h = d
  finish-lawful i outs connected done (some (st, placed)) n d h = All-append _ done _ d (
      All-append _ placed _ (h st placed refl)
        (refl, touches-lawful is_part_of outs i.mappings i.devices (names_of connected) n))

  place-lawful :
      (i : Inputs) (outs : Outputs) (connected : List Output) (scrubbed : List Command)
      → (r : Option (Output × Command)) → AllNames outs connected
      → AllLawful outs scrubbed
      → ((o : Output) (c : Command) → r ≡ some (o, c) → lawful outs c ≡ true)
      → AllLawful outs (place new_profile_id is_part_of i outs connected scrubbed r).commands
  unfolding place
  place-lawful i outs connected scrubbed none n d h = d
  place-lawful i outs connected scrubbed (some (o, c)) n d h =
      let P = λ (s : String). is_connected outs s ≡ true in
      let keep = λ (x : Output). not (x.name == o.name) in
      finish-lawful i outs connected (scrubbed ++ c ∷ []) _ (names-connected outs connected n)
        (All-append _ scrubbed (c ∷ []) d (h o c refl, tt))
        (λ st placed e.
          let (places, e', items) =
            place_externals-All new_profile_id P i.stored (filter keep connected) o.name
              i.default_side outs i.now st placed
              (All-filter (λ (x : Output). is_connected outs x.name ≡ true) keep connected n) e in
          place_all-lawful outs places placed items e')

  by_profile-lawful :
      (i : Inputs) (outs : Outputs) (connected : List Output) (scrubbed : List Command)
      → (r : Option Profile) → AllNames outs connected
      → AllLawful outs scrubbed
      → ((p : Profile) → r ≡ some p → same_set (connectors_of p.specs) (names_of connected) ≡ true)
      → AllLawful outs (by_profile new_profile_id is_part_of i outs connected scrubbed r).commands
  unfolding by_profile
  by_profile-lawful i outs connected scrubbed none n d h =
      place-lawful i outs connected scrubbed (primary_of i.hidpi_width connected) n d
        (λ o c e. primary_of-lawful outs i.hidpi_width connected o c n e)
  by_profile-lawful i outs connected scrubbed (some p) n d h =
      let names = names-connected outs connected n in
      let same = h p refl in
      All-append _ scrubbed _ d (
        layout-lawful is_part_of outs (names_of connected) (connectors_of p.specs) names
            (ground arith),
        (refl, touches-lawful is_part_of outs i.mappings i.devices (names_of connected) names),
      )

  by_connected-lawful :
      (i : Inputs) (outs : Outputs) (scrubbed : List Command) (connected : List Output)
      → AllNames outs connected
      → AllLawful outs scrubbed
      → AllLawful outs (by_connected new_profile_id is_part_of i outs scrubbed connected).commands
  unfolding by_connected
  by_connected-lawful i outs scrubbed [] n d = All-append _ scrubbed _ d (refl, tt)
  by_connected-lawful i outs scrubbed (o ∷ os) n d =
      by_profile-lawful i outs (o ∷ os) scrubbed _ n d
        (λ p e. match_profile-set is_part_of (names_of (o ∷ os)) i.profiles p e)

  read_twice-lawful :
      (i : Inputs) (first second : Option Outputs) (outs : Outputs)
      → second ≡ some outs
      → IsNamed outs
      → DistinctKeys outs
      → AllLawful outs (read_twice new_profile_id is_part_of i first second).commands
  unfolding arrange
  read_twice-lawful i none _ outs h n u = tt
  read_twice-lawful i (some _) none outs h n u = tt
  read_twice-lawful i (some _) (some o) outs h n u =
      let same : outs ≡ o = ground arith in
      let k = Holds-self outs u in
      subst (λ x. AllLawful outs (arrange new_profile_id is_part_of i x).commands) same
        (by_connected-lawful i outs (scrub_stale outs) (connected_of outs)
          (connected_of-AllNames outs outs n k) (scrub_stale-lawful outs outs k))

  locked-lawful :
      (outs : Outputs) (lock : Lock) (pass : Pass)
      → AllLawful outs pass.commands
      → AllLawful outs (locked lock pass).commands
  locked-lawful outs refused pass h = tt
  locked-lawful outs broken pass h = tt
  locked-lawful outs busy pass h = tt
  locked-lawful outs acquired pass h = h

  -- By the outputs of its second read, a pass powers off only outputs that are disconnected and still
  -- driven, and every other command of it addresses connected outputs only: so no pass powers an
  -- output off and brings it up again. Each output is read once, under its own name.
  pub apply_once-lawful :
      (i : Inputs) (outs : Outputs)
      → i.second_read ≡ some outs
      → IsNamed outs
      → DistinctKeys outs
      → All (λ c. lawful outs c ≡ true) (apply_once new_profile_id is_part_of i).commands
  unfolding apply_once
  apply_once-lawful i outs h n u =
      locked-lawful outs i.lock _ (read_twice-lawful i i.first_read i.second_read outs h n u)
