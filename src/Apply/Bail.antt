-- ===== src/Apply/Bail.antt =====
-- When a pass of apply.py reports that it has not applied anything.
use xrandrw.Prelude.{String, Bool, true, false, ◌&&◌, ◌≡◌, refl, Option, none, some, List, [], ◌∷◌}
use xrandrw.Outputs.{Output, Outputs, is_some}
use xrandrw.Profiles.{Profile}
use xrandrw.Store.{Store}
use xrandrw.Apply.{
  Inputs, finish, place, by_profile, by_connected, arrange, apply_once, Lock, refused, broken, busy,
  acquired, Verdict, completed, bailed, raised, Pass, read_twice, locked, bail,
}
use xrandrw.Apply.Externals.{Command}

abbrev pub is_bailed : Verdict → Bool
is_bailed completed = false
is_bailed bailed = true
is_bailed raised = false

abbrev pub both_read : Inputs → Bool
both_read i = is_some i.first_read && is_some i.second_read

-- By whether both reads have succeeded: a bail, or none.
abbrev pub ReportsRead : Bool → Pass → Type 0
ReportsRead true pass = is_bailed pass.verdict ≡ false
ReportsRead false pass = pass ≡ bail

-- By the lock, and then by the reads. A bail has run no command and saved nothing.
abbrev pub Reports : Lock → Bool → Pass → Type 0
Reports refused both pass = pass ≡ bail
Reports busy both pass = pass ≡ bail
Reports broken both pass = (pass.verdict ≡ raised) × (pass.commands ≡ []) × (pass.saved ≡ none)
Reports acquired both pass = ReportsRead both pass

module _ (new_profile_id : String → String) (is_part_of : String → String → Bool) where
  is_bailed-finish :
      (i : Inputs) (connected : List Output) (done : List Command)
      (r : Option (Store × List Command))
      → is_bailed (finish new_profile_id is_part_of i connected done r).verdict ≡ false
  unfolding finish
  is_bailed-finish i connected done none = refl
  is_bailed-finish i connected done (some (st, placed)) = refl

  is_bailed-place :
      (i : Inputs) (outs : Outputs) (connected : List Output) (scrubbed : List Command)
      → (r : Option (Output × Command))
      → is_bailed (place new_profile_id is_part_of i outs connected scrubbed r).verdict ≡ false
  unfolding place
  is_bailed-place i outs connected scrubbed none = refl
  is_bailed-place i outs connected scrubbed (some (o, c)) = is_bailed-finish i connected _ _

  is_bailed-by_profile :
      (i : Inputs) (outs : Outputs) (connected : List Output) (scrubbed : List Command)
      → (r : Option Profile)
      → is_bailed (by_profile new_profile_id is_part_of i outs connected scrubbed r).verdict ≡ false
  unfolding by_profile
  is_bailed-by_profile i outs connected scrubbed none = is_bailed-place i outs connected scrubbed _
  is_bailed-by_profile i outs connected scrubbed (some p) = refl

  is_bailed-by_connected :
      (i : Inputs) (outs : Outputs) (scrubbed : List Command) (connected : List Output)
      → is_bailed (by_connected new_profile_id is_part_of i outs scrubbed connected).verdict ≡ false
  unfolding by_connected
  is_bailed-by_connected i outs scrubbed [] = refl
  is_bailed-by_connected i outs scrubbed (o ∷ os) = is_bailed-by_profile i outs (o ∷ os) scrubbed _

  read_twice-Reports :
      (i : Inputs) (first second : Option Outputs)
      → ReportsRead
          (is_some first && is_some second)
          (read_twice new_profile_id is_part_of i first second)
  unfolding arrange
  read_twice-Reports i none _ = refl
  read_twice-Reports i (some _) none = refl
  read_twice-Reports i (some _) (some outs) = is_bailed-by_connected i outs _ _

  locked-Reports :
      (lock : Lock) (b : Bool) (pass : Pass)
      → ReportsRead b pass
      → Reports lock b (locked lock pass)
  locked-Reports refused b pass h = refl
  locked-Reports broken b pass h = (refl, refl, refl)
  locked-Reports busy b pass h = refl
  locked-Reports acquired b pass h = h

  -- A pass that has its lock and both reads does not report a bail. A pass whose lock is refused or
  -- held by another, or that lacks one of the reads, reports it, runs no command and saves nothing;
  -- a pass whose lock cannot be opened for another reason raises, and runs and saves nothing either.
  pub apply_once-Reports :
      (i : Inputs) → Reports i.lock (both_read i) (apply_once new_profile_id is_part_of i)
  unfolding apply_once
  apply_once-Reports i = locked-Reports i.lock _ _ (read_twice-Reports i i.first_read i.second_read)
