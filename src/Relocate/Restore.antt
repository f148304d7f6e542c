-- ===== src/Relocate/Restore.antt =====
-- relocate.py: the restore of one displaced window, step by step.
pub mod Gate
pub mod Tagged
pub mod Dropped
use xrandrw.Prelude.{
  ℕ, String, Bool, true, false, not, ◌&&◌, Option, none, some, List, [], ◌∷◌, Eq, ◌==◌, length,
  string_eq, if◌then◌else◌,
}
use xrandrw.Prelude.Int.{ℤ, int_eq}
use xrandrw.Prelude.Dict.{Dict, lookup}
use xrandrw.Json.{
  Json, null, Key, nothing, number, key, key_eq, Result, ok, unavailable, raised, as_int, truthy,
  get, index,
}
use xrandrw.Relocate.Plan.{
  Geometry, WindowRecord, Live, Action, tagmon, tag, togglefloating, configure, plan_restore,
  to_monitor_relative_geometry,
}
use xrandrw.Relocate.Seam
use xrandrw.Relocate.Seam.{
  Seams, Identity, identity_eq, M, pure, lift, ◌>>=◌, ◌>>◌, dwm_client, run_verb, observe,
}
use xrandrw.Relocate.Focus.{get_field, focus_and_confirm}
use xrandrw.Relocate.Tagmon.{Status, step_ok, step_failed, step_focus_lost, tagmon_to_target}

-- The origin of the monitor that has the number, by the first monitor that has it.
unfoldable pub monitor_origin : List Json → Key → Result (Option (ℤ × ℤ))
monitor_origin [] num = ok none
monitor_origin (m ∷ ms) num =
    let rest = monitor_origin ms num in
    let mg : Json = get_field "monitor_geometry" m in
    let here : Result (Option (ℤ × ℤ)) =
      (if truthy mg
        then elim (get "x" mg) [
          | ok x ↦ elim (get "y" mg) [
            | ok y ↦ elim (as_int x) [
              | none ↦ ok none
              | some a ↦ elim (as_int y) [ none ↦ ok none | some b ↦ ok (some (a, b)) ]
            ]
            | unavailable ↦ unavailable
            | raised ↦ raised
          ]
          | unavailable ↦ unavailable
          | raised ↦ raised
        ]
        else ok none) in
    if num == nothing then ok none else if key (get_field "num" m) == num then here else rest

-- The acceptance of a step, and whether the window's other steps are abandoned.
abbrev pub Step : Type 0
Step = Bool × Bool

abbrev pub step_of : Status → Step
step_of step_ok = (true, false)
step_of step_failed = (false, false)
step_of step_focus_lost = (false, true)

abbrev pub is_essential : Action → Bool
is_essential (tagmon d) = true
is_essential (tag t) = true
is_essential togglefloating = false
is_essential (configure g) = false

pub data Outcome : Type 0 where
  drop keep : Outcome

abbrev pub is_same : Option Identity → WindowRecord → Bool
is_same none rec = false
is_same (some identity) rec = identity == (rec.pid, rec.starttime)

abbrev pub target_of : Option String → Dict String Key → Key
target_of none conn_to_mon = nothing
target_of (some connector) conn_to_mon = elim (lookup connector conn_to_mon) [
  | none ↦ nothing
  | some num ↦ num
]

-- What a step that did not take effect leaves of `essential_ok`.
abbrev pub sunk : Action → Bool → Bool
sunk a essential_ok = if is_essential a then false else essential_ok

-- A step that raises fails, and does not end the loop.
unfoldable pub after_step :
    {W : Type 0} → Action → Bool → Result Step → (Bool → M W Bool) → M W Bool
after_step a essential_ok (ok (taken, abort)) rest s =
    let now : Bool = if taken then essential_ok else sunk a essential_ok in
    let more = rest now s in if abort then (ok now, s) else more
after_step a essential_ok unavailable rest s = rest (sunk a essential_ok) s
after_step a essential_ok raised rest s = rest (sunk a essential_ok) s

module _ (S : Seams) where
  unfoldable pub step_tagmon : ℤ → ℤ → Key → ℕ → M S.World Step
  step_tagmon x direction target n_monitors = do
    status ← tagmon_to_target S n_monitors x direction target
    pure (step_of status)

  unfoldable pub step_tag : ℤ → ℤ → M S.World Step
  step_tag x tags = do
    landed ← focus_and_confirm S x
    if landed
        then (run_verb S "tag" (tags ∷ []) >>= λ taken. pure (taken, false))
        else pure (false, true)

  unfoldable pub step_togglefloating : ℤ → M S.World Step
  step_togglefloating x = do
    landed ← focus_and_confirm S x
    if landed
        then (run_verb S "togglefloating" [] >>= λ _. pure (true, false))
        else pure (false, true)

  -- The part of `_step_configure` behind the origin.
  unfoldable pub place : ℤ → Geometry → Option (ℤ × ℤ) → M S.World Step
  place x g none = pure (true, false)
  place x g (some o) = do
    landed ← focus_and_confirm S x
    if landed
        then (Seam.configure S x (to_monitor_relative_geometry g o) >>= λ _. pure (true, false))
        else pure (false, true)

  unfoldable pub step_configure : ℤ → Geometry → Key → List Json → M S.World Step
  unfolding place
  step_configure x g target monitors = do
    origin ← lift (monitor_origin monitors target)
    place x g origin

  unfoldable pub run_restore_action : ℤ → Action → Key → List Json → M S.World Step
  run_restore_action x (tagmon direction) target monitors =
      step_tagmon x direction target (length monitors)
  run_restore_action x (tag tags) target monitors = step_tag x tags
  run_restore_action x togglefloating target monitors = step_togglefloating x
  run_restore_action x (configure g) target monitors = step_configure x g target monitors

  -- The loop over the planned actions.
  unfoldable pub run_plan : List Action → ℤ → Key → List Json → Bool → M S.World Bool
  unfolding after_step
  run_plan [] x target monitors essential_ok s = (ok essential_ok, s)
  run_plan (a ∷ actions) x target monitors essential_ok s =
      let (r, s') = run_restore_action x a target monitors s in
      after_step a essential_ok r (λ now. run_plan actions x target monitors now) s'

  unfoldable pub read_live : WindowRecord → List Json → Dict String Key → M S.World Live
  read_live rec monitors conn_to_mon = do
    client ← dwm_client S rec.xid
    current ← lift (index "monitor_number" client)
    states ← lift (index "states" client)
    floating ← lift (index "is_floating" states)
    pure (record {
      target_monitor = target_of rec.output conn_to_mon;
      current_monitor = key current;
      current_floating = truthy floating;
      n_monitors = length monitors;
    })

  unfoldable pub resolve_live : WindowRecord → List Json → Dict String Key → M S.World (Option Live)
  resolve_live rec monitors conn_to_mon = do
    identity ← observe S (S.resolve_pid rec.xid)
    if is_same identity rec
        then (read_live rec monitors conn_to_mon >>= λ live. pure (some live))
        else pure none

  -- The part of `_restore_one` behind the live view.
  unfoldable pub carry_out : WindowRecord → List Json → Option Live → M S.World Outcome
  carry_out rec monitors none = pure drop
  carry_out rec monitors (some l) = do
    done ← run_plan (plan_restore rec l) rec.xid l.target_monitor monitors true
    pure (if done then drop else keep)

  unfoldable pub restore_one : WindowRecord → List Json → Dict String Key → M S.World Outcome
  unfolding carry_out
  restore_one rec monitors conn_to_mon = do
    live ← resolve_live rec monitors conn_to_mon
    carry_out rec monitors live
