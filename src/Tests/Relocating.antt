-- ===== src/Tests/Relocating.antt =====
-- relocate.py on the desktop of two heads.
use xrandrw.Prelude.{
  suc, ◌≤◌, ◌⊎◌, String, true, false, ◌≡◌, refl, none, some, List, [], ◌∷◌, arith,
}
use xrandrw.Prelude.Int.{pos}
use xrandrw.Prelude.Dict.{Dict, lookup}
use xrandrw.Json.{Json, Key, number, ok}
use xrandrw.Relocate.Plan.{WindowRecord, Live, bool_ne}
use xrandrw.Prelude.Sort.{count}
use xrandrw.Relocate.Plan.Effect.{
  Window, perform-plan_restore, count-plan_restore, perform_all, Dwm, IsRestored, is_tag,
  is_configure, is_toggle, indicator,
}
use xrandrw.Relocate.Seam.{identity_eq}
use xrandrw.Relocate.Restore.{drop, restore_one, is_same}
use xrandrw.Relocate.Restore.Tagged.{tagged}
use xrandrw.Relocate.Restore.Dropped.{restore_one-dropped}
use xrandrw.Relocate.Restore.Gate.{restore_one-gated}
use xrandrw.Relocate.Gate.{gated}
use xrandrw.Relocate.Guard.{ClientState, MonitorState, tagmon_crash_risk}
use xrandrw.Relocate.Guard.Dwm.{dwm_crashes}
use xrandrw.Relocate.Guard.Sendmon.{tagmon_crash_risk-eq-dwm_crashes}
use xrandrw.Relocate.Cycle.{settle, lit_names, record_displaced}
use xrandrw.Relocate.Cycle.Displaced.{lookup-record_displaced, noted}
use xrandrw.Relocate.Cycle.Settled.{settle-records_displaced}
use xrandrw.Relocate.Seam.{
  ◌>>=◌, observe, dwm_client, steal_focus, monitors, accepted, lift, or_unavailable, pure, request,
  run_verb,
}
use xrandrw.Relocate.Restore.{
  resolve_live, read_live, run_plan, run_restore_action, step_tagmon, after_step, carry_out,
  step_tag,
}
use xrandrw.Ipc.{validate_client, validate_monitors, require_dict, require_list_of_dicts}
use xrandrw.Relocate.Plan.{plan_restore, tagmon_direction}
use xrandrw.Relocate.Tagmon.Arrival.{is_on, tagmon_to_target-is_on}
use xrandrw.Relocate.Tagmon.{
  step_ok, tagmon_to_target, arrived, client_states, guarded_hop, hop, monitor_states,
  read_monitor_states, tagmon_would_crash_dwm,
}
use xrandrw.Relocate.Focus.{focus_and_confirm, confirm, on_poll, selected_confirmed}
use xrandrw.Prelude.Dict.{insert, insert_all}
use xrandrw.Prelude.Int.{intersects}
use xrandrw.Relocate.Guard.{hop_risk, tiled_count, visible_count}
use xrandrw.Tests.Desktop.{window, desktop, settled, monitor, identity, undocked}

abbrev both : List Json
both = monitor 0 0 ∷ monitor 1 0 ∷ []

abbrev numbers : Dict String Key
numbers = ("eDP-1", number (pos 0)) ∷ ("HDMI-1", number (pos 1)) ∷ []

-- The window comes back to its head, and is dropped from the displaced ones.
restored :
    ((restore_one desktop window both numbers settled).0 ≡ ok drop)
    × ((restore_one desktop window both numbers settled).1.world ≡ 1)
unfolding restore_one ◌>>=◌ resolve_live observe read_live dwm_client validate_client run_plan
    plan_restore lookup run_restore_action step_tagmon tagmon_to_target focus_and_confirm
    steal_focus confirm monitors validate_monitors require_dict require_list_of_dicts insert
    insert_all intersects on_poll selected_confirmed hop_risk tagmon_crash_risk tiled_count
    visible_count tagmon_direction after_step carry_out step_tag accepted lift or_unavailable pure
    request run_verb arrived client_states guarded_hop hop monitor_states read_monitor_states
    tagmon_would_crash_dwm
restored = (refl, refl)

-- Two commands, `tagmon` and `tag`, among the calls of the restore.
restore_one-gated_example :
    gated (pos 7) (restore_one desktop window both numbers settled).1.trace ≡ true
restore_one-gated_example = restore_one-gated desktop window both numbers settled refl

-- The window is the recorded one, and dwm has taken its tags.
restore_one-dropped_example :
    (is_same (desktop.resolve_pid (pos 7) settled.world).0 window ≡ false)
    ⊎ (suc (tagged (pos 2) settled.trace)
        ≤ tagged (pos 2) (restore_one desktop window both numbers settled).1.trace)
restore_one-dropped_example = restore_one-dropped desktop window both numbers settled restored.0

walked : (tagmon_to_target desktop 2 (pos 7) (pos 1) (number (pos 1)) settled).0 ≡ ok step_ok
unfolding ◌>>=◌ dwm_client validate_client tagmon_to_target focus_and_confirm steal_focus confirm
    monitors validate_monitors require_dict require_list_of_dicts on_poll selected_confirmed
    hop_risk tagmon_crash_risk tiled_count visible_count accepted lift or_unavailable pure request
    run_verb arrived client_states guarded_hop hop monitor_states read_monitor_states
    tagmon_would_crash_dwm observe lookup insert_all insert intersects
walked = refl

tagmon_to_target-is_on_example :
    is_on
      (pos 7)
      (number (pos 1))
      (tagmon_to_target desktop 2 (pos 7) (pos 1) (number (pos 1)) settled).1.trace
    ≡ true
tagmon_to_target-is_on_example =
    tagmon_to_target-is_on desktop (pos 7) (number (pos 1)) 2 (pos 1) settled walked

settle-records_displaced_example :
    lookup identity (settle desktop (some ("eDP-1" ∷ "HDMI-1" ∷ [])) undocked settled).1.displaced
    ≡ some window
unfolding lookup lit_names
settle-records_displaced_example =
    settle-records_displaced desktop ("eDP-1" ∷ "HDMI-1" ∷ []) undocked settled identity window
      (refl, tt) tt refl refl

lookup-record_displaced_example :
    lookup identity (record_displaced ("HDMI-1" ∷ []) ((identity, window) ∷ []) [])
    ≡ noted ("HDMI-1" ∷ []) (some window) none
unfolding lookup
lookup-record_displaced_example =
    lookup-record_displaced ("HDMI-1" ∷ []) ((identity, window) ∷ []) [] identity (refl, tt)

abbrev seven : ClientState
seven = record { xid = pos 7; tags = pos 1; floating = false }

abbrev five : ClientState
five = record { xid = pos 5; tags = pos 1; floating = false }

abbrev alone : MonitorState
alone = record { num = pos 0; tagset = pos 1; clients = seven ∷ [] }

abbrev empty : MonitorState
empty = record { num = pos 1; tagset = pos 1; clients = [] }

-- The last window of a monitor goes to an empty monitor: the hop that crashes dwm.
crash : tagmon_crash_risk (alone ∷ empty ∷ []) (pos 7) (pos 1) ≡ true
unfolding tagmon_crash_risk lookup insert_all insert hop_risk visible_count tiled_count
crash = refl

tagmon_crash_risk-eq-dwm_crashes_example :
    tagmon_crash_risk (alone ∷ empty ∷ []) (pos 7) (pos 1)
    ≡ dwm_crashes (alone ∷ empty ∷ []) seven alone empty
unfolding intersects
tagmon_crash_risk-eq-dwm_crashes_example =
    tagmon_crash_risk-eq-dwm_crashes (alone ∷ empty ∷ []) (pos 7) (pos 1) 0 (refl, (refl, tt))
      (refl, (refl, tt)) (omega arith) refl refl refl refl

abbrev here : Window
here = record { tags = pos 1; floating = true; geometry = window.geometry }

abbrev view : Live
view = record {
  target_monitor = number (pos 1);
  current_monitor = number (pos 0);
  current_floating = true;
  n_monitors = 2;
}

-- A dwm whose second monitor shows the first tag, and which puts every window at its corner.
abbrev second : Dwm
second = record {
  tagset = λ d. pos 1;
  arranged = λ a w. record { x = pos 1920; y = pos 0; width = pos 300; height = pos 200 };
  origin = (pos 1920, pos 0);
}

-- A floating window, recorded with the third tag.
abbrev floats : WindowRecord
floats = record window { tags = pos 4; is_floating = true }

perform-plan_restore_example :
    IsRestored floats (perform_all second (plan_restore floats view) here)
perform-plan_restore_example = perform-plan_restore second floats view here refl

count-plan_restore_example :
    (count is_tag (plan_restore window view) ≡ 1)
    × (count is_configure (plan_restore window view) ≡ indicator false)
    × (count is_toggle (plan_restore window view) ≡ indicator (bool_ne true false))
count-plan_restore_example = count-plan_restore window view
