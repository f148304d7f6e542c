-- ===== src/Relocate/Cycle.antt =====
-- relocate.py: the record and restore machine over all displaced windows.
pub mod Displaced
pub mod Settled
pub mod Snapshot
use xrandrw.Prelude.{
  ℕ, suc, ◌+◌, String, Bool, true, false, not, ◌&&◌, Option, none, some, List, [], ◌∷◌, ◌++◌, map,
  Eq, ◌==◌, contains, filter, ltb, string_eq, if◌then◌else◌,
}
use xrandrw.Prelude.Int.{ℤ}
use xrandrw.Prelude.Dict.{Dict, keys, lookup, insert, remove, insert_all, from_entries}
use xrandrw.Json.{Json, Key, Result, ok, unavailable, raised}
use xrandrw.Outputs.{Output, Outputs, is_lit}
use xrandrw.Windows.{match_dwm_monitor_to_output}
use xrandrw.Relocate.Plan.{WindowRecord}
use xrandrw.Relocate.Seam.{
  Seams, Identity, identity_eq, Capture, event_of, Coordinator, State, M, pure, lift, or_exception,
  ◌>>=◌, ◌>>◌, monitors, observe, available,
}
use xrandrw.Relocate.Focus.{selected_focus, restore_focus}
use xrandrw.Relocate.Restore.{Outcome, drop, keep, is_same, restore_one}

-- `rec.output in outputs`
abbrev pub on_output : List String → WindowRecord → Bool
on_output outputs rec = elim rec.output [ none ↦ false | some c ↦ contains c outputs ]

abbrev pub is_empty {ℓ} : {A : Type ℓ} → List A → Bool
is_empty [] = true
is_empty (_ ∷ _) = false

abbrev pub Records : Type 0
Records = Dict Identity WindowRecord

-- The loop of `_record_displaced` over the snapshot.
unfoldable pub record_displaced : List String → Records → Records → Records
record_displaced removed [] displaced = displaced
record_displaced removed ((k, rec) ∷ snapshot) displaced =
    record_displaced removed snapshot
      (if on_output removed rec then insert k rec displaced else displaced)

-- `a - b` of sets
abbrev pub difference : List String → List String → List String
difference a b = filter (λ x. not (contains x b)) a

-- `{name for name, o in outs.items() if o.is_lit}`
unfoldable pub lit_names : Outputs → List String
unfolding is_lit
lit_names outs = keys (filter (λ (n, o). is_lit o) outs)

-- `{conn: num for num, conn in mapping.items() if conn is not None}`
unfoldable pub invert : Dict Key (Option String) → Dict String Key → Dict String Key
invert [] result = result
invert ((num, none) ∷ mapping) result = invert mapping result
invert ((num, some conn) ∷ mapping) result = invert mapping (insert conn num result)

keyed : List WindowRecord → Records → Records
keyed [] result = result
keyed (r ∷ recs) result = keyed recs (insert (r.pid, r.starttime) r result)

module _ (S : Seams) where
  abbrev set_displaced : Records → State S.World → State S.World
  set_displaced d s = record s { coordinator = record s.coordinator { displaced = d } }

  -- `_safe_capture`, with the assignment to the snapshot and the requests of the capture. The observer runs on the monitors that the
  -- capture has read, also where the capture fails afterwards.
  unfoldable pub refresh_snapshot : State S.World → State S.World
  unfolding keyed
  refresh_snapshot s =
      let (c, w) = S.capture s.world in
      record s {
        coordinator = record s.coordinator {
          snapshot_focus = elim c.observed [
            | none ↦ s.snapshot_focus
            | some ms ↦ selected_focus ms
          ];
          snapshot = elim c.records [ none ↦ s.snapshot | some recs ↦ keyed recs [] ];
        };
        world = w;
        trace = map event_of c.looks ++ s.trace;
      }

  unfoldable pub sweep_displaced : Records → State S.World → State S.World
  sweep_displaced [] s = s
  sweep_displaced ((k, rec) ∷ more) s =
      let (identity, w) = S.read_proc_identity rec.pid s.world in
      let s' : State S.World = record s { world = w } in
      sweep_displaced more
        (if is_same identity rec then s' else set_displaced (remove k s'.displaced) s')

  -- What the outcome of one window does to the map.
  unfoldable pub settle_window : Identity → Result Outcome → State S.World → State S.World
  settle_window k (ok drop) s = set_displaced (remove k s.displaced) s
  settle_window k (ok keep) s = s
  settle_window k unavailable s = s
  settle_window k raised s = s

  -- The loop of `_restore_returned`. A window that fails stays displaced and ends nothing.
  unfoldable pub restore_windows :
      List String → List Json → Dict String Key → Records → State S.World → State S.World
  unfolding settle_window
  restore_windows returned ms conn_to_mon [] s = s
  restore_windows returned ms conn_to_mon ((k, rec) ∷ more) s =
      let (stopping, w) = S.is_stopping s.world in
      let s' : State S.World = record s { world = w } in
      let (r, after) = restore_one S rec ms conn_to_mon s' in
      let next : State S.World = if on_output returned rec then settle_window k r after else s' in
      let rest = restore_windows returned ms conn_to_mon more next in if stopping then s' else rest

  -- The give-back of the focus, if a window has taken it; a failure is swallowed.
  unfoldable pub give_back : Option (Option ℤ × ℤ) → ℕ → State S.World → State S.World
  give_back prev calls s =
      let (r, s') = restore_focus S prev s in if ltb calls s.focus_calls then s' else s

  -- The part of `_restore_returned` behind the monitors, and behind their match with the outputs.
  unfoldable pub restore_matched :
      List String → List Json → Result (Dict Key (Option String)) → M S.World (Unit {0})
  unfolding restore_windows give_back
  restore_matched returned ms unavailable s = (unavailable, s)
  restore_matched returned ms raised s = (raised, s)
  restore_matched returned ms (ok mapping) s = (
    ok tt,
    give_back s.snapshot_focus s.focus_calls
        (restore_windows returned ms (invert mapping []) s.displaced s),
  )

  unfoldable pub restore_read : List String → Outputs → Result (List Json) → M S.World (Unit {0})
  unfolding restore_matched
  restore_read returned outs unavailable s = (ok tt, s)
  restore_read returned outs raised s = (raised, s)
  restore_read returned outs (ok ms) s =
      restore_matched returned ms (match_dwm_monitor_to_output ms outs) s

  unfoldable pub restore_returned : List String → Outputs → M S.World (Unit {0})
  unfolding restore_read
  restore_returned returned outs s = let (r, s') = monitors S s in restore_read returned outs r s'

  -- The end of `on_settled`: a settle with no removal sweeps the map and takes a new snapshot.
  unfoldable pub end_settle : Bool → Result (Unit {0}) → M S.World (Unit {0})
  unfolding sweep_displaced refresh_snapshot
  end_settle steady unavailable s = (unavailable, s)
  end_settle steady raised s = (raised, s)
  end_settle steady (ok _) s =
      (ok tt, if steady then refresh_snapshot (sweep_displaced s.displaced s) else s)

  -- `_record_displaced`, and the new `_prev_present`.
  unfoldable pub note_removed : List String → List String → State S.World → State S.World
  unfolding record_displaced
  note_removed cur removed s =
      let seen : State S.World = record s {
        coordinator = record s.coordinator { prev_present = some cur };
      } in
      if is_empty removed
      then seen
      else set_displaced (record_displaced removed s.snapshot s.displaced) seen

  -- `on_settled` behind the outputs that it has read: the boot seed, and the later settles.
  unfoldable pub settle_edges : List String → Outputs → M S.World (Unit {0})
  unfolding note_removed restore_returned end_settle
  settle_edges prev outs s =
      let cur : List String = lit_names outs in
      let removed : List String = difference prev cur in
      let returned : List String = difference cur prev in
      let noted : State S.World = note_removed cur removed s in
      let (r, s') = (if is_empty returned then pure tt else restore_returned returned outs) noted in
      end_settle (is_empty removed) r s'

  unfoldable pub settle : Option (List String) → Outputs → M S.World (Unit {0})
  unfolding settle_edges
  settle none outs s = (
    ok tt,
    refresh_snapshot
        (record s { coordinator = record s.coordinator { prev_present = some (lit_names outs) } }),
  )
  settle (some prev) outs s = settle_edges prev outs s

  unfoldable pub on_settled : Bool → M S.World (Unit {0})
  unfolding settle
  on_settled config_enabled s =
      let (up, s') = available S s in
      let (outs, w) = S.read s'.world in
      let s'' : State S.World = record s' { world = w } in
      let run : Result (Unit {0}) × State S.World = elim outs [
        | none ↦ (ok tt, s'')
        | some o ↦ settle s.prev_present o s''
      ] in
      let enabled : Result (Unit {0}) × State S.World = elim up [
        | ok b ↦ if b then run else (ok tt, s')
        | unavailable ↦ (ok tt, s')
        | raised ↦ (ok tt, s')
      ] in
      if config_enabled then enabled else (ok tt, s)
