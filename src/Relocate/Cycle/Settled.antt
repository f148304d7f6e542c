-- ===== src/Relocate/Cycle/Settled.antt =====
-- What a settle leaves of the windows that an unplug displaces.
use xrandrw.Prelude.{
  String, Bool, true, false, ◌≡◌, refl, ◌∙◌, sym, ap, Option, some, List, [], ◌∷◌, arith,
  if◌then◌else◌, ◌==◌, Bool-cases, Option-cases, inl, inr, contains,
}
use mathlib.Core.Path.{subst}
use xrandrw.Prelude.Dict.{Dict, keys, lookup, DistinctKeys, lookup-remove, lookup-cons}
use xrandrw.Json.{Json, Key, Result, ok, unavailable, raised}
use xrandrw.Outputs.{Outputs}
use xrandrw.Windows.{match_dwm_monitor_to_output}
use xrandrw.Relocate.Plan.{WindowRecord}
use xrandrw.Relocate.Seam.{Seams, Identity, identity_eq, identity_beq_iff, State, pure}
use xrandrw.Relocate.Restore.{Outcome, drop, keep, restore_one}
use xrandrw.Relocate.Cycle.{
  on_output, Records, record_displaced, difference, lit_names, invert, settle_window,
  restore_windows, restore_matched, restore_read, restore_returned, note_removed, end_settle,
  settle_edges, settle, is_empty,
}
use xrandrw.Relocate.Cycle.Displaced.{
  noted, lookup-record_displaced, record_displaced-DistinctKeys, removed-not_returned,
  on_output-names, displaced-restore_one, displaced-give_back, displaced-monitors,
}

-- Every entry of the window stands on an output that has not returned.
abbrev Spared : Identity → List String → Records → Type 0
Spared k returned [] = Unit
Spared k returned ((j, rec) ∷ d) =
    ((j == k) ≡ true → on_output returned rec ≡ false) × Spared k returned d

Spared-absent :
    (k : Identity) (returned : List String) (d : Records)
    → contains k (keys d) ≡ false
    → Spared k returned d
Spared-absent k returned [] n = tt
Spared-absent k returned ((j, rec) ∷ d) n =
    (λ h. ground arith, Spared-absent k returned d (ground arith))

Spared-lookup :
    (k : Identity) (returned : List String) (d : Records) (rec : WindowRecord)
    → DistinctKeys d
    → lookup k d ≡ some rec
    → on_output returned rec ≡ false
    → Spared k returned d
Spared-lookup k returned [] rec u h n = tt
Spared-lookup k returned ((j, r) ∷ d) rec (a, u) h n = elim (Bool-cases (j == k)) [
  | inl same ↦ (
    λ _. ground (arith, lookup-cons k j r d),
    Spared-absent k returned d (ground (arith, identity_beq_iff j k)),
  )
  | inr other ↦ (
    λ same. ground arith,
    Spared-lookup k returned d rec u (ground (arith, lookup-cons k j r d)) n,
  )
]

on_output-nonempty :
    (removed : List String) (rec : WindowRecord)
    → on_output removed rec ≡ true
    → is_empty removed ≡ false
on_output-nonempty [] rec h = elim (Option-cases rec.output) [
  | inl n ↦ ground (arith, on_output-names [] rec)
  | inr (c, e) ↦ ground (arith, on_output-names [] rec)
]
on_output-nonempty (_ ∷ _) rec h = refl

module _ (S : Seams) where
  lookup-settle_window :
      (k j : Identity) (r : Result Outcome) (s : State S.World)
      → (j == k) ≡ false
      → lookup k (settle_window S j r s).displaced ≡ lookup k s.displaced
  unfolding settle_window
  lookup-settle_window k j (ok drop) s n = lookup-remove k j s.displaced ∙ ground arith
  lookup-settle_window k j (ok keep) s n = refl
  lookup-settle_window k j unavailable s n = refl
  lookup-settle_window k j raised s n = refl

  -- The loop leaves the entry of a window whose output has not returned.
  lookup-restore_windows :
      (k : Identity) (returned : List String) (ms : List Json) (conns : Dict String Key)
      → (d : Records) (s : State S.World) → Spared k returned d
      → lookup k (restore_windows S returned ms conns d s).displaced ≡ lookup k s.displaced
  unfolding restore_windows
  lookup-restore_windows k returned ms conns [] s p = refl
  lookup-restore_windows k returned ms conns ((j, rec) ∷ d) s (n, p) =
      let (stopping, w) = S.is_stopping s.world in
      let s' : State S.World = record s { world = w } in
      let ran = restore_one S rec ms conns s' in
      elim (Bool-cases stopping) [
        | inl h ↦ rw h refl
        | inr h ↦ rw h (elim (Bool-cases (on_output returned rec)) [
          | inl there ↦ rw there (
              lookup-restore_windows k returned ms conns d _ p
              ∙ lookup-settle_window k j ran.0 ran.1 (ground arith)
              ∙ ap (lookup k) (displaced-restore_one S rec ms conns s'))
          | inr absent ↦ rw absent (lookup-restore_windows k returned ms conns d s' p)
        ])
      ]

  lookup-restore_matched :
      (k : Identity) (returned : List String) (ms : List Json)
      → (mapping : Result (Dict Key (Option String))) (s : State S.World)
      → Spared k returned s.displaced
      → lookup k (restore_matched S returned ms mapping s).1.displaced ≡ lookup k s.displaced
  unfolding restore_matched
  lookup-restore_matched k returned ms unavailable s p = refl
  lookup-restore_matched k returned ms raised s p = refl
  lookup-restore_matched k returned ms (ok mapping) s p =
      ap (lookup k) (displaced-give_back S s.snapshot_focus s.focus_calls _)
      ∙ lookup-restore_windows k returned ms (invert mapping []) s.displaced s p

  lookup-restore_read :
      (k : Identity) (returned : List String) (outs : Outputs) (r : Result (List Json))
      → (s : State S.World) → Spared k returned s.displaced
      → lookup k (restore_read S returned outs r s).1.displaced ≡ lookup k s.displaced
  unfolding restore_read
  lookup-restore_read k returned outs unavailable s p = refl
  lookup-restore_read k returned outs raised s p = refl
  lookup-restore_read k returned outs (ok ms) s p =
      lookup-restore_matched k returned ms (match_dwm_monitor_to_output ms outs) s p

  lookup-restore_returned :
      (k : Identity) (returned : List String) (outs : Outputs) (s : State S.World)
      → Spared k returned s.displaced
      → lookup k (restore_returned S returned outs s).1.displaced ≡ lookup k s.displaced
  unfolding restore_returned
  lookup-restore_returned k returned outs s p =
      lookup-restore_read k returned outs _ _
        (subst (Spared k returned) (sym (displaced-monitors S s)) p)
      ∙ ap (lookup k) (displaced-monitors S s)

  end_settle-unplug :
      (r : Result Unit) (s : State S.World) → (end_settle S false r s).1.displaced ≡ s.displaced
  unfolding end_settle
  end_settle-unplug unavailable s = refl
  end_settle-unplug raised s = refl
  end_settle-unplug (ok _) s = refl

  displaced-note_removed :
      (cur removed : List String) (s : State S.World)
      → is_empty removed ≡ false
      → (note_removed S cur removed s).displaced ≡ record_displaced removed s.snapshot s.displaced
  unfolding note_removed
  displaced-note_removed cur removed s h = rw h refl

  lookup-ended :
      (k : Identity) (returned : List String) (outs : Outputs) (none_back steady : Bool)
      → (s : State S.World) → Spared k returned s.displaced
      → steady ≡ false
      → let (r, s') = (if none_back then pure tt else restore_returned S returned outs) s in
        lookup k (end_settle S steady r s').1.displaced ≡ lookup k s.displaced
  unfolding pure
  lookup-ended k returned outs true false s p h = ap (lookup k) (end_settle-unplug (ok tt) s)
  lookup-ended k returned outs false false s p h =
      ap (lookup k) (end_settle-unplug _ (restore_returned S returned outs s).1)
      ∙ lookup-restore_returned k returned outs s p
  lookup-ended k returned outs _ true s p h = ground arith

  -- Where an output goes dark in a settle, every window that the snapshot holds on that output is
  -- among the displaced windows when the settle ends, under the record that the snapshot holds,
  -- whatever other outputs have come back and whatever becomes of their windows. The snapshot and
  -- the map hold each window once.
  pub settle-records_displaced :
      (prev : List String) (outs : Outputs) (s : State S.World) (k : Identity) (rec : WindowRecord)
      → DistinctKeys s.snapshot
      → DistinctKeys s.displaced
      → lookup k s.snapshot ≡ some rec
      → on_output (difference prev (lit_names outs)) rec ≡ true
      → lookup k (settle S (some prev) outs s).1.displaced ≡ some rec
  unfolding settle settle_edges
  settle-records_displaced prev outs s k rec us ud h gone =
      let cur = lit_names outs in
      let removed = difference prev cur in
      let returned = difference cur prev in
      let seen : State S.World = note_removed S cur removed s in
      let some_gone = on_output-nonempty removed rec gone in
      let recorded = displaced-note_removed cur removed s some_gone in
      let found : lookup k seen.displaced ≡ some rec =
        ap (lookup k) recorded
        ∙ lookup-record_displaced removed s.snapshot s.displaced k us
        ∙ ap (λ o. noted removed o (lookup k s.displaced)) h
        ∙ ground arith in
      let spared : Spared k returned seen.displaced =
        Spared-lookup k returned seen.displaced rec
          (subst (λ d. DistinctKeys d) (sym recorded)
            (record_displaced-DistinctKeys removed s.snapshot s.displaced ud))
          found (removed-not_returned prev cur rec gone) in
      lookup-ended k returned outs (is_empty returned) (is_empty removed) seen spared some_gone
      ∙ found
