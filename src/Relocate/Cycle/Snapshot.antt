-- ===== src/Relocate/Cycle/Snapshot.antt =====
-- What taking a snapshot (relocate.py, `_safe_capture`) makes of the coordinator.
use xrandrw.Prelude.{Option, none, some, List, [], ◌∷◌}
use xrandrw.Prelude.Dict.{DistinctKeys, insert, insert-DistinctKeys}
use xrandrw.Relocate.Plan.{WindowRecord}
use xrandrw.Relocate.Seam.{Seams, identity_eq, State}
use xrandrw.Relocate.Cycle.{Records, keyed, refresh_snapshot}

keyed-DistinctKeys :
    (recs : List WindowRecord) (d : Records) → DistinctKeys d → DistinctKeys (keyed recs d)
unfolding keyed
keyed-DistinctKeys [] d u = u
keyed-DistinctKeys (r ∷ recs) d u =
    keyed-DistinctKeys recs (insert (r.pid, r.starttime) r d)
      (insert-DistinctKeys (r.pid, r.starttime) r d u)

taken-DistinctKeys :
    (recs : Option (List WindowRecord)) (d : Records)
    → DistinctKeys d
    → DistinctKeys (elim recs [ none ↦ d | some rs ↦ keyed rs [] ])
taken-DistinctKeys none d u = u
taken-DistinctKeys (some rs) d u = keyed-DistinctKeys rs [] tt

module _ (S : Seams) where
  -- A snapshot holds each window once.
  pub refresh_snapshot-DistinctKeys :
      (s : State S.World) → DistinctKeys s.snapshot → DistinctKeys (refresh_snapshot S s).snapshot
  unfolding refresh_snapshot
  refresh_snapshot-DistinctKeys s u = taken-DistinctKeys (S.capture s.world).0.records s.snapshot u
