-- ===== src/Watch/Loop.antt =====
-- xrandrw/watch.py: `watch_loop`. What `select` and the X connection show in each round is a list of
-- rounds, which ends where `stop_evt` is found set.
pub mod Runs
use xrandrw.Prelude.{
  ℕ, String, Bool, true, false, not, ◌&&◌, ◌||◌, Option, none, some, List, [], ◌∷◌, if◌then◌else◌,
}
use xrandrw.Watch.Seam.{Seams, State, M, pure, give_up, ◌>>=◌, topology_hash}
use xrandrw.Watch.{apply_if_changed}

-- One return of `select`: the wakeup pipe of a signal; or the timeout or the X connection, with
-- whether events are pending.
pub data Wake : Type 0 where
  signal : Wake
  timeout : Bool → Wake
  x_readable : Bool → Wake

-- `got_event or (xfd not in r)`; without RandR 1.5 no event is looked for.
unfoldable pub is_wakeup : Bool → Wake → Bool
is_wakeup events_ok signal = false
is_wakeup events_ok (timeout pending) = true
is_wakeup events_ok (x_readable pending) = events_ok && pending

pub record Settings : Type 0 where
  pub hold_ms : ℕ
  pub suspect_ms : ℕ

module _ (S : Seams) (c : Settings) (events_ok : Bool) where
  unfoldable pub round : Wake → String → M S.World String
  unfolding is_wakeup
  round wake last =
      if is_wakeup events_ok wake then apply_if_changed S c.hold_ms c.suspect_ms last else pure last

  -- The loop, from the hash on that it compares with.
  unfoldable pub loop : List Wake → String → M S.World String
  unfolding round
  loop [] last = pure last
  loop (wake ∷ wakes) last = do next ← round wake last; loop wakes next

  -- `watch_loop`: without a display it returns at once; the topology that it finds is its first hash.
  unfoldable pub watch_loop : Bool → List Wake → M S.World (Option String)
  unfolding loop
  watch_loop has_display wakes =
      if not has_display
      then pure none
      else do first ← topology_hash S; last ← loop wakes first; pure (some last)
