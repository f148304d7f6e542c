-- ===== src/Lib.antt =====
-- xrandrw, a display policy daemon for X11 and dwm: it watches the RandR outputs, applies a layout
-- when the topology changes, and, with a dwm that has the dwm-ipc patch, brings the windows of an
-- unplugged head back to it when the head returns. This library models the parts of it that decide
-- something, in src/xrandrw/, and proves what they are relied on for.
--
-- The parts, and how they meet. `watch_loop` (src/xrandrw/watch.py) calls `_apply_if_changed` on each
-- wakeup. That calls `apply_once` (src/xrandrw/apply.py), which reads the outputs (xrandr.py), finds the
-- profiles of the heads (state.py), asks policy.py for their sides, and runs xrandr; a configured profile
-- (profiles.py) comes before that, the touch devices (touch.py) after it. Behind a completed apply the wakeup
-- calls `RelocationCoordinator.on_settled` (src/xrandrw/relocate.py), which talks to dwm through dwmipc.py
-- and matches dwm's monitors with outputs by windows.py, which also captures the windows and finds the
-- process of each. `load_config` (src/xrandrw/config.py) makes the environment that all of them read; a
-- pass also sets the wallpaper (wallpaper.py); cli.py seeds the coordinator at boot and sets the
-- preferred sides of heads.
--
-- The files:
--   Prelude, Prelude/*   the shared names: tests, dicts in insertion order, integers, sorting, the chains
--                        of optional results, and Python's methods of texts
--   Json                 what `json.loads` returns, and Python's `get`, `[]`, `==` and truth on it
--   Outputs, Outputs/*   xrandr.py: `Output`, `is_lit`, the topology hash, `unhealed_outputs`; Resources has
--                        `RandRReader.read` and `randr_resources_to_outputs`, Edids `read_edids`
--   Ipc, Ipc/*           dwmipc.py: the messages and shape validators; Wire has the header and `_recvall`,
--                        Exchange `_preflight_socket`, `decode_reply` and `request`
--   Windows, Windows/*   windows.py: `match_dwm_monitor_to_output`; Process has `parse_starttime_from_stat`,
--                        `read_proc_identity` and `resolve_pid`, Capture `build_record` and
--                        `capture_windows`; Match, and the modules below those, hold proofs
--   Config, Config/*     config.py: the environment files, the coercions, `load_config`; what it returns
--   Wallpaper            wallpaper.py: the chain of backends and its tries; Wallpaper/Chain has the proofs
--   Cli, Cli/*           cli.py: Pref has `set_pref`, Seed `_seeded_coordinator`
--   Policy, Policy/*     policy.py; the placement and its overlaps
--   Profiles, Profiles/* profiles.py: match and argv; Parse has the parser of the LAYOUT_ texts, whose
--                        spelling is in Parse/Pieces and Parse/Spelled
--   Touch                touch.py: `parse_touch_map` and the remaps
--   Store, Store/Linked  state.py: `ensure_profile`, and the links of its two maps
--   Apply, Apply/*       apply.py: Externals has `_place_externals`, Apply `apply_once`; Commands, Lawful, Places
--                        and Bail prove what a pass runs and reports
--   Watch, Watch/*       watch.py: Seam has the state and the seams, Watch the decision, Quiet, Wakeup and Bounds
--                        what it can end in and its bounds; Loop has `watch_loop`
--   Relocate             relocate.py, by child: Plan (the pure plan), Guard (the crash guard, with the
--                        description of dwm in Guard/Dwm), Seam (state, seams, dwm-ipc calls), Focus (the
--                        confirmed focus and its give-back), Tagmon (the bounded walk), Restore (one
--                        window), Cycle (the record and restore machine). Plan/Effect, Guard/Entries,
--                        Guard/Sendmon, Tagmon/Arrival, Chain, Gate, Gate/*, Restore/*, Keeps,
--                        Keeps/* and Cycle/* hold proofs.
--   Tests, Tests/*       runs on a small desktop, and an instance of each theorem
--
-- How state and failure are written. A pass of `apply_once` is a function of what it reads to the list
-- of its commands, because no result of a command is looked at. The wakeups and the coordinator pass a
-- state along (the `churn` dict; `_displaced`, `_snapshot`, `_snapshot_focus`, `_focus_calls`,
-- `_prev_present`) with a world behind seams, and note each outside effect in a trace. An exception is
-- a value: `unavailable` for `DwmIpcUnavailable`, `raised` for others, `none` where one kind suffices;
-- what was done before it stays done.
--
-- Parameters: what the sockets, the X server, /proc, /sys, the file system and the programs answer, the
-- clock and waits, SHA-1, the digest of the topology, `json.loads`, `float`, and the case-insensitive search
-- in a device name. dwm's own behaviour enters the crash guard's theorem, where Guard/Dwm
-- describes it, and the effect of a plan, where Plan/Effect leaves the tags of a moved window and the places
-- of windows to any dwm. The clock's laws are the record `IsClock`. The coordinator takes the capture of the windows
-- and the identity of a process as seams, whose records hold numbers where dwm's reply is not checked.
--
-- Bounds and fuel. `_focus_and_confirm` polls six times and `_tagmon_to_target` hops as often as there
-- are monitors, as in the source. The rounds of the bounce hold are bounded by its milliseconds, and the
-- clock's laws make them enough. Times are whole milliseconds; integers are Python's, unbounded.
-- The bounded read recurses on the peer's rounds, whose end is a closed connection; the watch loop on its
-- rounds, which end where a stop is requested; the boot seed on its retries.
--
-- Not modelled: logging, argument parsing, signals and the state dumps (cli.py, logging_utils.py), the
-- X calls themselves, the listing of input devices, the JSON text of a reply, and the event transport
-- `subscribe`, which nothing calls.
pub mod Prelude
pub mod Json
pub mod Config
pub mod Cli
pub mod Wallpaper
pub mod Outputs
pub mod Ipc
pub mod Windows
pub mod Policy
pub mod Profiles
pub mod Touch
pub mod Store
pub mod Apply
pub mod Watch
pub mod Relocate
pub mod Tests
