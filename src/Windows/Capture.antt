-- ===== src/Windows/Capture.antt =====
-- xrandrw/windows.py: `build_record` and `capture_windows`, with dwm, the X server and /proc behind
-- a record of seams.
pub mod Built
pub mod Connectors
pub mod Sound
use xrandrw.Prelude.{
  ℕ, String, Bool, true, false, not, ◌&&◌, Option, none, some, List, [], ◌∷◌, ◌++◌, Eq, ◌==◌,
  string_eq, contains, all, if◌then◌else◌,
}
use xrandrw.Prelude.Int.{ℤ}
use xrandrw.Prelude.Dict.{Dict, keys, lookup}
use xrandrw.Prelude.Text.{is_empty, parse_int}
use xrandrw.Json.{
  Json, null, bool, int, str, arr, obj, Items, items, member, Key, nothing, number, text, container,
  key, key_eq, Result, ok, unavailable, raised, as_int, truthy, get, index, ◌>>=◌,
}
use xrandrw.Ipc.{validate_monitors, validate_client, has_keys}
use xrandrw.Outputs.{Output, Outputs}
use xrandrw.Relocate.Focus.{get_field}
use xrandrw.Windows.{match_dwm_monitor_to_output}
use xrandrw.Windows.Process.{ProcIdentity, WindowReads, resolve_pid}

-- The dataclass `WindowRecord` with what dwm answers in it: nothing checks the kind of these values.
pub record Captured : Type 0 where
  pub xid : ℤ
  pub pid : ℤ
  pub starttime : ℤ
  pub comm : String
  pub cmdline : Option String
  pub output : Option String
  pub edid : Option String
  pub monitor_number : Json
  pub tags : Json
  pub is_floating : Bool
  pub is_fullscreen : Bool
  pub geometry : Json

-- `int(v)`: of a bool, a number or a text
abbrev pub to_int : Json → Option ℤ
to_int (str s) = parse_int s
to_int j = as_int j

-- `isinstance(geom, dict) and "current" in geom`
abbrev pub inner : Json → Json
inner (obj fs) = elim (member "current" fs) [ none ↦ obj fs | some v ↦ v ]
inner j = j

unfoldable pub client_geometry : Json → Result Json
client_geometry client = do
  outer ← index "geometry" client
  let geom = inner outer
  if has_keys ("x" ∷ "y" ∷ "width" ∷ "height" ∷ []) geom then ok geom else raised

abbrev or_raise {ℓ} : {A : Type ℓ} → Option A → Result A
or_raise none = raised
or_raise (some a) = ok a

unfoldable pub build_record :
    Json → ProcIdentity → Json → Option String → Option String → Result Captured
unfolding client_geometry
build_record xid identity client connector edid = do
  states ← index "states" client
  x ← or_raise (to_int xid)
  monitor_number ← index "monitor_number" client
  tags ← index "tags" client
  floating ← index "is_floating" states
  fullscreen ← index "is_fullscreen" states
  geometry ← client_geometry client
  ok (record {
    xid = x;
    pid = identity.pid;
    starttime = identity.starttime;
    comm = identity.comm;
    cmdline = identity.cmdline;
    output = connector;
    edid = edid;
    monitor_number = monitor_number;
    tags = tags;
    is_floating = truthy floating;
    is_fullscreen = truthy fullscreen;
    geometry = geometry;
  })

-- `client_mnum in mapping`, and what it maps to; a container is no key.
abbrev pub connector_for : Json → Dict Key (Option String) → Result (Option String)
connector_for j mapping = elim (key j) [
  | container ↦ raised
  | nothing ↦ ok (elim (lookup nothing mapping) [ none ↦ none | some c ↦ c ])
  | number z ↦ ok (elim (lookup (number z) mapping) [ none ↦ none | some c ↦ c ])
  | text s ↦ ok (elim (lookup (text s) mapping) [ none ↦ none | some c ↦ c ])
]

-- `outs[connector].edid_sha1 if connector and connector in outs else None`
abbrev pub edid_for : Option String → Outputs → Option String
edid_for none outs = none
edid_for (some c) outs =
    let found : Option String = elim (lookup c outs) [ none ↦ none | some o ↦ o.edid_sha1 ] in
    if is_empty c then none else found

-- The loop's `except` clauses: a window whose record cannot be made is skipped.
abbrev pub kept : Result Captured → Option Captured
kept (ok rec) = some rec
kept unavailable = none
kept raised = none

abbrev pub add : Option Captured → List Captured → List Captured
add none records = records
add (some rec) records = rec ∷ records

pub record Sources : Type 1 where
  pub World : Type 0
  -- the replies to GET_MONITORS and GET_DWM_CLIENT
  pub get_monitors : World → Result Json × World
  pub get_dwm_client : ℤ → World → Result Json × World
  -- `reader.read` and `read_edids`, `none` where one raises
  pub read : World → Option Outputs × World
  pub hostname : String
  pub window_reads : Json → World → WindowReads × World

module _ (S : Sources) where
  -- One client of a monitor; anything but a record is a window that is skipped.
  unfoldable pub record_of :
      Dict Key (Option String) → Outputs → Json → ProcIdentity → Result Json → Result Captured
  unfolding build_record
  record_of mapping outs xid identity reply = do
    body ← reply
    client ← validate_client body
    mnum ← index "monitor_number" client
    connector ← connector_for mnum mapping
    build_record xid identity client connector (edid_for connector outs)

  abbrev pub request_client : Json → S.World → Result Json × S.World
  request_client xid w = elim (to_int xid) [
    | none ↦ (unavailable, w)
    | some x ↦ S.get_dwm_client x w
  ]

  -- What follows `resolve_pid`.
  unfoldable pub capture_resolved :
      Dict Key (Option String)
      → Outputs
      → Json
      → Option ProcIdentity
      → S.World
      → Option Captured × S.World
  unfolding record_of
  capture_resolved mapping outs xid none w = (none, w)
  capture_resolved mapping outs xid (some identity) w =
      let (reply, w1) = request_client xid w in
      (kept (record_of mapping outs xid identity reply), w1)

  unfoldable pub capture_window :
      Dict Key (Option String) → Outputs → Json → S.World → Option Captured × S.World
  unfolding capture_resolved
  capture_window mapping outs xid w =
      let (reads, w1) = S.window_reads xid w in
      capture_resolved mapping outs xid (resolve_pid S.hostname reads) w1

  unfoldable pub capture_clients :
      Dict Key (Option String) → Outputs → List Json → S.World → List Captured × S.World
  unfolding capture_window
  capture_clients mapping outs [] w = ([], w)
  capture_clients mapping outs (xid ∷ xids) w =
      let (found, w1) = capture_window mapping outs xid w in
      let (records, w2) = capture_clients mapping outs xids w1 in (add found records, w2)

  -- The clients of a monitor; a value of the wrong kind skips the monitor.
  abbrev pub clients_of : Json → List Json
  clients_of mon = elim (get_field "all" (get_field "clients" mon)) [ arr js ↦ items js | _ ↦ [] ]

  unfoldable pub capture_monitors :
      Dict Key (Option String) → Outputs → List Json → S.World → List Captured × S.World
  unfolding capture_clients
  capture_monitors mapping outs [] w = ([], w)
  capture_monitors mapping outs (mon ∷ mons) w =
      let (records, w1) = capture_clients mapping outs (clients_of mon) w in
      let (more, w2) = capture_monitors mapping outs mons w1 in (records ++ more, w2)

  -- The part of `capture_windows` behind the association.
  unfoldable pub capture_matched :
      List Json
      → Outputs
      → Result (Dict Key (Option String))
      → S.World
      → Result (List Captured) × S.World
  unfolding capture_monitors
  capture_matched mons outs (ok mapping) w =
      let (records, w1) = capture_monitors mapping outs mons w in (ok records, w1)
  capture_matched mons outs unavailable w = (unavailable, w)
  capture_matched mons outs raised w = (raised, w)

  -- The part behind the read of the outputs.
  unfoldable pub capture_read :
      List Json → Option Outputs → S.World → Result (List Captured) × S.World
  unfolding capture_matched
  capture_read mons none w = (ok [], w)
  capture_read mons (some outs) w =
      capture_matched mons outs (match_dwm_monitor_to_output mons outs) w

  -- The part behind the list of monitors.
  unfoldable pub capture_listed :
      Result (List Json) → S.World → (Result (List Captured) × Option (List Json)) × S.World
  unfolding capture_read
  capture_listed unavailable w = ((ok [], none), w)
  capture_listed raised w = ((raised, none), w)
  capture_listed (ok mons) w =
      let (outs, w1) = S.read w in
      let (records, w2) = capture_read mons outs w1 in ((records, some mons), w2)

  -- The records, unless it raises, and the monitors that an observer is called with.
  unfoldable pub capture_windows : S.World → (Result (List Captured) × Option (List Json)) × S.World
  unfolding capture_listed
  capture_windows w =
      let (reply, w1) = S.get_monitors w in capture_listed (reply >>= validate_monitors) w1
