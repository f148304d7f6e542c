-- ===== src/Tests/Desktop.antt =====
-- A desktop of a laptop panel and an external head, with a dwm that does what it is told.
use xrandrw.Prelude.{
  ℕ, zero, suc, Bool, true, false, none, some, [], ◌∷◌, ◌==◌, string_eq, if◌then◌else◌,
}
use xrandrw.Prelude.Int.{pos}
use xrandrw.Json.{Json, bool, int, str, arr, obj, nil, cons, end, field, Items, Result, ok}
use xrandrw.Ipc.{Message, get_monitors, get_dwm_client, run_command}
use xrandrw.Outputs.{Output, Outputs}
use xrandrw.Relocate.Plan.{WindowRecord}
use xrandrw.Relocate.Seam.{Seams, State, Identity}

abbrev pub panel : Output
panel = record {
  name = "eDP-1";
  connected = true;
  primary = true;
  current_mode = some (pos 1920, pos 1200);
  position = some (pos 0, pos 0);
  modes = [];
  edid_sha1 = none;
}

abbrev pub head : Output
head = record {
  name = "HDMI-1";
  connected = true;
  primary = false;
  current_mode = some (pos 1600, pos 900);
  position = some (pos 1920, pos 0);
  modes = [];
  edid_sha1 = some "d15c";
}

abbrev pub docked : Outputs
docked = ("eDP-1", panel) ∷ ("HDMI-1", head) ∷ []

abbrev pub undocked : Outputs
undocked = ("eDP-1", panel) ∷ []

-- The head is unplugged and still driven.
abbrev pub unplugged : Outputs
unplugged = ("eDP-1", panel) ∷ ("HDMI-1", record head { connected = false }) ∷ []

abbrev pub window : WindowRecord
window = record {
  xid = pos 7;
  pid = pos 100;
  starttime = pos 5;
  comm = "st";
  cmdline = none;
  output = some "HDMI-1";
  edid = none;
  monitor_number = pos 1;
  tags = pos 2;
  is_floating = false;
  is_fullscreen = false;
  geometry = record { x = pos 1930; y = pos 10; width = pos 300; height = pos 200 };
}

abbrev pub identity : Identity
identity = (pos 100, pos 5)

abbrev clients_on : ℕ → ℕ → Items
clients_on zero zero = cons (int (pos 7)) (cons (int (pos 3)) (cons (int (pos 4)) nil))
clients_on zero (suc _) = cons (int (pos 3)) (cons (int (pos 4)) nil)
clients_on (suc _) zero = cons (int (pos 5)) (cons (int (pos 6)) nil)
clients_on (suc _) (suc _) = cons (int (pos 7)) (cons (int (pos 5)) (cons (int (pos 6)) nil))

abbrev selects : ℕ → ℕ → Bool
selects zero zero = true
selects zero (suc _) = false
selects (suc _) zero = false
selects (suc _) (suc _) = true

abbrev pub monitor : ℕ → ℕ → Json
monitor n at = obj (
    field "num" (int (pos n)) (
      field "monitor_geometry" (obj (field "x" (int (pos 0)) (field "y" (int (pos 0)) end))) (
        field "is_selected" (bool (selects n at)) (
          field "tagset" (obj (field "current" (int (pos 1)) end)) (
            field "clients"
              (obj (field "selected" (int (pos 7)) (field "all" (arr (clients_on n at)) end)))
              end)))))

abbrev client : ℕ → Json
client at = obj (
    field "name" (str "st") (
      field "tags" (int (pos 1)) (
        field "geometry" (obj end) (
          field "states" (obj (field "is_floating" (bool false) end))
            (field "monitor_number" (int (pos at)) end)))))

-- The number of the monitor that has the window; `tagmon` moves it to the other head.
abbrev pub answer : Message → ℕ → Result Json × ℕ
answer get_monitors at = (ok (arr (cons (monitor 0 at) (cons (monitor 1 at) nil))), at)
answer (get_dwm_client x) at = (ok (client at), at)
answer (run_command verb args) at =
    (ok (obj (field "result" (str "success") end)), if verb == "tagmon" then 1 else at)

abbrev pub desktop : Seams
desktop = record {
  World = ℕ;
  request = answer;
  focus = λ x at. at;
  configure_geometry = λ x g at. at;
  resolve_pid = λ x at. (some identity, at);
  read_proc_identity = λ p at. (some identity, at);
  read = λ at. (some docked, at);
  capture = λ at. (record { looks = []; observed = none; records = some [] }, at);
  sleep = λ at. at;
  is_stopping = λ at. (false, at);
  is_refused = false;
}

-- The coordinator after a settle with both heads, the window on the external one.
abbrev pub settled : State ℕ
settled = record {
  coordinator = record {
    displaced = [];
    snapshot = (identity, window) ∷ [];
    snapshot_focus = none;
    focus_calls = 0;
    prev_present = some ("eDP-1" ∷ "HDMI-1" ∷ []);
  };
  world = 0;
  trace = [];
}
