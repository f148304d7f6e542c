-- ===== src/Tests/Capturing.antt =====
-- windows.py at a window of a local process, and at a capture of it.
use Prim.Native.Char.{Char}
use xrandrw.Prelude.Text.{
  is_empty, is_space, is_char, show_int, strip, rpartition, split_by, parse_int,
}
use Prim.Native.String.{◌++◌ as ◌++ₛ◌}
use xrandrw.Prelude.{
  ℕ, String, false, ◌≡◌, refl, Option, none, some, if◌then◌else◌, List, [], ◌∷◌, All, ◌==◌,
  string_eq,
}
use xrandrw.Prelude.Int.{ℤ, pos, int_eq}
use xrandrw.Json.{Json, bool, int, str, arr, obj, nil, cons, end, field, ok}
use xrandrw.Ipc.{validate_monitors, validate_client}
use xrandrw.Prelude.Dict.{lookup, insert}
use xrandrw.Windows.{connector_of, match_dwm_monitor_to_output}
use xrandrw.Windows.Process.{
  get_elem?, read_proc_identity, read_proc_comm, read_proc_cmdline, contents, ProcReads,
  ProcIdentity, WindowReads, resolve_pid, parse_starttime_from_stat,
}
use xrandrw.Windows.Process.Stat.{IsField, spaced, parse_starttime_from_stat-spaced}
use xrandrw.Windows.Process.Local.{IsOne, LacksPid, resolve_pid-IsOne}
use xrandrw.Windows.Capture.{Sources, Captured, capture_windows}
use xrandrw.Windows.Capture.Sound.{Traced, capture_windows-Traced}
use xrandrw.Tests.Desktop.{docked}

-- The fields behind the name: the state, seventeen numbers, a zero and the start time.
abbrev fields : List String
fields =
    "S" ∷ "1" ∷ "1" ∷ "1" ∷ "0" ∷ "-1" ∷ "4194304" ∷ "1" ∷ "0" ∷ "0" ∷ "0" ∷ "2" ∷ "1" ∷ "0" ∷ "0"
    ∷ "20" ∷ "0" ∷ "1" ∷ "0" ∷ "74" ∷ "5" ∷ []

-- Fields of one and of two characters.
one : {c : Char} → is_space c ≡ false → is_char b')' c ≡ false → IsField (String.◌∷◌ c String.[])
one s p = record { nonempty = refl; solid = (s, tt); unclosed = (p, tt) }

two :
    {c d : Char}
    → is_space c ≡ false
    → is_space d ≡ false
    → is_char b')' c ≡ false
    → is_char b')' d ≡ false
    → IsField (String.◌∷◌ c (String.◌∷◌ d String.[]))
two s t p q = record { nonempty = refl; solid = (s, (t, tt)); unclosed = (p, (q, tt)) }

big : IsField "4194304"
big = record {
  nonempty = refl;
  solid = (refl, (refl, (refl, (refl, (refl, (refl, (refl, tt)))))));
  unclosed = (refl, (refl, (refl, (refl, (refl, (refl, (refl, tt)))))));
}

fields-IsField : All IsField fields
fields-IsField = (
  one refl refl,
  (
    one refl refl,
    (
      one refl refl,
      (
        one refl refl,
        (
          one refl refl,
          (
            two refl refl refl refl,
            (
              big,
              (
                one refl refl,
                (
                  one refl refl,
                  (
                    one refl refl,
                    (
                      one refl refl,
                      (
                        one refl refl,
                        (
                          one refl refl,
                          (
                            one refl refl,
                            (
                              one refl refl,
                              (
                                two refl refl refl refl,
                                (
                                  one refl refl,
                                  (
                                    one refl refl,
                                    (one refl refl, (two refl refl refl refl, (one refl refl, tt))),
                                  ),
                                ),
                              ),
                            ),
                          ),
                        ),
                      ),
                    ),
                  ),
                ),
              ),
            ),
          ),
        ),
      ),
    ),
  ),
)

seventy_four : get_elem? fields 19 ≡ some (show_int (pos 74))
unfolding show_int
seventy_four = refl

parse_starttime_from_stat-spaced_example :
    parse_starttime_from_stat ("100 (a) (b" ++ₛ String.◌∷◌ ")" (spaced fields)) ≡ some (pos 74)
parse_starttime_from_stat-spaced_example =
    parse_starttime_from_stat-spaced "100 (a) (b" fields (pos 74) fields-IsField seventy_four

abbrev reads : ProcReads
reads = record {
  stat = contents ("100 (st) " ++ₛ "S 1 1 1 0 -1 4194304 1 0 0 0 2 1 0 0 20 0 1 0 74 5");
  comm = contents "st\n";
  cmdline = contents "";
  stat_again = contents ("100 (st) " ++ₛ "R 1 1 1 0 -1 4194304 1 0 0 0 3 1 0 0 20 0 1 0 74 5");
}

abbrev window_reads : WindowReads
window_reads = record {
  client_machine = some "host";
  net_wm_pid = none;
  xres_pid = some (pos 100);
  proc = λ p. reads;
}

abbrev process : ProcIdentity
process = record { pid = pos 100; starttime = pos 74; comm = "st"; cmdline = none }

-- A window with both answers about its process, which differ.
abbrev two_answers : WindowReads
two_answers = record window_reads { net_wm_pid = some (pos 100); xres_pid = some (pos 200) }

found_by_property : resolve_pid "host" two_answers ≡ some process
unfolding resolve_pid strip read_proc_identity parse_starttime_from_stat rpartition split_by
    parse_int read_proc_comm read_proc_cmdline
found_by_property = refl

resolve_pid-IsOne_example :
    ((machine : String)
      → two_answers.client_machine ≡ some machine
      → is_empty (strip machine) ≡ false
      → strip machine ≡ "host")
    × ((p : ℤ) → two_answers.net_wm_pid ≡ some p → (p == pos 0) ≡ false → process.pid ≡ p)
    × (LacksPid two_answers → two_answers.xres_pid ≡ some process.pid)
    × IsOne (pos 100) reads process
resolve_pid-IsOne_example = resolve_pid-IsOne "host" two_answers process found_by_property

abbrev rectangle : ℕ → ℕ → ℕ → ℕ → Json
rectangle x y w h = obj (
    field "x" (int (pos x))
      (field "y" (int (pos y)) (field "width" (int (pos w)) (field "height" (int (pos h)) end))))

-- dwm's monitors and windows, on the desktop with both heads: window 7 is on the external one.
abbrev monitor : ℕ → Json → ℤ → Json
monitor n rect x = obj (
    field "num" (int (pos n)) (
      field "monitor_geometry" rect
        (field "clients" (obj (field "all" (arr (cons (int x) nil)) end)) end)))

abbrev monitor_of : ℤ → ℕ
monitor_of x = if x == pos 7 then 1 else 0

abbrev client : ℤ → Json
client x = obj (
    field "name" (str "st") (
      field "tags" (int (pos 2)) (
        field "geometry" (rectangle 1930 10 300 200) (
          field "states"
            (obj (field "is_floating" (bool false) (field "is_fullscreen" (bool false) end)))
            (field "monitor_number" (int (pos (monitor_of x))) end)))))

abbrev both : Json
both = arr (
    cons (monitor 0 (rectangle 0 0 1920 1200) (pos 3))
      (cons (monitor 1 (rectangle 1920 0 1600 900) (pos 7)) nil))

abbrev sources : Sources
sources = record {
  World = ℕ;
  get_monitors = λ w. (ok both, w);
  get_dwm_client = λ x w. (ok (client x), w);
  read = λ w. (some docked, w);
  hostname = "host";
  window_reads = λ x w. (window_reads, w);
}

abbrev captured : ℤ → String → Option String → Captured
captured x connector edid = record {
  xid = x;
  pid = pos 100;
  starttime = pos 74;
  comm = "st";
  cmdline = none;
  output = some connector;
  edid = edid;
  monitor_number = int (pos (monitor_of x));
  tags = int (pos 2);
  is_floating = false;
  is_fullscreen = false;
  geometry = rectangle 1930 10 300 200;
}

abbrev all_captured : List Captured
all_captured = captured (pos 3) "eDP-1" none ∷ captured (pos 7) "HDMI-1" (some "d15c") ∷ []

capture : (capture_windows sources 0).0.0 ≡ ok all_captured
unfolding capture_windows validate_monitors validate_client match_dwm_monitor_to_output connector_of
    lookup insert resolve_pid strip read_proc_identity parse_starttime_from_stat rpartition split_by
    parse_int read_proc_comm read_proc_cmdline
capture = refl

capture_windows-Traced_example : Traced sources 0 all_captured
capture_windows-Traced_example = capture_windows-Traced sources 0 all_captured capture
