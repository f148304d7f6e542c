-- ===== src/Tests/Wiring.antt =====
-- dwmipc.py's wire format, and policy.py's placement, at small inputs.
use xrandrw.Prelude.{ℕ, String, true, ◌≡◌, ◌≤◌, ◌<◌, refl, some, List, [], ◌∷◌, ◌++◌, length, arith}
use xrandrw.Ipc.Wire.{ok, pack_header, parse_header, magic, le_bytes, recvall, read_round, chunk}
use xrandrw.Ipc.Wire.Laws.{parse_header-pack_header, parse_header_bounds, length-recvall}
use xrandrw.Policy.{Place, assign_placements, place_from}
use xrandrw.Policy.Placement.{assign_placements-total, items_of, named}
use xrandrw.Policy.Overlap.{NoOverlap, assign_placements-NoOverlap}
use xrandrw.Policy.Preferred.{assign_placements-preferred, as_preferred}

abbrev header : List ℕ
header = magic ++ le_bytes 258 ++ 5 ∷ []

packed : pack_header 5 258 ≡ some header
unfolding pack_header
packed = refl

parse_header-pack_header_example : parse_header 1048576 header ≡ ok (258, 5)
parse_header-pack_header_example =
    parse_header-pack_header 1048576 5 258 (omega arith) (omega arith) packed

parsed : parse_header 1048576 header ≡ ok (258, 5)
unfolding parse_header
parsed = refl

parse_header_bounds_example : (12 ≤ length header) × (0 < 258) × (258 ≤ 1048576)
parse_header_bounds_example = parse_header_bounds 1048576 header parsed

received :
    recvall
      (record { budget_left = true; recv = chunk (1 ∷ 2 ∷ []) }
        ∷ record { budget_left = true; recv = chunk (3 ∷ 4 ∷ []) }
        ∷ [])
      []
      3
    ≡ ok (1 ∷ 2 ∷ 3 ∷ [], [])
unfolding recvall read_round
received = refl

length-recvall_example : length {A = ℕ} (1 ∷ 2 ∷ 3 ∷ []) ≡ 3
length-recvall_example =
    length-recvall
      (record { budget_left = true; recv = chunk (1 ∷ 2 ∷ []) }
        ∷ record { budget_left = true; recv = chunk (3 ∷ 4 ∷ []) }
        ∷ [])
      [] 3 (omega arith) received

abbrev five : List (String × String)
five =
    ("HDMI-1", "above")
    ∷ ("DP-1", "above")
    ∷ ("DP-2", "nowhere")
    ∷ ("DP-3", "below")
    ∷ ("DP-4", "left-of")
    ∷ []

abbrev placed : List Place
placed =
    record { item = "HDMI-1"; side = "above"; anchor = some "eDP-1" }
    ∷ record { item = "DP-1"; side = "right-of"; anchor = some "eDP-1" }
    ∷ record { item = "DP-2"; side = "left-of"; anchor = some "eDP-1" }
    ∷ record { item = "DP-3"; side = "below"; anchor = some "eDP-1" }
    ∷ record { item = "DP-4"; side = "right-of"; anchor = some "DP-3" }
    ∷ []

run : assign_placements five "eDP-1" "right-of" ≡ some placed
unfolding assign_placements place_from
run = refl

assign_placements-total_example :
    (ps : List Place) × (assign_placements five "eDP-1" "right-of" ≡ some ps)
    × (items_of ps ≡ named five)
assign_placements-total_example = assign_placements-total five "eDP-1" "right-of"

assign_placements-NoOverlap_example : NoOverlap placed
assign_placements-NoOverlap_example =
    assign_placements-NoOverlap five "eDP-1" "right-of" placed
      (refl, (refl, (refl, (refl, (refl, tt))))) refl run

abbrev two : List (String × String)
two = ("HDMI-1", "above") ∷ ("DP-1", "below") ∷ []

assign_placements-preferred_example :
    assign_placements two "eDP-1" "right-of" ≡ some (as_preferred "eDP-1" two)
assign_placements-preferred_example =
    assign_placements-preferred two "eDP-1" "right-of" (refl, refl, (refl, refl, tt))
      (refl, (refl, tt)) (omega arith)
