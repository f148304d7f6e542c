-- ===== src/Relocate/Gate/Named.antt =====
-- The windows that a monitor reply of dwm names as selected, and what relocate.py takes for a
-- confirmation.
use xrandrw.Prelude.{Bool, true, false, ◌||◌, ◌≡◌, List, [], ◌∷◌, arith, all, Bool-cases, inl, inr}
use xrandrw.Prelude.Int.{ℤ}
use xrandrw.Json.{Json, null, bool, int, str, obj, arr, nil, cons, items, ok, ok_inj}
use xrandrw.Ipc.{validate_monitors, has_keys, require_list_of_dicts}
use xrandrw.Relocate.Focus.{clients_field, is_xid, confirmed_from, selected_confirmed}

-- `x` is the selected client of one of the monitors.
abbrev pub names_selected : List Json → ℤ → Bool
names_selected [] x = false
names_selected (m ∷ ms) x = is_xid (clients_field "selected" m) x || names_selected ms x

-- A reply that names `x` as the selected client of a monitor, be it the selected monitor or another.
abbrev pub confirms : Json → ℤ → Bool
confirms (arr js) x = names_selected (items js) x
confirms _ x = false

-- What the code takes for a confirmation names the window.
confirmed_from-names :
    (fallback : Bool) (ms : List Json) (x : ℤ)
    → confirmed_from fallback ms x ≡ true
    → fallback || names_selected ms x ≡ true
unfolding confirmed_from
confirmed_from-names fallback [] x h = ground arith
confirmed_from-names fallback (m ∷ ms) x h =
    elim (Bool-cases (is_xid (clients_field "selected" m) x)) [
      | inl hit ↦ ground arith
      | inr miss ↦ let more = confirmed_from-names fallback ms x in ground arith
    ]

-- A body that is read as a list of monitors is that list.
pub validate_monitors-confirms :
    (body : Json) (ms : List Json) (x : ℤ)
    → validate_monitors body ≡ ok ms
    → selected_confirmed ms x ≡ true
    → confirms body x ≡ true
unfolding validate_monitors require_list_of_dicts selected_confirmed
validate_monitors-confirms null ms x h c = ground arith
validate_monitors-confirms (bool b) ms x h c = ground arith
validate_monitors-confirms (int z) ms x h c = ground arith
validate_monitors-confirms (str s) ms x h c = ground arith
validate_monitors-confirms (obj fs) ms x h c = ground arith
validate_monitors-confirms (arr nil) ms x h c = ground arith
validate_monitors-confirms (arr (cons j js)) ms x h c =
    elim (Bool-cases (all (has_keys ("num" ∷ "monitor_geometry" ∷ [])) (j ∷ items js))) [
      | inl good ↦
          let same : j ∷ items js ≡ ms = ok_inj (rw good at h) in
          confirmed_from-names false (j ∷ items js) x (rw (← same) at c)
      | inr bad ↦ ground (arith, rw bad at h)
    ]
