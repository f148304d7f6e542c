-- ===== src/Relocate/Focus.antt =====
-- relocate.py: what the monitor replies say of dwm's selection, the confirmed focus, and the give-back
-- of the user's focus after a cycle.
use xrandrw.Prelude.{
  ℕ, zero, suc, String, Bool, true, false, ◌&&◌, Option, none, some, List, [], ◌∷◌, ◌++◌, ◌==◌,
  contains, ltb, length, if◌then◌else◌,
}
use xrandrw.Prelude.Int.{ℤ, pos, int_eq}
use xrandrw.Json.{
  Json, obj, arr, null, number, key, key_eq, Result, ok, unavailable, raised, as_int, truthy,
  member, items,
}
use xrandrw.Relocate.Seam.{Seams, M, pure, ◌>>=◌, ◌>>◌, monitors, run_verb, steal_focus, observe}

-- `m.get(k)` of a monitor, which the validation has shown to be a dict
abbrev pub get_field : String → Json → Json
get_field k (obj fs) = elim (member k fs) [ none ↦ null | some v ↦ v ]
get_field k _ = null

-- `clients.get(k) if isinstance(clients, dict) else None`
abbrev pub clients_field : String → Json → Json
clients_field k m = get_field k (get_field "clients" m)

-- `sel == xid`
abbrev pub is_xid : Json → ℤ → Bool
is_xid j x = key j == number x

unfoldable pub confirmed_from : Bool → List Json → ℤ → Bool
confirmed_from fallback [] x = fallback
confirmed_from fallback (m ∷ ms) x =
    let hit = is_xid (clients_field "selected" m) x in
    let rest = confirmed_from (if hit then true else fallback) ms x in
    if hit && truthy (get_field "is_selected" m) then true else rest

unfoldable pub selected_confirmed : List Json → ℤ → Bool
unfolding confirmed_from
selected_confirmed ms x = confirmed_from false ms x

unfoldable pub selected_monitor : List Json → Option ℤ
selected_monitor [] = none
selected_monitor (m ∷ ms) =
    let rest = selected_monitor ms in
    if truthy (get_field "is_selected" m)
    then elim (as_int (get_field "num" m)) [ none ↦ rest | some n ↦ some n ]
    else rest

abbrev or_first : Option (Option ℤ × ℤ) → Option (Option ℤ × ℤ) → Option (Option ℤ × ℤ)
or_first none new = new
or_first (some old) new = some old

focus_from : Option (Option ℤ × ℤ) → List Json → Option (Option ℤ × ℤ)
focus_from fallback [] = fallback
focus_from fallback (m ∷ ms) = elim (as_int (clients_field "selected" m)) [
  | none ↦ focus_from fallback ms
  | some sel ↦
      let here : Option (Option ℤ × ℤ) = some (as_int (get_field "num" m), sel) in
      let found =
        if truthy (get_field "is_selected" m)
        then here
        else focus_from (or_first fallback here) ms in
      let skipped = focus_from fallback ms in if sel == pos 0 then skipped else found
]

unfoldable pub selected_focus : List Json → Option (Option ℤ × ℤ)
unfolding focus_from
selected_focus ms = focus_from none ms

abbrev list_of : Json → List Json
list_of (arr js) = items js
list_of _ = []

abbrev ints_of : List Json → List ℤ
ints_of [] = []
ints_of (j ∷ js) = elim (as_int j) [ none ↦ ints_of js | some x ↦ x ∷ ints_of js ]

unfoldable pub all_client_xids : List Json → List ℤ
all_client_xids [] = []
all_client_xids (m ∷ ms) = ints_of (list_of (clients_field "all" m)) ++ all_client_xids ms

abbrev pub focus_confirm_tries : ℕ
focus_confirm_tries = 6

-- What one read of the poll leads to.
unfoldable pub on_poll : {W : Type 0} → ℤ → M W Bool → Result (List Json) → M W Bool
on_poll x again unavailable s = (ok false, s)
on_poll x again raised s = (raised, s)
on_poll x again (ok ms) s =
    let rest = again s in if selected_confirmed ms x then (ok true, s) else rest

module _ (S : Seams) where
  -- The poll: `tries` reads of the monitors at most, with a pause after each that does not confirm.
  unfoldable pub confirm : ℕ → ℤ → M S.World Bool
  unfolding on_poll
  confirm zero x s = (ok false, s)
  confirm (suc tries) x s =
      let (r, s') = monitors S s in
      on_poll x (observe S (λ w. (tt, S.sleep w)) >> confirm tries x) r s'

  unfoldable pub focus_and_confirm : ℤ → M S.World Bool
  focus_and_confirm x = do steal_focus S x; confirm focus_confirm_tries x

  -- One hop after another; the monitors are read anew after each.
  unfoldable pub focusmon_hop : (List Json → M S.World (Unit {0})) → M S.World (Unit {0})
  focusmon_hop again = do
    moved ← run_verb S "focusmon" (pos 1 ∷ [])
    if moved then (monitors S >>= again) else pure tt

  unfoldable pub walk_focus : ℕ → ℤ → List Json → M S.World (Unit {0})
  unfolding focusmon_hop
  walk_focus zero target ms = pure tt
  walk_focus (suc hops) target ms =
      let hop : M S.World (Unit {0}) = focusmon_hop (walk_focus hops target) in
      elim (selected_monitor ms) [ none ↦ hop | some n ↦ if n == target then pure tt else hop ]

  unfoldable pub focusmon_to : Option ℤ → List Json → M S.World (Unit {0})
  unfolding walk_focus
  focusmon_to none ms = pure tt
  focusmon_to (some target) ms =
      if ltb (length ms) 2 then pure tt else walk_focus (length ms) target ms

  -- What the monitors at the end of the cycle lead to.
  unfoldable pub refocus : Option ℤ → ℤ → Result (List Json) → M S.World (Unit {0})
  unfolding focusmon_to focus_and_confirm
  refocus mon_num x unavailable s = (ok tt, s)
  refocus mon_num x raised s = (raised, s)
  refocus mon_num x (ok ms) s =
      let back = (focus_and_confirm x >>= λ _. pure tt) s in
      let walk = focusmon_to mon_num ms s in if contains x (all_client_xids ms) then back else walk

  unfoldable pub restore_focus : Option (Option ℤ × ℤ) → M S.World (Unit {0})
  unfolding refocus
  restore_focus none s = (ok tt, s)
  restore_focus (some (mon_num, x)) s = let (r, s') = monitors S s in refocus mon_num x r s'
