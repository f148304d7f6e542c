-- ===== src/Relocate/Plan/Effect.antt =====
-- What a plan of relocate.py does to the window that it is made for, where dwm carries it out.
use mathlib.Core.Path.{subst}
use xrandrw.Prelude.{
  ℕ, Bool, true, false, not, ◌&&◌, ◌≡◌, refl, ◌∙◌, sym, none, some, List, [], ◌∷◌, ◌++◌, arith,
  ◌==◌, if◌then◌else◌, Bool-cases, Option-cases, ◌⊎◌, leb, inl, inr, ltb,
}
use xrandrw.Prelude.Int.{ℤ, pos, ◌+ℤ◌, +ℤ_cancel}
use xrandrw.Prelude.Sort.{count}
use xrandrw.Json.{Key, nothing, number, key_eq}
use xrandrw.Relocate.Plan.{
  Geometry, WindowRecord, Live, Action, tagmon, tag, togglefloating, configure, tagmon_direction,
  plan_restore, plan_move, bool_ne, to_monitor_relative_geometry,
}

-- What dwm keeps of a window that a plan can change, the monitor apart.
pub record Window : Type 0 where
  pub tags : ℤ
  pub floating : Bool
  pub geometry : Geometry

-- What a plan leaves to dwm. Any dwm will do.
pub record Dwm : Type 0 where
  -- the tags that `tagmon` gives a window: those that its new monitor shows
  pub tagset : ℤ → ℤ
  -- where a window is put when an action has been carried out
  pub arranged : Action → Window → Geometry
  -- the corner of the window's monitor, which the executor subtracts and dwm adds
  pub origin : ℤ × ℤ

-- The monitor's corner is added to a geometry that is relative to it.
abbrev pub on_monitor : ℤ × ℤ → Geometry → Geometry
on_monitor (x, y) g = record { x = x +ℤ g.x; y = y +ℤ g.y; width = g.width; height = g.height }

-- What dwm makes of an action of the executor: `tagmon` overwrites the tags, a configure request, which
-- the executor sends with a geometry relative to the monitor, is heeded for a floating window only, and
-- any other action may move the window.
abbrev pub perform : Dwm → Action → Window → Window
perform dwm (tagmon d) w = record w { tags = dwm.tagset d; geometry = dwm.arranged (tagmon d) w }
perform dwm (tag t) w = record w { tags = t; geometry = dwm.arranged (tag t) w }
perform dwm togglefloating w = record w {
  floating = not w.floating;
  geometry = dwm.arranged togglefloating w;
}
perform dwm (configure g) w = record w {
  geometry =
      if w.floating
      then on_monitor dwm.origin (to_monitor_relative_geometry g dwm.origin)
      else dwm.arranged (configure g) w;
}

abbrev pub perform_all : Dwm → List Action → Window → Window
perform_all dwm [] w = w
perform_all dwm (a ∷ actions) w = perform_all dwm actions (perform dwm a w)

-- The window as the record has it; a tiled window is where dwm puts it.
abbrev pub IsRestored : WindowRecord → Window → Type 0
IsRestored rec w =
    (w.tags ≡ rec.tags)
    × (w.floating ≡ rec.is_floating)
    × (rec.is_floating ≡ true → w.geometry ≡ rec.geometry)

abbrev pub is_tagmon : Action → Bool
is_tagmon (tagmon d) = true
is_tagmon _ = false

abbrev pub is_tag : Action → Bool
is_tag (tag t) = true
is_tag _ = false

abbrev pub is_toggle : Action → Bool
is_toggle togglefloating = true
is_toggle _ = false

abbrev pub is_configure : Action → Bool
is_configure (configure g) = true
is_configure _ = false

-- The plan behind the move to another monitor.
abbrev pub later : ℤ → Geometry → Bool → Bool → List Action
later t g saved now =
    tag t
    ∷ ((if bool_ne now saved then togglefloating ∷ [] else [])
        ++ (if saved then configure g ∷ [] else []))

pub plan_move-cases :
    (live : Live) → (plan_move live ≡ []) ⊎ ((d : ℤ) × (plan_move live ≡ tagmon d ∷ []))
plan_move-cases live =
    elim (Bool-cases
      (not (live.target_monitor == nothing) && not (live.target_monitor == live.current_monitor))) [
        | inl h ↦
            rw h
              (elim (Option-cases
                (tagmon_direction live.current_monitor live.target_monitor live.n_monitors)) [
                  | inl e ↦ rw e (inl refl)
                  | inr (d, e) ↦ rw e (inr (d, refl))
                ])
        | inr h ↦ rw h (inl refl)
      ]

on_monitor-relative :
    (origin : ℤ × ℤ) (g : Geometry) → on_monitor origin (to_monitor_relative_geometry g origin) ≡ g
unfolding to_monitor_relative_geometry
on_monitor-relative (x, y) g = rw (+ℤ_cancel x g.x, +ℤ_cancel y g.y) refl

module _ (dwm : Dwm) (rec : WindowRecord) where
  perform-later :
      (saved now : Bool) (w : Window)
      → rec.is_floating ≡ saved
      → w.floating ≡ now
      → IsRestored rec (perform_all dwm (later rec.tags rec.geometry saved now) w)
  perform-later true true w e h =
      (refl, h ∙ sym e, λ _. rw h (on_monitor-relative dwm.origin rec.geometry))
  perform-later true false w e h =
      (refl, ground (arith, e, h), λ _. rw h (on_monitor-relative dwm.origin rec.geometry))
  perform-later false true w e h = (refl, ground (arith, e, h), λ f. ground (arith, e, f))
  perform-later false false w e h = (refl, h ∙ sym e, λ f. ground (arith, e, f))

  -- Whatever tags dwm gives a window that it sends to another monitor, and wherever it puts windows, a
  -- plan that it carries out leaves the window with its recorded tags and floating state, and a
  -- floating window at its recorded geometry, where the window's floating state is the one that the
  -- live view reports.
  pub perform-plan_restore :
      (live : Live) (w : Window)
      → w.floating ≡ live.current_floating
      → IsRestored rec (perform_all dwm (plan_restore rec live) w)
  unfolding plan_restore
  perform-plan_restore live w h =
      let rest = later rec.tags rec.geometry rec.is_floating live.current_floating in
      let done = perform-later rec.is_floating live.current_floating in
      elim (plan_move-cases live) [
        | inl e ↦
            subst (λ move. IsRestored rec (perform_all dwm (move ++ rest) w)) (sym e)
              (done w refl h)
        | inr (d, e) ↦
            subst (λ move. IsRestored rec (perform_all dwm (move ++ rest) w)) (sym e)
              (done (perform dwm (tagmon d) w) refl h)
      ]

abbrev pub indicator : Bool → ℕ
indicator b = if b then 1 else 0

count-later :
    (t : ℤ) (g : Geometry) (saved now : Bool) (move : List Action)
    → (move ≡ []) ⊎ ((d : ℤ) × (move ≡ tagmon d ∷ []))
    → (count is_tag (move ++ later t g saved now) ≡ 1)
      × (count is_configure (move ++ later t g saved now) ≡ indicator saved)
      × (count is_toggle (move ++ later t g saved now) ≡ indicator (bool_ne now saved))
count-later t g true true move (inl e) = rw e (refl, refl, refl)
count-later t g true true move (inr (d, e)) = rw e (refl, refl, refl)
count-later t g true false move (inl e) = rw e (refl, refl, refl)
count-later t g true false move (inr (d, e)) = rw e (refl, refl, refl)
count-later t g false true move (inl e) = rw e (refl, refl, refl)
count-later t g false true move (inr (d, e)) = rw e (refl, refl, refl)
count-later t g false false move (inl e) = rw e (refl, refl, refl)
count-later t g false false move (inr (d, e)) = rw e (refl, refl, refl)

-- A plan has one `tag`, one `configure` for a floating record and none for a tiled one, and one
-- `togglefloating` where the window's floating state is not the recorded one and none where it is.
pub count-plan_restore :
    (rec : WindowRecord) (live : Live)
    → (count is_tag (plan_restore rec live) ≡ 1)
      × (count is_configure (plan_restore rec live) ≡ indicator rec.is_floating)
      × (count is_toggle (plan_restore rec live)
          ≡ indicator (bool_ne live.current_floating rec.is_floating))
unfolding plan_restore
count-plan_restore rec live =
    count-later rec.tags rec.geometry rec.is_floating live.current_floating (plan_move live)
      (plan_move-cases live)

-- The first monitor hop of a plan: to the next monitor, never backwards, and planned exactly where the
-- target's number is that of one of at least two monitors and is not the number of the window's monitor.
pub tagmon_direction-cases :
    (cur : Key) (target n : ℕ)
    → tagmon_direction cur (number (pos target)) n
      ≡ (if leb 2 n && ltb target n && not (cur == number (pos target)) then some (pos 1) else none)
unfolding tagmon_direction
tagmon_direction-cases cur target n = ground arith
