-- ===== src/Config/Overflow.antt =====
-- An infinite POLL_INTERVAL in `load_config` of config.py.
use xrandrw.Prelude.{
  String, true, false, ◌≡◌, refl, ◌∙◌, Option, none, some, [], ◌==◌, string_eq, Option-cases, inl,
  inr,
}
use xrandrw.Prelude.Partial.{◌>>=◌}
use xrandrw.Prelude.Int.{ℤ, pos}
use xrandrw.Prelude.Dict.{lookup}
use xrandrw.Prelude.Text.{parse_int}
use xrandrw.Config.{
  Host, overflows, env_defaults, merged, Progress, coerce_int, coerce, flag, load_config,
}
use xrandrw.Config.Steps.{Pred, Has, Same, Sets, Any, AtLeast, IsFlag, flag-Sets, coerce-Sets}
use xrandrw.Config.Valid.{start}

-- What goes wrong behind an assignment makes the whole go wrong.
fails_later :
    (k : String) (Q P : Pred) (f g : Progress → Option Progress) (p : Progress)
    → Sets k Q P f
    → Has k Q p
    → ((p' : Progress) → Same k p p' → g p' ≡ none)
    → (f p >>= g) ≡ none
fails_later k Q P f g p sets has fails = let (p', e, got, same) = sets p has in rw e (fails p' same)

moved :
    (k j : String) (P : Pred) (p p' : Progress)
    → Same k p p'
    → (k == j) ≡ false
    → Has j P p
    → Has j P p'
moved k j P p p' same other has = record {
  text = has.text;
  found = same j other ∙ has.found;
  holds = has.holds;
}

coerce_overflows :
    (h : Host) (k t : String) (minimum : ℤ) (p : Progress) (rest : Progress → Option Progress)
    → lookup k p.0 ≡ some t
    → h.float_int t ≡ overflows
    → (coerce h k minimum true p >>= rest) ≡ none
unfolding coerce coerce_int
coerce_overflows h k t minimum p rest found over =
    elim (Option-cases (lookup k (env_defaults h.home))) [
      | inl e ↦ rw found (rw e refl)
      | inr (default, e) ↦ rw found (rw e (rw (over, coerce_int) refl))
    ]

-- An infinite POLL_INTERVAL is no value that falls back to its default: `load_config` raises.
pub load_config-overflows :
    (h : Host) (t : String)
    → lookup "POLL_INTERVAL" (merged h) ≡ some t
    → h.float_int t ≡ overflows
    → load_config h ≡ none
unfolding load_config lookup parse_int
load_config-overflows h t found over =
    let p0 : Progress = (merged h, []) in
    fails_later "USE_XWALLPAPER" Any IsFlag (flag "USE_XWALLPAPER") _ p0
      (flag-Sets "USE_XWALLPAPER") (start h "USE_XWALLPAPER" "0" refl)
      λ p1 s1.
        fails_later "WINDOW_MANAGEMENT" Any IsFlag (flag "WINDOW_MANAGEMENT") _ p1
          (flag-Sets "WINDOW_MANAGEMENT")
          (moved "USE_XWALLPAPER" "WINDOW_MANAGEMENT" Any p0 p1 s1 refl
            (start h "WINDOW_MANAGEMENT" "0" refl))
          λ p2 s2.
            fails_later "HIDPI_WIDTH" Any (AtLeast (pos 0)) (coerce h "HIDPI_WIDTH" (pos 0) false) _
              p2 (coerce-Sets h "HIDPI_WIDTH" "3200" (pos 0) (pos 3200) refl refl)
              (moved "WINDOW_MANAGEMENT" "HIDPI_WIDTH" Any p1 p2 s2 refl (
                moved "USE_XWALLPAPER" "HIDPI_WIDTH" Any p0 p1 s1 refl
                  (start h "HIDPI_WIDTH" "3200" refl)))
              λ p3 s3.
                coerce_overflows h "POLL_INTERVAL" t (pos 5) p3 _
                  (s3 "POLL_INTERVAL" refl
                    ∙ s2 "POLL_INTERVAL" refl
                    ∙ s1 "POLL_INTERVAL" refl
                    ∙ found)
                  over
