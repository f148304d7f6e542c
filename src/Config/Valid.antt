-- ===== src/Config/Valid.antt =====
-- What `load_config` of config.py guarantees of the environment that the daemon runs with.
use Prim.Native.String.{◌++◌ as ◌++ₛ◌}
use xrandrw.Prelude.{
  String, true, false, ◌≡◌, ◌≢◌, refl, ◌∙◌, some, List, [], ◌∷◌, ◌==◌, string_eq, Bool-cases,
  Option-cases, inl, inr, if◌then◌else◌,
}
use xrandrw.Prelude.Int.{pos}
use xrandrw.Prelude.Dict.{keys, lookup, insert, insert_all, lookup-insert}
use xrandrw.Prelude.Text.{parse_int}
use xrandrw.Config.{
  Env, Host, overflows, env_defaults, overrides, merged, load_env_file, Progress, coerce, flag,
  choice, is_backend, is_engine, is_level, lock_files, resolve_lock_dir, lockfile_default, set,
  load_config,
}
use xrandrw.Config.Steps.{
  Has, Any, AtLeast, IsFlag, Passes, Finite, flag-Sets, choice-Sets, coerce-Sets, coerce_float-Sets,
  insert-Has, insert-Same,
}
use xrandrw.Config.Needs.{Needs, Meets, is_fresh, Meets-Same, Meets-cons, Returns, advance}

abbrev Present : String → Env → Type 0
Present k env = (t : String) × (lookup k env ≡ some t)

Present-insert : (j k v : String) (env : Env) → Present j env → Present j (insert k v env)
Present-insert j k v env (t, h) = elim (Bool-cases (k == j)) [
  | inl same ↦ (v, lookup-insert j k v env ∙ rw same refl)
  | inr other ↦ (t, lookup-insert j k v env ∙ rw other h)
]

Present-insert_all : (j : String) (env more : Env) → Present j env → Present j (insert_all env more)
unfolding insert_all
Present-insert_all j env [] h = h
Present-insert_all j env ((k, v) ∷ more) h =
    Present-insert_all j (insert k v env) more (Present-insert j k v env h)

Present-overrides :
    (j : String) (ks : List String) (environ env : Env)
    → Present j env
    → Present j (overrides ks environ env)
Present-overrides j [] environ env h = h
Present-overrides j (k ∷ ks) environ env h = elim (Option-cases (lookup k environ)) [
  | inl e ↦ rw e (Present-overrides j ks environ env h)
  | inr (v, e) ↦ rw e (Present-overrides j ks environ (insert k v env) (Present-insert j k v env h))
]

-- Every key of the defaults has a value, whatever the files and the process environment say.
Present-merged :
    (h : Host) (k t : String) → lookup k (env_defaults h.home) ≡ some t → Present k (merged h)
unfolding merged
Present-merged h k t e = Present-overrides k (keys (env_defaults h.home)) h.environ _ (
    Present-insert_all k _ (load_env_file h.conf_user)
      (Present-insert_all k (env_defaults h.home) (load_env_file h.conf_sys) (t, e)))

module _ (h : Host) where
  pub start : (k t : String) → lookup k (env_defaults h.home) ≡ some t → Has k Any (merged h, [])
  start k t e =
      let (v, found) = Present-merged h k t e in record { text = v; found = found; holds = tt }

  start_finite :
      ((t : String) → lookup "POLL_INTERVAL" (merged h) ≡ some t → h.float_int t ≢ overflows)
      → Has "POLL_INTERVAL" (Finite h) (merged h, [])
  unfolding lookup
  start_finite finite =
      let (v, found) = Present-merged h "POLL_INTERVAL" "45" refl in
      record { text = v; found = found; holds = finite v found }

-- The values that the daemon reads later, as they are documented.
abbrev pub documented : String → Needs
documented dir =
    ("STATE_LOCKFILE", (λ t. t ≡ dir ++ₛ "/xrandrw.state.lock"))
    ∷ ("BOUNCE_HOLDDOWN_MS", AtLeast (pos 0))
    ∷ ("BOUNCE_SUSPECT_MS", AtLeast (pos 0))
    ∷ ("EXCESS_THRESHOLD", AtLeast (pos 2))
    ∷ ("EXCESS_WINDOW_SEC", AtLeast (pos 5))
    ∷ ("LOG_LEVEL", Passes is_level)
    ∷ ("WALLPAPER_ENGINE", Passes is_engine)
    ∷ ("APPLY_BACKEND", Passes is_backend)
    ∷ ("POLL_INTERVAL", AtLeast (pos 5))
    ∷ ("HIDPI_WIDTH", AtLeast (pos 0))
    ∷ ("WINDOW_MANAGEMENT", IsFlag)
    ∷ ("USE_XWALLPAPER", IsFlag)
    ∷ []

-- The lock files change no other value.
lock_files-Returns :
    (h : Host) (dir : String) (needs : Needs) (p : Progress)
    → resolve_lock_dir h ≡ some dir
    → is_fresh "LOCKFILE" needs ≡ true
    → is_fresh "STATE_LOCKFILE" needs ≡ true
    → Has "LOCKFILE" Any p
    → Meets needs p
    → Returns
        (("STATE_LOCKFILE", (λ t. t ≡ dir ++ₛ "/xrandrw.state.lock")) ∷ needs)
        (lock_files h p)
unfolding lock_files
lock_files-Returns h dir needs p resolved own state has m =
    let lock = dir ++ₛ "/xrandrw.lock" in
    let slock = dir ++ₛ "/xrandrw.state.lock" in
    let q = if has.text == lockfile_default then set "LOCKFILE" lock p else p in
    let kept : Meets needs q = elim (Bool-cases (has.text == lockfile_default)) [
      | inl e ↦ rw e (
          Meets-Same needs "LOCKFILE" p (set "LOCKFILE" lock p) (insert-Same "LOCKFILE" lock p) own
            m)
      | inr e ↦ rw e m
    ] in
    (
      set "STATE_LOCKFILE" slock q,
      rw has.found (rw resolved refl),
      Meets-cons "STATE_LOCKFILE" (λ t. t ≡ slock) needs (set "STATE_LOCKFILE" slock q)
          (insert-Has "STATE_LOCKFILE" slock (λ t. t ≡ slock) q refl)
          (Meets-Same needs "STATE_LOCKFILE" q (set "STATE_LOCKFILE" slock q)
            (insert-Same "STATE_LOCKFILE" slock q) state kept),
    )

-- What is asked of each value before its assignment, in the order of the assignments.
abbrev asked : Host → Needs
asked h =
    ("USE_XWALLPAPER", Any)
    ∷ ("WINDOW_MANAGEMENT", Any)
    ∷ ("HIDPI_WIDTH", Any)
    ∷ ("POLL_INTERVAL", Finite h)
    ∷ ("APPLY_BACKEND", Any)
    ∷ ("WALLPAPER_ENGINE", Any)
    ∷ ("LOG_LEVEL", Any)
    ∷ ("EXCESS_WINDOW_SEC", Any)
    ∷ ("EXCESS_THRESHOLD", Any)
    ∷ ("BOUNCE_SUSPECT_MS", Any)
    ∷ ("BOUNCE_HOLDDOWN_MS", Any)
    ∷ ("LOCKFILE", Any)
    ∷ []

merged-Meets :
    (h : Host)
    → ((t : String) → lookup "POLL_INTERVAL" (merged h) ≡ some t → h.float_int t ≢ overflows)
    → Meets (asked h) (merged h, [])
unfolding lookup
merged-Meets h finite = record {
  values = (
    start h "USE_XWALLPAPER" "0" refl,
    (
      start h "WINDOW_MANAGEMENT" "0" refl,
      (
        start h "HIDPI_WIDTH" "3200" refl,
        (
          start_finite h finite,
          (
            start h "APPLY_BACKEND" "subprocess" refl,
            (
              start h "WALLPAPER_ENGINE" "" refl,
              (
                start h "LOG_LEVEL" "notice" refl,
                (
                  start h "EXCESS_WINDOW_SEC" "20" refl,
                  (
                    start h "EXCESS_THRESHOLD" "4" refl,
                    (
                      start h "BOUNCE_SUSPECT_MS" "5000" refl,
                      (
                        start h "BOUNCE_HOLDDOWN_MS" "3000" refl,
                        (start h "LOCKFILE" "/tmp/xrandrw.lock" refl, tt),
                      ),
                    ),
                  ),
                ),
              ),
            ),
          ),
        ),
      ),
    ),
  );
}

-- Where a lock directory is found or made, and the value of POLL_INTERVAL is no infinite number,
-- `load_config` returns whatever the files and the process environment hold: the two switches are
-- "0" or "1", the numbers are whole numbers that are not below their minimum, the backend, the engine
-- and the log level are known ones, and the state lock lies in the directory.
pub load_config-Returns :
    (h : Host) (dir : String)
    → resolve_lock_dir h ≡ some dir
    → ((t : String) → lookup "POLL_INTERVAL" (merged h) ≡ some t → h.float_int t ≢ overflows)
    → Returns (documented dir) (load_config h)
unfolding load_config lookup parse_int
load_config-Returns h dir resolved finite =
    let todo0 = merged-Meets h finite in
    advance "USE_XWALLPAPER" Any IsFlag (flag "USE_XWALLPAPER") _ _ _ _ _
      (flag-Sets "USE_XWALLPAPER") refl refl todo0 (record { values = tt })
      λ p1 todo1 done1.
        advance "WINDOW_MANAGEMENT" Any IsFlag (flag "WINDOW_MANAGEMENT") _ _ _ _ _
          (flag-Sets "WINDOW_MANAGEMENT") refl refl todo1 done1
          λ p2 todo2 done2.
            advance "HIDPI_WIDTH" Any (AtLeast (pos 0)) (coerce h "HIDPI_WIDTH" (pos 0) false) _ _ _
              _ _ (coerce-Sets h "HIDPI_WIDTH" "3200" (pos 0) (pos 3200) refl refl) refl refl todo2
              done2
              λ p3 todo3 done3.
                advance "POLL_INTERVAL" (Finite h) (AtLeast (pos 5))
                  (coerce h "POLL_INTERVAL" (pos 5) true) _ _ _ _ _
                  (coerce_float-Sets h "POLL_INTERVAL" "45" (pos 5) (pos 45) refl refl) refl refl
                  todo3 done3
                  λ p4 todo4 done4.
                    advance "APPLY_BACKEND" Any (Passes is_backend)
                      (choice "APPLY_BACKEND" is_backend "subprocess") _ _ _ _ _
                      (choice-Sets "APPLY_BACKEND" is_backend "subprocess" refl) refl refl todo4
                      done4
                      λ p5 todo5 done5.
                        advance "WALLPAPER_ENGINE" Any (Passes is_engine)
                          (choice "WALLPAPER_ENGINE" is_engine "") _ _ _ _ _
                          (choice-Sets "WALLPAPER_ENGINE" is_engine "" refl) refl refl todo5 done5
                          λ p6 todo6 done6.
                            advance "LOG_LEVEL" Any (Passes is_level)
                              (choice "LOG_LEVEL" is_level "notice") _ _ _ _ _
                              (choice-Sets "LOG_LEVEL" is_level "notice" refl) refl refl todo6 done6
                              λ p7 todo7 done7.
                                advance "EXCESS_WINDOW_SEC" Any (AtLeast (pos 5))
                                  (coerce h "EXCESS_WINDOW_SEC" (pos 5) false) _ _ _ _ _
                                  (coerce-Sets h "EXCESS_WINDOW_SEC" "20" (pos 5) (pos 20) refl
                                    refl)
                                  refl refl todo7 done7
                                  λ p8 todo8 done8.
                                    advance "EXCESS_THRESHOLD" Any (AtLeast (pos 2))
                                      (coerce h "EXCESS_THRESHOLD" (pos 2) false) _ _ _ _ _
                                      (coerce-Sets h "EXCESS_THRESHOLD" "4" (pos 2) (pos 4) refl
                                        refl)
                                      refl refl todo8 done8
                                      λ p9 todo9 done9.
                                        advance "BOUNCE_SUSPECT_MS" Any (AtLeast (pos 0))
                                          (coerce h "BOUNCE_SUSPECT_MS" (pos 0) false) _ _ _ _ _
                                          (coerce-Sets h "BOUNCE_SUSPECT_MS" "5000" (pos 0)
                                            (pos 5000) refl refl)
                                          refl refl todo9 done9
                                          λ p10 todo10 done10.
                                            advance "BOUNCE_HOLDDOWN_MS" Any (AtLeast (pos 0))
                                              (coerce h "BOUNCE_HOLDDOWN_MS" (pos 0) false) _ _ _ _
                                              _
                                              (coerce-Sets h "BOUNCE_HOLDDOWN_MS" "3000" (pos 0)
                                                (pos 3000) refl refl)
                                              refl refl todo10 done10
                                              λ p11 todo11 done11.
                                                lock_files-Returns h dir _ p11 resolved refl refl
                                                  todo11.values.0 done11
