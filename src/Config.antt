-- ===== src/Config.antt =====
-- xrandrw/config.py: the environment files, the coercions and `load_config`. Files, the process
-- environment, directories and `float` are parameters; a path is a text in normal form.
pub mod Steps
pub mod Needs
pub mod Valid
pub mod Overflow
use Prim.Native.Char.{Char, code}
use Prim.Native.String
use Prim.Native.String.{◌++◌ as ◌++ₛ◌}
use xrandrw.Prelude.{
  ℕ, ◌+◌, String, Bool, true, false, not, ◌&&◌, ◌||◌, Option, none, some, List, [], ◌∷◌, ◌++◌, ◌==◌,
  nat_eq, string_eq, contains, leb, nat_beq, if◌then◌else◌,
}
use xrandrw.Prelude.Partial.{◌>>=◌}
use xrandrw.Prelude.Int.{ℤ, pos, ltb_ℤ}
use xrandrw.Prelude.Dict.{Dict, keys, lookup, insert, insert_all}
use xrandrw.Prelude.Text.{
  is_empty, is_char, strip, split_by, partition, parse_int, show_int, show_digits,
}

abbrev pub Env : Type 0
Env = Dict String String

-- `int(float(s))`: a whole number, a ValueError, or the OverflowError of an infinity.
pub data FloatRead : Type 0 where
  whole : ℤ → FloatRead
  invalid overflows : FloatRead

pub record Host : Type 0 where
  pub home : String
  pub uid : ℕ
  -- the text of /etc/xdg/xrandrw.conf and ~/.config/xrandrw.conf, where there is such a file
  pub conf_sys : Option String
  pub conf_user : Option String
  pub environ : Env
  pub is_dir : String → Bool
  -- whether `mkdir` of the last resort succeeds
  pub can_mkdir : Bool
  pub float_int : String → FloatRead

abbrev pub lockfile_default : String
lockfile_default = "/tmp/xrandrw.lock"

abbrev pub env_defaults : String → Env
env_defaults home =
    ("USE_XWALLPAPER", "0")
    ∷ ("WALL", home ++ₛ "/.local/share/wallpapers/space.jpg")
    ∷ ("HIDPI_WIDTH", "3200")
    ∷ ("POLL_INTERVAL", "45")
    ∷ ("APPLY_BACKEND", "subprocess")
    ∷ ("WALLPAPER_ENGINE", "")
    ∷ ("LOG_LEVEL", "notice")
    ∷ ("LOG_FILE", "")
    ∷ ("LOCKFILE", lockfile_default)
    ∷ ("PREF_DEFAULT_SIDE", "right-of")
    ∷ ("TOUCH_MAP", "")
    ∷ ("EXCESS_WINDOW_SEC", "20")
    ∷ ("EXCESS_THRESHOLD", "4")
    ∷ ("WINDOW_MANAGEMENT", "0")
    ∷ ("BOUNCE_SUSPECT_MS", "5000")
    ∷ ("BOUNCE_HOLDDOWN_MS", "3000")
    ∷ []

-- The characters at which `splitlines` splits. An empty piece, as in the middle of "\r\n", is a
-- line that the loop skips.
abbrev is_line_break : Char → Bool
is_line_break c =
    let n = code c in
    (leb 10 n && leb n 13)
    || (leb 28 n && leb n 30)
    || nat_beq n 133
    || nat_beq n 8232
    || nat_beq n 8233

abbrev last_is : ℕ → String → Bool
last_is n String.[] = false
last_is n (String.◌∷◌ c s) = if is_empty s then is_char n c else last_is n s

abbrev drop_last : String → String
drop_last String.[] = String.[]
drop_last (String.◌∷◌ c s) =
    let rest = drop_last s in if is_empty s then String.[] else String.◌∷◌ c rest

-- The quotes of a value that begins and ends with the same kind.
unfoldable pub unquote : String → String
unquote String.[] = String.[]
unquote (String.◌∷◌ c s) =
    if (is_char b'"' c && last_is b'"' (String.◌∷◌ c s))
      || (is_char b'\'' c && last_is b'\'' (String.◌∷◌ c s))
    then drop_last s
    else String.◌∷◌ c s

abbrev is_comment : String → Bool
is_comment String.[] = true
is_comment (String.◌∷◌ c s) = is_char b'#' c

-- One line of an environment file, `none` where it is skipped.
unfoldable pub parse_line : String → Option (String × String)
unfolding strip partition unquote
parse_line line =
    let s = strip line in
    if is_comment s
    then none
    else elim (partition b'=' s) [ none ↦ none | some (k, v) ↦ some (strip k, unquote (strip v)) ]

unfoldable pub load_lines : Env → List String → Env
unfolding parse_line
load_lines env [] = env
load_lines env (line ∷ lines) =
    load_lines (elim (parse_line line) [ none ↦ env | some (k, v) ↦ insert k v env ]) lines

unfoldable pub load_env_file : Option String → Env
unfolding load_lines split_by
load_env_file none = []
load_env_file (some contents) = load_lines [] (split_by is_line_break contents)

-- `str(Path(xrd))`, `/run/user/<uid>`, or a directory that is made
unfoldable pub resolve_lock_dir : Host → Option String
resolve_lock_dir h =
    let run_user = "/run/user/" ++ₛ show_int (pos h.uid) in
    let own = h.home ++ₛ "/.local/share/xrandrw" in
    let later =
      if h.is_dir run_user then some run_user else if h.can_mkdir then some own else none in
    elim (lookup "XDG_RUNTIME_DIR" h.environ) [
      | none ↦ later
      | some xrd ↦ if not (is_empty xrd) && h.is_dir xrd then some xrd else later
    ]

abbrev pub max_ℤ : ℤ → ℤ → ℤ
max_ℤ minimum v = if ltb_ℤ minimum v then v else minimum

-- A warning: the key, the value that is refused and the default that is used.
abbrev pub Warning : Type 0
Warning = String × String × String

-- `int(default)`, which a ValueError would escape from
abbrev pub fall_back : String → ℤ → Option (ℤ × Bool)
fall_back default minimum = elim (parse_int default) [
  | none ↦ none
  | some d ↦ some (max_ℤ minimum d, true)
]

-- The number, and whether the default stands for the value.
unfoldable pub coerce_int : Host → String → String → ℤ → Bool → Option (ℤ × Bool)
coerce_int h raw default minimum true = elim (h.float_int raw) [
  | whole v ↦ some (max_ℤ minimum v, false)
  | invalid ↦ fall_back default minimum
  | overflows ↦ none
]
coerce_int h raw default minimum false = elim (parse_int raw) [
  | some v ↦ some (max_ℤ minimum v, false)
  | none ↦ fall_back default minimum
]

-- The environment and the warnings so far.
abbrev pub Progress : Type 0
Progress = Env × List Warning

abbrev pub set : String → String → Progress → Progress
set k v (env, warnings) = (insert k v env, warnings)

unfoldable pub coerce : Host → String → ℤ → Bool → Progress → Option Progress
unfolding coerce_int
coerce h k minimum use_float p = do
  raw ← lookup k p.0
  default ← lookup k (env_defaults h.home)
  v ← coerce_int h raw default minimum use_float
  some (insert k (show_int v.0) p.0, if v.1 then p.1 ++ (k, raw, default) ∷ [] else p.1)

-- `"1" if env[k] in ("1", "true", "yes") else "0"`
unfoldable pub flag : String → Progress → Option Progress
flag k p = do
  raw ← lookup k p.0
  some (set k (if contains raw ("1" ∷ "true" ∷ "yes" ∷ []) then "1" else "0") p)

-- `if env[k] not in allowed: env[k] = default`
unfoldable pub choice : String → (String → Bool) → String → Progress → Option Progress
choice k allowed default p = do
  raw ← lookup k p.0
  some (if allowed raw then p else set k default p)

abbrev pub lower : ℕ → ℕ
lower n = if leb b'A' n && leb n b'Z' then n + 32 else n

-- `s.lower() == t`, for a `t` of small ASCII letters
abbrev pub eq_lower : String → String → Bool
eq_lower String.[] String.[] = true
eq_lower (String.◌∷◌ c s) (String.◌∷◌ d t) = lower (code c) == code d && eq_lower s t
eq_lower _ _ = false

abbrev pub any_lower : String → List String → Bool
any_lower s [] = false
any_lower s (t ∷ ts) = eq_lower s t || any_lower s ts

abbrev pub is_engine : String → Bool
is_engine s = any_lower (strip s) ("" ∷ "feh" ∷ "fehbg" ∷ "xwallpaper" ∷ "native" ∷ [])

abbrev pub is_backend : String → Bool
is_backend s = contains s ("subprocess" ∷ "native" ∷ [])

-- `_LEVEL_MAP`
abbrev pub is_level : String → Bool
is_level s = contains s ("none" ∷ "err" ∷ "info" ∷ "notice" ∷ "debug" ∷ [])

abbrev pub overrides : List String → Env → Env → Env
overrides [] environ env = env
overrides (k ∷ ks) environ env =
    overrides ks environ (elim (lookup k environ) [ none ↦ env | some v ↦ insert k v env ])

-- The defaults, both files and the process environment, the later over the earlier.
unfoldable pub merged : Host → Env
unfolding load_env_file
merged h = overrides (keys (env_defaults h.home)) h.environ (
    insert_all (insert_all (env_defaults h.home) (load_env_file h.conf_sys))
      (load_env_file h.conf_user))

unfoldable pub lock_files : Host → Progress → Option Progress
unfolding resolve_lock_dir
lock_files h p = do
  lockfile ← lookup "LOCKFILE" p.0
  dir ← resolve_lock_dir h
  some (
      set "STATE_LOCKFILE" (dir ++ₛ "/xrandrw.state.lock")
        (if lockfile == lockfile_default then set "LOCKFILE" (dir ++ₛ "/xrandrw.lock") p else p))

unfoldable pub load_config : Host → Option Progress
load_config h = do
  p ← flag "USE_XWALLPAPER" (merged h, [])
  p ← flag "WINDOW_MANAGEMENT" p
  p ← coerce h "HIDPI_WIDTH" (pos 0) false p
  p ← coerce h "POLL_INTERVAL" (pos 5) true p
  p ← choice "APPLY_BACKEND" is_backend "subprocess" p
  p ← choice "WALLPAPER_ENGINE" is_engine "" p
  p ← choice "LOG_LEVEL" is_level "notice" p
  p ← coerce h "EXCESS_WINDOW_SEC" (pos 5) false p
  p ← coerce h "EXCESS_THRESHOLD" (pos 2) false p
  p ← coerce h "BOUNCE_SUSPECT_MS" (pos 0) false p
  p ← coerce h "BOUNCE_HOLDDOWN_MS" (pos 0) false p
  lock_files h p
