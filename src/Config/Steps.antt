-- ===== src/Config/Steps.antt =====
-- One assignment of `load_config` of config.py at a time: what it gives its key, and that it leaves
-- every other key alone.
use xrandrw.Prelude.{
  String, Bool, true, false, ◌≡◌, ◌≢◌, refl, ◌∙◌, Option, some, [], ◌∷◌, ◌++◌, arith, ◌==◌,
  string_eq, contains, Bool-cases, Option-cases, ◌⊎◌, beq_refl, inl, inr, if◌then◌else◌,
}
use xrandrw.Prelude.Int.{ℤ, ltb_ℤ}
use xrandrw.Prelude.Dict.{lookup, insert, lookup-insert}
use xrandrw.Prelude.Text.{parse_int, show_int}
use xrandrw.Prelude.Text.Numbers.{parse_int-show_int}
use xrandrw.Config.{
  FloatRead, whole, invalid, overflows, Host, env_defaults, max_ℤ, coerce_int, fall_back, Progress,
  set, coerce, flag, choice, set,
}

abbrev pub Pred : Type 1
Pred = String → Type 0

-- The key has a value for which the predicate holds.
pub record Has (k : String) (P : Pred) (p : Progress) : Type 0 where
  pub text : String
  pub found : lookup k p.0 ≡ some text
  pub holds : P text

abbrev pub Same : String → Progress → Progress → Type 0
Same k p p' = (j : String) → (k == j) ≡ false → lookup j p'.0 ≡ lookup j p.0

-- Where the key meets `Q`, the assignment gives it a value that meets `P`, and no other key one.
abbrev pub Sets : String → Pred → Pred → (Progress → Option Progress) → Type 0
Sets k Q P f =
    (p : Progress) → Has k Q p → (p' : Progress) × (f p ≡ some p') × Has k P p' × Same k p p'

abbrev pub Any : Pred
Any t = Unit

abbrev pub AtLeast : ℤ → Pred
AtLeast minimum t = (v : ℤ) × (parse_int t ≡ some v) × (ltb_ℤ v minimum ≡ false)

abbrev pub IsFlag : Pred
IsFlag t = contains t ("0" ∷ "1" ∷ []) ≡ true

abbrev pub Passes : (String → Bool) → Pred
Passes allowed t = allowed t ≡ true

abbrev pub Finite : Host → Pred
Finite h t = h.float_int t ≢ overflows

pub insert-Has : (k v : String) (P : Pred) (p : Progress) → P v → Has k P (set k v p)
insert-Has k v P p h = record {
  text = v;
  found = lookup-insert k k v p.0 ∙ rw (beq_refl k) refl;
  holds = h;
}

pub insert-Same : (k v : String) (p : Progress) → Same k p (set k v p)
insert-Same k v p j other = rw (lookup-insert j k v p.0) (rw other refl)

IsFlag-value : (b : Bool) → IsFlag (if b then "1" else "0")
IsFlag-value true = refl
IsFlag-value false = refl

pub flag-Sets : (k : String) → Sets k Any IsFlag (flag k)
unfolding flag
flag-Sets k p h =
    let v = if contains h.text ("1" ∷ "true" ∷ "yes" ∷ []) then "1" else "0" in
    (
      set k v p,
      rw h.found refl,
      insert-Has k v IsFlag p (IsFlag-value (contains h.text ("1" ∷ "true" ∷ "yes" ∷ []))),
      insert-Same k v p,
    )

pub choice-Sets :
    (k : String) (allowed : String → Bool) (default : String)
    → allowed default ≡ true
    → Sets k Any (Passes allowed) (choice k allowed default)
unfolding choice
choice-Sets k allowed default ok p h = elim (Bool-cases (allowed h.text)) [
  | inl e ↦ (
    p,
    rw h.found (rw e refl),
    record { text = h.text; found = h.found; holds = e },
    λ j other. refl,
  )
  | inr e ↦ (
    set k default p,
    rw h.found (rw e refl),
    insert-Has k default (Passes allowed) p ok,
    insert-Same k default p,
  )
]

max_ℤ-le : (minimum v : ℤ) → ltb_ℤ (max_ℤ minimum v) minimum ≡ false
max_ℤ-le minimum v = ground arith

FloatRead-cases : (r : FloatRead) → r ≢ overflows → ((v : ℤ) × (r ≡ whole v)) ⊎ (r ≡ invalid)
FloatRead-cases (whole v) h = inl (v, refl)
FloatRead-cases invalid h = inr refl
FloatRead-cases overflows h = absurd (h refl)

module _ (h : Host) (raw default : String) (minimum d : ℤ) (read : parse_int default ≡ some d) where
  -- The coercion has a result, which is the minimum at least.
  abbrev Bounded : Bool → Type 0
  Bounded use_float =
      (v : ℤ × Bool) × (coerce_int h raw default minimum use_float ≡ some v)
      × (ltb_ℤ v.0 minimum ≡ false)

  coerce_int-AtLeast :
      (use_float : Bool) → (use_float ≡ true → h.float_int raw ≢ overflows) → Bounded use_float
  unfolding coerce_int
  coerce_int-AtLeast true finite = elim (FloatRead-cases (h.float_int raw) (finite refl)) [
    | inl (v, e) ↦ ((max_ℤ minimum v, false), rw (e, coerce_int) refl, max_ℤ-le minimum v)
    | inr e ↦ (
      (max_ℤ minimum d, true),
      rw (e, coerce_int) (rw (read, fall_back) refl),
      max_ℤ-le minimum d,
    )
  ]
  coerce_int-AtLeast false finite = elim (Option-cases (parse_int raw)) [
    | inl e ↦ (
      (max_ℤ minimum d, true),
      rw (e, coerce_int) (rw (read, fall_back) refl),
      max_ℤ-le minimum d,
    )
    | inr (v, e) ↦ ((max_ℤ minimum v, false), rw (e, coerce_int) refl, max_ℤ-le minimum v)
  ]

module _ (h : Host) (k default : String) (minimum d : ℤ)
    (defaults : lookup k (env_defaults h.home) ≡ some default)
    (read : parse_int default ≡ some d) where
  coerce-AtLeast :
      (use_float : Bool) (p : Progress) (raw : String)
      → lookup k p.0 ≡ some raw
      → (use_float ≡ true → h.float_int raw ≢ overflows)
      → (p' : Progress) × (coerce h k minimum use_float p ≡ some p')
        × Has k (AtLeast minimum) p'
        × Same k p p'
  unfolding coerce
  coerce-AtLeast use_float p raw found finite =
      let (v, e, bound) = coerce_int-AtLeast h raw default minimum d read use_float finite in
      let shown = show_int v.0 in
      let warnings = if v.1 then p.1 ++ (k, raw, default) ∷ [] else p.1 in
      (
        (insert k shown p.0, warnings),
        rw found (rw defaults (rw e refl)),
        insert-Has k shown (AtLeast minimum) (p.0, warnings) (v.0, parse_int-show_int v.0, bound),
        insert-Same k shown (p.0, warnings),
      )

  pub coerce-Sets : Sets k Any (AtLeast minimum) (coerce h k minimum false)
  coerce-Sets p has = coerce-AtLeast false p has.text has.found (λ e. ground arith)

  pub coerce_float-Sets : Sets k (Finite h) (AtLeast minimum) (coerce h k minimum true)
  coerce_float-Sets p has = coerce-AtLeast true p has.text has.found (λ _. has.holds)
