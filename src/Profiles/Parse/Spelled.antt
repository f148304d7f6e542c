-- ===== src/Profiles/Parse/Spelled.antt =====
-- Layouts that are spelled in the grammar of profiles.py, and their parse.
use xrandrw.Prelude.{
  ℕ, String, true, false, not, ◌<◌, ◌≡◌, ◌⊎◌, refl, ◌∙◌, ap, Option, none, some, List, [], ◌∷◌, All,
  filter, all, string_eq, inr, arith,
}
use xrandrw.Prelude.Text.{is_empty, is_char}
use xrandrw.Prelude.Text.Cuts.{
  is_free, is_free-Free, Free-join, is_empty-append, Without, Free-append, join, split_by-join,
}
use xrandrw.Profiles.{OutputSpec}
use xrandrw.Profiles.Parse.{sides, spec_of, parse_spec, parse_specs, parse_profile}
use xrandrw.Profiles.Parse.Pieces.{
  rotate_parts, other_parts, parts_of, IsPlain, IsRotation, IsSpec, spec_of-parts,
  position_text-Free, role-Free,
}

abbrev pub spelled : OutputSpec → String
spelled s = join ":" (parts_of s)

abbrev all_spelled : List OutputSpec → List String
all_spelled [] = []
all_spelled (s ∷ specs) = spelled s ∷ all_spelled specs

-- A separator that is no digit and in no word of the grammar is in no part of a spec.
pub record IsSeparator (n : ℕ) : Type 0 where
  pub range : (n < 48) ⊎ (57 < n)
  pub no_minus : is_char n "-" ≡ false
  pub no_by : is_char n "x" ≡ false
  pub no_equals : is_char n "=" ≡ false
  pub no_side : all (is_free (is_char n)) sides ≡ true
  pub no_role : all (is_free (is_char n)) ("primary" ∷ "extend" ∷ []) ≡ true
  pub no_key : all (is_free (is_char n)) ("scale" ∷ "rotate" ∷ []) ≡ true
  pub plain : (s : String) → IsPlain s → Without n s

colon : IsSeparator b':'
colon = record {
  range = inr (omega arith);
  no_minus = refl;
  no_by = refl;
  no_equals = refl;
  no_side = refl;
  no_role = refl;
  no_key = refl;
  plain = λ s h. h.0;
}

semicolon : IsSeparator b';'
semicolon = record {
  range = inr (omega arith);
  no_minus = refl;
  no_by = refl;
  no_equals = refl;
  no_side = refl;
  no_role = refl;
  no_key = refl;
  plain = λ s h. h.1;
}

rotate_parts-Free :
    (n : ℕ) (c : IsSeparator n) (r : Option String)
    → IsRotation r
    → All (Without n) (rotate_parts r)
rotate_parts-Free n c none h = tt
rotate_parts-Free n c (some r) h = (
  Free-append (is_char n) "rotate" (String.◌∷◌ "=" r)
      (is_free-Free (is_char n) "rotate" (ground (arith, c.no_key))) (c.no_equals, c.plain r h),
  tt,
)

parts_of-Free :
    (n : ℕ) (c : IsSeparator n) (s : OutputSpec) → IsSpec s → All (Without n) (parts_of s)
parts_of-Free n c s h =
    let scale =
      Free-append (is_char n) "scale" (String.◌∷◌ "=" s.scale)
        (is_free-Free (is_char n) "scale" (ground (arith, c.no_key)))
        (c.no_equals, c.plain s.scale h.scale_plain) in
    let position =
      position_text-Free n c.range c.no_minus c.no_by c.no_equals c.no_side c.plain h.placed in
    (
      c.plain s.connector h.connector_plain,
      (
        c.plain s.mode h.mode_plain,
        (
          role-Free (is_char n) s.primary c.no_role,
          (position, (scale, rotate_parts-Free n c s.rotate h.rotate_plain)),
        ),
      ),
    )

parse_spec-spelled : (s : OutputSpec) → IsSpec s → parse_spec (spelled s) ≡ some s
unfolding parse_spec
parse_spec-spelled s h =
    ap spec_of (
      split_by-join (is_char b':') ":" s.connector (other_parts s) refl
        (parts_of-Free b':' colon s h))
    ∙ spec_of-parts s h

spelled-Free : (s : OutputSpec) → IsSpec s → Without b';' (spelled s)
spelled-Free s h = Free-join (is_char b';') ":" (parts_of s) refl (parts_of-Free b';' semicolon s h)

spelled-nonempty : (s : OutputSpec) → IsSpec s → is_empty (spelled s) ≡ false
spelled-nonempty s h = is_empty-append s.connector _ h.connector_named

all_spelled-Free :
    (specs : List OutputSpec) → All IsSpec specs → All (Without b';') (all_spelled specs)
all_spelled-Free [] h = tt
all_spelled-Free (s ∷ specs) (a, h) = (spelled-Free s a, all_spelled-Free specs h)

all_kept :
    (specs : List OutputSpec)
    → All IsSpec specs
    → filter (λ (t : String). not (is_empty t)) (all_spelled specs) ≡ all_spelled specs
all_kept [] h = refl
all_kept (s ∷ specs) (a, h) =
    rw (spelled-nonempty s a) (ap (λ ts. spelled s ∷ ts) (all_kept specs h))

parse_specs-spelled :
    (specs : List OutputSpec) → All IsSpec specs → parse_specs (all_spelled specs) ≡ some specs
unfolding parse_specs
parse_specs-spelled [] h = refl
parse_specs-spelled (s ∷ specs) (a, h) =
    rw (parse_spec-spelled s a, parse_specs-spelled specs h) refl

-- The text of a layout.
abbrev pub layout_text : OutputSpec → List OutputSpec → String
layout_text s specs = join ";" (all_spelled (s ∷ specs))

-- A layout of one output or more that is spelled in the grammar, each part between colons, each output
-- between semicolons, is parsed back as it was, where connectors and modes are not empty, no part has
-- a separator in it, and each position is two whole numbers or one of the sides and an anchor.
pub parse_profile-layout_text :
    (name : String) (s : OutputSpec) (specs : List OutputSpec)
    → All IsSpec (s ∷ specs)
    → parse_profile name (layout_text s specs) ≡ some (record { name = name; specs = s ∷ specs })
unfolding parse_profile
parse_profile-layout_text name s specs h =
    rw
      (
        split_by-join (is_char b';') ";" (spelled s) (all_spelled specs) refl
            (all_spelled-Free (s ∷ specs) h),
        all_kept (s ∷ specs) h,
        parse_specs-spelled (s ∷ specs) h,
      )
      refl
