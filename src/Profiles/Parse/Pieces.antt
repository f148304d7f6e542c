-- ===== src/Profiles/Parse/Pieces.antt =====
-- The parts of an output's spec (profiles.py), and what is read from them.
use Prim.Native.Char.{Char}
use Prim.Native.String.{◌++◌ as ◌++ₛ◌}
use mathlib.Core.Path.{subst}
use xrandrw.Prelude.{
  ℕ, String, Bool, true, false, ◌<◌, ◌≡◌, ◌⊎◌, refl, Option, none, some, List, [], ◌∷◌, ◌==◌,
  contains, all, string_eq, eq_iff, Bool-cases, inl, inr, arith,
}
use xrandrw.Prelude.Int.{ℤ}
use xrandrw.Prelude.Text.{is_empty, is_char, digit, show_int}
use xrandrw.Prelude.Text.Cuts.{
  Free, is_free, is_free-Free, Without, Free-append, partition-append, partition-Without,
}
use xrandrw.Prelude.Text.Numbers.{show_int-Free, code-digit, parse_int-show_int}
use xrandrw.Profiles.{OutputSpec}
use xrandrw.Profiles.Parse.{sides, parse_position, add_transforms, spec_of}

-- `x` and `y` around a character
abbrev pub around : Char → String → String → String
around c x y = x ++ₛ String.◌∷◌ c y

abbrev pub position_text : Option (String × String) → Option (String × String) → String
position_text (some (x, y)) rel = around "x" x y
position_text none (some (side, anchor)) = around "=" side anchor
position_text none none = ""

abbrev pub rotate_parts : Option String → List String
rotate_parts none = []
rotate_parts (some r) = around "=" "rotate" r ∷ []

abbrev pub role_of : Bool → String
role_of true = "primary"
role_of false = "extend"

abbrev pub other_parts : OutputSpec → List String
other_parts s =
    s.mode
    ∷ role_of s.primary
    ∷ position_text s.pos s.rel
    ∷ around "=" "scale" s.scale
    ∷ rotate_parts s.rotate

abbrev pub parts_of : OutputSpec → List String
parts_of s = s.connector ∷ other_parts s

-- Neither separator occurs.
abbrev pub IsPlain : String → Type 0
IsPlain s = Without b':' s × Without b';' s

-- Two whole numbers, or a side and an anchor.
pub data IsPosition : Option (String × String) → Option (String × String) → Type 0 where
  numbers : (a b : ℤ) → IsPosition (some (show_int a, show_int b)) none
  beside :
      (side anchor : String)
      → contains side sides ≡ true
      → is_empty anchor ≡ false
      → IsPlain anchor
      → IsPosition none (some (side, anchor))

abbrev pub IsRotation : Option String → Type 0
IsRotation none = Unit
IsRotation (some r) = IsPlain r

pub record IsSpec (s : OutputSpec) : Type 0 where
  pub connector_named : is_empty s.connector ≡ false
  pub connector_plain : IsPlain s.connector
  pub mode_named : is_empty s.mode ≡ false
  pub mode_plain : IsPlain s.mode
  pub placed : IsPosition s.pos s.rel
  pub scale_plain : IsPlain s.scale
  pub rotate_plain : IsRotation s.rotate

-- No digit is the character.
is_char-digit : (n d : ℕ) → (n < 48) ⊎ (57 < n) → d < 10 → is_char n (digit d) ≡ false
is_char-digit n d h less = ground (arith, code-digit d less)

number-Without :
    (n : ℕ) (z : ℤ) → (n < 48) ⊎ (57 < n) → is_char n "-" ≡ false → Without n (show_int z)
number-Without n z h m = show_int-Free (is_char n) z (λ d. is_char-digit n d h) m

-- What none of the sides has, no side has.
sides-Free :
    (p : Char → Bool) (side : String)
    → all (is_free p) sides ≡ true
    → contains side sides ≡ true
    → Free p side
sides-Free p side h e = in_list sides h e
  where
    in_list : (l : List String) → all (is_free p) l ≡ true → contains side l ≡ true → Free p side
    in_list [] h e = ground arith
    in_list (x ∷ l) h e = elim (Bool-cases (x == side)) [
      | inl same ↦ subst (Free p) ((eq_iff x side).0 same) (is_free-Free p x (ground arith))
      | inr other ↦ in_list l (ground arith) (ground arith)
    ]

parse_position-text :
    {pos rel : Option (String × String)}
    → IsPosition pos rel
    → parse_position (position_text pos rel) ≡ some (pos, rel)
unfolding parse_position
parse_position-text (numbers a b) =
    let plain = number-Without b'=' a (inr (omega arith)) refl in
    let behind = number-Without b'=' b (inr (omega arith)) refl in
    rw
      (
        partition-Without b'=' (around "x" (show_int a) (show_int b)) (
            Free-append (is_char b'=') (show_int a) (String.◌∷◌ "x" (show_int b)) plain
              (refl, behind)),
        partition-append b'x' (show_int a) "x" (show_int b) refl
            (number-Without b'x' a (inr (omega arith)) refl),
        parse_int-show_int a,
        parse_int-show_int b,
      )
      refl
parse_position-text (beside side anchor known named plain) =
    rw
      (
        partition-append b'=' side "=" anchor refl (sides-Free (is_char b'=') side refl known),
        known,
        named,
      )
      refl

rotate_added :
    (s : OutputSpec) (r : Option String)
    → add_transforms (record s { rotate = none }) (rotate_parts r) ≡ some (record s { rotate = r })
unfolding add_transforms
rotate_added s none = refl
rotate_added s (some r) =
    rw (partition-append b'=' "rotate" "=" r refl (is_free-Free (is_char b'=') "rotate" refl)) refl

-- The transforms give the spec its scale and its rotation.
transforms_added :
    (s : OutputSpec)
    → add_transforms
        (record s { scale = "1x1"; rotate = none })
        (around "=" "scale" s.scale ∷ rotate_parts s.rotate)
      ≡ some s
unfolding add_transforms
transforms_added s =
    rw (partition-append b'=' "scale" "=" s.scale refl (is_free-Free (is_char b'=') "scale" refl))
      (rotate_added s s.rotate)

role_read : (b : Bool) → (role_of b == "primary") ≡ b
role_read true = refl
role_read false = refl

pub spec_of-parts : (s : OutputSpec) → IsSpec s → spec_of (parts_of s) ≡ some s
spec_of-parts s h =
    rw (h.connector_named, h.mode_named, parse_position-text h.placed, role_read s.primary)
      (transforms_added s)

pub position_text-Free :
    (n : ℕ) {pos rel : Option (String × String)}
    → (n < 48) ⊎ (57 < n)
    → is_char n "-" ≡ false
    → is_char n "x" ≡ false
    → is_char n "=" ≡ false
    → all (is_free (is_char n)) sides ≡ true
    → ((s : String) → IsPlain s → Without n s)
    → IsPosition pos rel
    → Without n (position_text pos rel)
position_text-Free n range m x e known plain (numbers a b) =
    Free-append (is_char n) (show_int a) (String.◌∷◌ "x" (show_int b)) (number-Without n a range m)
      (x, number-Without n b range m)
position_text-Free n range m x e known plain (beside side anchor c named p) =
    Free-append (is_char n) side (String.◌∷◌ "=" anchor) (sides-Free (is_char n) side known c)
      (e, plain anchor p)

pub role-Free :
    (p : Char → Bool) (b : Bool)
    → all (is_free p) ("primary" ∷ "extend" ∷ []) ≡ true
    → Free p (role_of b)
role-Free p true h = is_free-Free p "primary" (ground arith)
role-Free p false h = is_free-Free p "extend" (ground arith)
