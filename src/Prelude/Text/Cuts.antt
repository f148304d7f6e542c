-- ===== src/Prelude/Text/Cuts.antt =====
-- Texts that are cut where they were joined.
use Prim.Native.Char.{Char}
use Prim.Native.String.{String, ◌++◌ as ◌++ₛ◌}
use Prim.Native.Nat.{ℕ}
use text.Mathlib.TextLemmas.{nil-append, cons-append}
use mathlib.Core.Path.{◌≡◌, refl, ap}
use mathlib.Core.Bool.{Bool, true, false, not, ◌&&◌}
use mathlib.Core.Option.{none, some}
use mathlib.Core.List.{List, [], ◌∷◌}
use native.Mathlib.Omega.{arith}
use xrandrw.Prelude.Lists.{All}
use xrandrw.Prelude.Text.{is_empty, is_char, split_by, partition, rpartition}

-- No character of the text passes the test.
abbrev pub Free : (Char → Bool) → String → Type 0
Free p String.[] = Unit
Free p (String.◌∷◌ c s) = (p c ≡ false) × Free p s

abbrev pub is_free : (Char → Bool) → String → Bool
is_free p String.[] = true
is_free p (String.◌∷◌ c s) = not (p c) && is_free p s

pub is_free-Free : (p : Char → Bool) (s : String) → is_free p s ≡ true → Free p s
is_free-Free p String.[] h = tt
is_free-Free p (String.◌∷◌ c s) h = (ground arith, is_free-Free p s (ground arith))

-- The character does not occur in the text.
abbrev pub Without : ℕ → String → Type 0
Without n = Free (is_char n)

pub Free-append : (p : Char → Bool) (s t : String) → Free p s → Free p t → Free p (s ++ₛ t)
Free-append p String.[] t h k = rw (nil-append t) k
Free-append p (String.◌∷◌ c s) t (e, h) k = rw (cons-append c s t) (e, Free-append p s t h k)

rpartition-Without : (n : ℕ) (s : String) → Without n s → rpartition n s ≡ none
unfolding rpartition
rpartition-Without n String.[] h = refl
rpartition-Without n (String.◌∷◌ c s) (e, h) = rw (rpartition-Without n s h) (rw e refl)

pub rpartition-append :
    (n : ℕ) (front : String) (c : Char) (back : String)
    → is_char n c ≡ true
    → Without n back
    → rpartition n (front ++ₛ String.◌∷◌ c back) ≡ some (front, back)
unfolding rpartition
rpartition-append n String.[] c back e h =
    rw (nil-append (String.◌∷◌ c back)) (rw (rpartition-Without n back h) (rw e refl))
rpartition-append n (String.◌∷◌ d front) c back e h =
    rw (cons-append d front (String.◌∷◌ c back))
      (rw (rpartition-append n front c back e h, rpartition) refl)

pub partition-Without : (n : ℕ) (s : String) → Without n s → partition n s ≡ none
unfolding partition
partition-Without n String.[] h = refl
partition-Without n (String.◌∷◌ c s) (e, h) = rw (partition-Without n s h) (rw e refl)

pub partition-append :
    (n : ℕ) (front : String) (c : Char) (back : String)
    → is_char n c ≡ true
    → Without n front
    → partition n (front ++ₛ String.◌∷◌ c back) ≡ some (front, back)
unfolding partition
partition-append n String.[] c back e h = rw (nil-append (String.◌∷◌ c back)) (rw e refl)
partition-append n (String.◌∷◌ d front) c back e (f, h) =
    rw (cons-append d front (String.◌∷◌ c back))
      (rw (f, partition-append n front c back e h, partition) refl)

pub split_by-Free : (p : Char → Bool) (w : String) → Free p w → split_by p w ≡ w ∷ []
unfolding split_by
split_by-Free p String.[] h = refl
split_by-Free p (String.◌∷◌ c w) (e, h) = rw e (rw (split_by-Free p w h) refl)

pub split_by-append :
    (p : Char → Bool) (w : String) (c : Char) (s : String)
    → p c ≡ true
    → Free p w
    → split_by p (w ++ₛ String.◌∷◌ c s) ≡ w ∷ split_by p s
unfolding split_by
split_by-append p String.[] c s e h = rw (nil-append (String.◌∷◌ c s)) (rw e refl)
split_by-append p (String.◌∷◌ d w) c s e (f, h) =
    rw (cons-append d w (String.◌∷◌ c s)) (rw f (rw (split_by-append p w c s e h) refl))

-- `c.join(ws)`
abbrev pub join : Char → List String → String
join c [] = String.[]
join c (w ∷ []) = w
join c (w ∷ v ∷ ws) = w ++ₛ String.◌∷◌ c (join c (v ∷ ws))

-- A text that was joined is split into its pieces, where these are some and free of the separator.
pub split_by-join :
    (p : Char → Bool) (c : Char) (w : String) (ws : List String)
    → p c ≡ true
    → All (Free p) (w ∷ ws)
    → split_by p (join c (w ∷ ws)) ≡ w ∷ ws
split_by-join p c w [] e (h, _) = split_by-Free p w h
split_by-join p c w (v ∷ ws) e (h, k) =
    rw (split_by-append p w c (join c (v ∷ ws)) e h)
      (ap (λ (vs : List String). w ∷ vs) (split_by-join p c v ws e k))

pub Free-join :
    (p : Char → Bool) (c : Char) (ws : List String)
    → p c ≡ false
    → All (Free p) ws
    → Free p (join c ws)
Free-join p c [] e h = tt
Free-join p c (w ∷ []) e (h, _) = h
Free-join p c (w ∷ v ∷ ws) e (h, k) =
    Free-append p w (String.◌∷◌ c (join c (v ∷ ws))) h (e, Free-join p c (v ∷ ws) e k)

pub is_empty-append : (s t : String) → is_empty s ≡ false → is_empty (s ++ₛ t) ≡ false
is_empty-append String.[] t h = ground arith
is_empty-append (String.◌∷◌ c s) t h = rw (cons-append c s t) refl
