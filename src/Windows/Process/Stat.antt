-- ===== src/Windows/Process/Stat.antt =====
-- Field 22 of a line of /proc/<pid>/stat (windows.py, `parse_starttime_from_stat`).
use Prim.Native.String.{◌++◌ as ◌++ₛ◌}
use text.Mathlib.TextLemmas.{append-nil as append-nilₛ}
use xrandrw.Prelude.{String, false, ◌≡◌, refl, ap, some, List, [], ◌∷◌, All}
use xrandrw.Prelude.Int.{ℤ}
use xrandrw.Prelude.Text.{is_empty, is_space, is_char, split_by, words, show_int}
use xrandrw.Prelude.Text.Cuts.{
  Without, Free-append, rpartition-append, split_by-Free, split_by-append,
}
use xrandrw.Prelude.Text.Numbers.{Solid, parse_int-show_int}
use xrandrw.Windows.Process.{get_elem?, parse_starttime_from_stat}

-- A field has characters, none of them white space or a closing parenthesis.
pub record IsField (s : String) : Type 0 where
  pub nonempty : is_empty s ≡ false
  pub solid : Solid s
  pub unclosed : Without b')' s

-- Each field behind a space.
abbrev pub spaced : List String → String
spaced [] = String.[]
spaced (f ∷ fs) = String.◌∷◌ " " (f ++ₛ spaced fs)

Without-spaced : (fs : List String) → All IsField fs → Without b')' (spaced fs)
Without-spaced [] h = tt
Without-spaced (f ∷ fs) (e, h) =
    (refl, Free-append (is_char b')') f (spaced fs) e.unclosed (Without-spaced fs h))

words-field :
    (f : String) (fs : List String) → IsField f → All IsField fs → words (f ++ₛ spaced fs) ≡ f ∷ fs
words-field f [] e h =
    rw (append-nilₛ f) (rw (split_by-Free is_space f e.solid) (rw e.nonempty refl))
words-field f (g ∷ fs) e (e', h) =
    rw (split_by-append is_space f " " (g ++ₛ spaced fs) refl e.solid)
      (rw e.nonempty (ap (λ ws. f ∷ ws) (words-field g fs e' h)))

words-spaced : (fs : List String) → All IsField fs → words (spaced fs) ≡ fs
unfolding split_by
words-spaced [] h = refl
words-spaced (f ∷ fs) (e, h) = words-field f fs e h

-- Behind the last closing parenthesis of a line stand the state and the other fields; of these the
-- one at place 19 is the start time, whatever stands before, spaces and parentheses included.
pub parse_starttime_from_stat-spaced :
    (front : String) (fields : List String) (starttime : ℤ)
    → All IsField fields
    → get_elem? fields 19 ≡ some (show_int starttime)
    → parse_starttime_from_stat (front ++ₛ String.◌∷◌ ")" (spaced fields)) ≡ some starttime
unfolding parse_starttime_from_stat
parse_starttime_from_stat-spaced front fields starttime h e =
    rw (rpartition-append b')' front ")" (spaced fields) refl (Without-spaced fields h))
      (rw (words-spaced fields h) (rw e (parse_int-show_int starttime)))
