-- ===== src/Relocate/Guard/Entries.antt =====
-- Facts about monitors that are numbered in order, and dicts over their numbers.
use xrandrw.Prelude.{
  ℕ, zero, suc, ◌+◌, ◌<◌, ◌≡◌, refl, ap, false, some, List, [], ◌∷◌, length, map, nat_eq, ◌==◌,
  arith, All, if◌then◌else◌, contains,
}
use mathlib.Core.Path.{subst}
use mathlib.Core.Option.{some-injective}
use xrandrw.Prelude.Int.{ℤ, pos, int_eq, int_beq_iff}
use xrandrw.Prelude.Dict.{Dict, lookup, insert, keys, DistinctKeys}
use xrandrw.Relocate.Guard.{MonitorState}
use xrandrw.Relocate.Guard.Dwm.{Numbered, IsShown, get_elem?}

-- The dict comprehension over the monitors.
abbrev pub entries {ℓ} : {V : Type ℓ} → (MonitorState → V) → List MonitorState → Dict ℤ V
entries f ms = map (λ (m : MonitorState). (m.num, f m)) ms

module _ {ℓ} {V : Type ℓ} where
  absent_below :
      (f : MonitorState → V) (a i : ℕ) (ms : List MonitorState)
      → Numbered i ms
      → a < i
      → contains (pos a) (keys (entries f ms)) ≡ false
  absent_below f a i [] h lt = refl
  absent_below f a i (m ∷ ms) (e, h) lt =
      rw e
        (ground (arith, absent_below f a (suc i) ms h (omega arith), int_beq_iff (pos i) (pos a)))

  pub DistinctKeys-entries :
      (f : MonitorState → V) (i : ℕ) (ms : List MonitorState)
      → Numbered i ms
      → DistinctKeys (entries f ms)
  DistinctKeys-entries f i [] h = tt
  DistinctKeys-entries f i (m ∷ ms) (e, h) =
      (rw e (absent_below f i (suc i) ms h (omega arith)), DistinctKeys-entries f (suc i) ms h)

  pub lookup-entries :
      (f : MonitorState → V) (i j q : ℕ) (ms : List MonitorState)
      → Numbered i ms
      → q ≡ j + i
      → {d : MonitorState} → get_elem? ms j ≡ some d
      → lookup (pos q) (entries f ms) ≡ some (f d)
  unfolding lookup
  lookup-entries f i j q [] h at p = cc
  lookup-entries f i zero q (m ∷ ms) (e, h) at p =
      ground (arith, at, some-injective m _ p, ap f (some-injective m _ p))
  lookup-entries f i (suc j) q (m ∷ ms) (e, h) at p =
      ground (arith, lookup-entries f (suc i) j q ms h (omega arith) p)

  -- An assignment to the entry of a monitor replaces its value alone.
  insert-entries_absent :
      (f : MonitorState → V) (k i : ℕ) (v : V) (ms : List MonitorState)
      → Numbered i ms
      → k < i
      → entries (λ m. if m.num == pos k then v else f m) ms ≡ entries f ms
  insert-entries_absent f k i v [] h lt = refl
  insert-entries_absent f k i v (m ∷ ms) (e, h) lt =
      ground (arith, insert-entries_absent f k (suc i) v ms h (omega arith))

  pub insert-entries :
      (f : MonitorState → V) (i k q : ℕ) (v : V) (ms : List MonitorState)
      → Numbered i ms
      → q ≡ k + i
      → k < length ms
      → insert (pos q) v (entries f ms) ≡ entries (λ m. if m.num == pos q then v else f m) ms
  unfolding insert
  insert-entries f i k q v [] h at lt = absurd (omega arith)
  insert-entries f i zero q v (m ∷ ms) (e, h) at lt =
      ground (arith, at, insert-entries_absent f q (suc i) v ms h (omega arith))
  insert-entries f i (suc k) q v (m ∷ ms) (e, h) at lt =
      ground (arith, insert-entries f (suc i) k q v ms h (omega arith) (omega arith))

-- A monitor of the list is told by its number.
pub only_at :
    (i j q : ℕ) (ms : List MonitorState)
    → Numbered i ms
    → q ≡ j + i
    → {d : MonitorState} → get_elem? ms j ≡ some d
    → All (λ m. m.num ≡ pos q → m ≡ d) ms
only_at i j q [] h at p = tt
only_at i zero q (m ∷ ms) (e, h) at {d} p =
    (λ _. some-injective m d p, others (suc i) ms h (omega arith))
  where
    others :
        (k : ℕ) (ms : List MonitorState)
        → Numbered k ms
        → q < k
        → All (λ m. m.num ≡ pos q → m ≡ d) ms
    others k [] h lt = tt
    others k (m ∷ ms) (e, h) lt = (λ w. absurd (ground arith), others (suc k) ms h (omega arith))
only_at i (suc j) q (m ∷ ms) (e, h) at p =
    (λ w. absurd (ground arith), only_at (suc i) j q ms h (omega arith) p)

pub below_length {ℓ} :
    {A : Type ℓ} (xs : List A) (i : ℕ) {a : A} → get_elem? xs i ≡ some a → i < length xs
below_length [] i h = cc
below_length (x ∷ xs) zero h = omega arith
below_length (x ∷ xs) (suc i) h = omega (arith, below_length xs i h)

pub num_at :
    (i j : ℕ) (ms : List MonitorState) {m : MonitorState}
    → Numbered i ms
    → get_elem? ms j ≡ some m
    → m.num ≡ pos (j + i)
num_at i j [] h p = cc
num_at i zero (m ∷ ms) {m = d} (e, h) p = ground (arith, some-injective m d p)
num_at i (suc j) (m ∷ ms) (e, h) p = ground (arith, num_at (suc i) j ms h p)

pub IsShown-at :
    (ms : List MonitorState) (j : ℕ) {m : MonitorState}
    → All IsShown ms
    → get_elem? ms j ≡ some m
    → IsShown m
IsShown-at [] j h p = cc
IsShown-at (m ∷ ms) zero {m = d} (s, h) p = subst IsShown (some-injective m d p) s
IsShown-at (m ∷ ms) (suc j) (s, h) p = IsShown-at ms j h p
