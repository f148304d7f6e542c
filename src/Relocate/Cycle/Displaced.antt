-- ===== src/Relocate/Cycle/Displaced.antt =====
-- Which records the map of displaced windows holds after a settle.
use xrandrw.Prelude.{
  ℕ, String, Bool, true, false, not, ◌&&◌, ◌≡◌, refl, ◌∙◌, Option, none, some, List, [], ◌∷◌, arith,
  if◌then◌else◌, contains, filter, eq_iff, string_eq, Bool-cases, Option-cases, ap, sym, inl, inr,
  ltb,
}
use xrandrw.Prelude.Int.{ℤ}
use xrandrw.Prelude.Dict.{
  Dict, lookup, insert, DistinctKeys, lookup-insert, insert-DistinctKeys, lookup-absent,
  lookup-cons, lookup-nil,
}
use xrandrw.Json.{Json, Key}
use xrandrw.Relocate.Plan.{WindowRecord}
use xrandrw.Relocate.Seam.{Seams, Identity, identity_eq, identity_beq_iff, State, monitors}
use xrandrw.Relocate.Restore.{restore_one}
use xrandrw.Relocate.Keeps.{IsClosed}
use xrandrw.Relocate.Keeps.Walk.{monitors-Keeps}
use xrandrw.Relocate.Keeps.Plan.{restore_one-Keeps}
use xrandrw.Relocate.Keeps.GiveBack.{restore_focus-Keeps}
use xrandrw.Relocate.Cycle.{on_output, Records, record_displaced, difference, give_back}

-- What an unplug adds: the snapshot's record where its output has gone, else what was there.
abbrev pub noted : List String → Option WindowRecord → Option WindowRecord → Option WindowRecord
noted removed none old = old
noted removed (some rec) old = if on_output removed rec then some rec else old

-- After an unplug the map holds, for each window, the snapshot's record if that stood on an output
-- that has gone, and what it held before in every other case.
pub lookup-record_displaced :
    (removed : List String) (snapshot displaced : Records) (k : Identity)
    → DistinctKeys snapshot
    → lookup k (record_displaced removed snapshot displaced)
      ≡ noted removed (lookup k snapshot) (lookup k displaced)
unfolding record_displaced
lookup-record_displaced removed [] displaced k u = rw lookup-nil
lookup-record_displaced removed ((j, rec) ∷ snapshot) displaced k (n, u) = ground (
  arith,
  lookup-record_displaced removed snapshot displaced k u,
  lookup-record_displaced removed snapshot (insert j rec displaced) k u,
  lookup-insert k j rec displaced,
  lookup-cons k j rec snapshot,
  lookup-absent j snapshot n,
  identity_beq_iff j k,
)

pub record_displaced-DistinctKeys :
    (removed : List String) (snapshot displaced : Records)
    → DistinctKeys displaced
    → DistinctKeys (record_displaced removed snapshot displaced)
unfolding record_displaced
record_displaced-DistinctKeys removed [] displaced u = u
record_displaced-DistinctKeys removed ((j, rec) ∷ snapshot) displaced u =
    elim (Bool-cases (on_output removed rec)) [
      | inl gone ↦
          rw gone (
            record_displaced-DistinctKeys removed snapshot _
              (insert-DistinctKeys j rec displaced u))
      | inr there ↦ rw there (record_displaced-DistinctKeys removed snapshot displaced u)
    ]

-- An output that has gone has not returned.
contains-filter :
    (a : List String) (p : String → Bool) (x : String)
    → contains x (filter p a) ≡ (contains x a && p x)
contains-filter [] p x = refl
contains-filter (y ∷ a) p x =
    ground (arith, contains-filter a p x, eq_iff y x, λ (h : y ≡ x). ap p h)

-- No connector is in both differences of two sets.
differences_disjoint :
    (a b : List String) (c : String)
    → contains c (difference a b) ≡ true
    → contains c (difference b a) ≡ false
differences_disjoint a b c h = ground (
  arith,
  contains-filter a (λ x. not (contains x b)) c,
  contains-filter b (λ x. not (contains x a)) c,
)

-- A test of an optional connector.
abbrev names : List String → Option String → Bool
names outputs none = false
names outputs (some c) = contains c outputs

names_disjoint :
    (a b : List String) (o : Option String)
    → names (difference a b) o ≡ true
    → names (difference b a) o ≡ false
names_disjoint a b none h = refl
names_disjoint a b (some c) h = differences_disjoint a b c h

pub on_output-names :
    (outputs : List String) (rec : WindowRecord) → on_output outputs rec ≡ names outputs rec.output
on_output-names outputs rec = elim (Option-cases rec.output) [
  | inl n ↦ ground arith
  | inr (c, e) ↦ ground arith
]

-- A window on an output that has gone is not on one that has returned.
pub removed-not_returned :
    (prev cur : List String) (rec : WindowRecord)
    → on_output (difference prev cur) rec ≡ true
    → on_output (difference cur prev) rec ≡ false
removed-not_returned prev cur rec h =
    on_output-names (difference cur prev) rec
    ∙ names_disjoint prev cur rec.output (sym (on_output-names (difference prev cur) rec) ∙ h)

module _ (S : Seams) where
  abbrev Holds : Records → State S.World → Type 0
  Holds d s = s.displaced ≡ d

  Holds-closed : (d : Records) → IsClosed (Holds d)
  Holds-closed d = record { looked = λ s w p. p; called = λ s w e p. p; stole = λ s w e n p. p }

  pub displaced-restore_one :
      (rec : WindowRecord) (ms : List Json) (conns : Dict String Key) (s : State S.World)
      → (restore_one S rec ms conns s).1.displaced ≡ s.displaced
  displaced-restore_one rec ms conns s =
      (restore_one-Keeps S (Holds s.displaced) (Holds-closed s.displaced) rec ms conns).at s refl

  pub displaced-give_back :
      (prev : Option (Option ℤ × ℤ)) (n : ℕ) (s : State S.World)
      → (give_back S prev n s).displaced ≡ s.displaced
  unfolding give_back
  displaced-give_back prev n s = elim (Bool-cases (ltb n s.focus_calls)) [
    | inl h ↦
        rw h ((restore_focus-Keeps S (Holds s.displaced) (Holds-closed s.displaced) prev).at s refl)
    | inr h ↦ rw h refl
  ]

  pub displaced-monitors : (s : State S.World) → (monitors S s).1.displaced ≡ s.displaced
  displaced-monitors s = (monitors-Keeps S (Holds s.displaced) (Holds-closed s.displaced)).at s refl
