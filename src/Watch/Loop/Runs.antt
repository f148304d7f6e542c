-- ===== src/Watch/Loop/Runs.antt =====
-- What a whole run of the watch loop of watch.py does, over its wakeups.
use xrandrw.Prelude.{
  ℕ, ◌+◌, ◌≤◌, ◌<◌, String, Bool, true, false, ◌≡◌, refl, Option, none, some, List, [], ◌∷◌, arith,
  ◌==◌, string_eq, eq_iff, if◌then◌else◌, Bool-cases, inl, inr,
}
use xrandrw.Apply.{completed}
use xrandrw.Watch.Seam.{Effect, applied, hooked, Seams, State, M, resume, ◌>>=◌}
use xrandrw.Watch.Wakeup.{
  Ended, unread, untouched, crashed, incomplete, lost, alone, with_hook, apply_if_changed-Ended,
}
use xrandrw.Watch.Loop.{Wake, is_wakeup, Settings, round, loop}

abbrev pub is_apply : Effect → ℕ
is_apply (applied v) = 1
is_apply hooked = 0

abbrev pub applies : List Effect → ℕ
applies [] = 0
applies (e ∷ es) = is_apply e + applies es

abbrev pub is_completed : Effect → ℕ
is_completed (applied completed) = 1
is_completed _ = 0

abbrev pub completions : List Effect → ℕ
completions [] = 0
completions (e ∷ es) = is_completed e + completions es

-- The latest effect is an apply that has completed.
abbrev just_completed : List Effect → Bool
just_completed (applied completed ∷ es) = true
just_completed _ = false

-- Every call of the coordinator follows directly on an apply that has completed.
abbrev pub HooksFollow : List Effect → Type 0
HooksFollow [] = Unit
HooksFollow (applied v ∷ es) = HooksFollow es
HooksFollow (hooked ∷ es) = (just_completed es ≡ true) × HooksFollow es

abbrev pub wakeups : Bool → List Wake → ℕ
wakeups events_ok [] = 0
wakeups events_ok (wake ∷ wakes) =
    (if is_wakeup events_ok wake then 1 else 0) + wakeups events_ok wakes

-- A run of so many wakeups, from a hash and a trace to a result and a trace.
pub record IsRun (n : ℕ) (last : String) (before : List Effect) (r : Option String)
    (after : List Effect) : Type 0 where
  pub few : applies after ≤ applies before + n
  pub hooks : HooksFollow before → HooksFollow after
  pub kept : completions before ≤ completions after
  pub moved :
      (h : String) → r ≡ some h → (h == last) ≡ false → completions before < completions after

IsRun-none : (last : String) (before : List Effect) → IsRun 0 last before (some last) before
IsRun-none last before = record {
  few = omega arith;
  hooks = λ h. h;
  kept = omega arith;
  moved = λ h e other. ground (arith, eq_iff h last);
}

IsRun-more :
    (n m : ℕ) (last : String) (before : List Effect) (r : Option String) (after : List Effect)
    → IsRun n last before r after
    → IsRun (n + m) last before r after
IsRun-more n m last before r after a = record {
  few = omega (arith, a.few);
  hooks = a.hooks;
  kept = a.kept;
  moved = a.moved;
}

Ended-IsRun :
    {last : String} {before : List Effect} {r : Option String} {after : List Effect}
    → Ended last before r after
    → IsRun 1 last before r after
Ended-IsRun {last} {before} untouched =
    IsRun-more 0 1 last before (some last) before (IsRun-none last before)
Ended-IsRun unread = record {
  few = omega arith;
  hooks = λ h. h;
  kept = omega arith;
  moved = λ h e. ground arith;
}
Ended-IsRun crashed = record {
  few = omega arith;
  hooks = λ h. h;
  kept = omega arith;
  moved = λ h e. ground arith;
}
Ended-IsRun {last} incomplete = record {
  few = omega arith;
  hooks = λ h. h;
  kept = omega arith;
  moved = λ h e other. ground (arith, eq_iff h last);
}
Ended-IsRun lost = record {
  few = omega arith;
  hooks = λ h. h;
  kept = omega arith;
  moved = λ h e. ground arith;
}
Ended-IsRun (alone h') = record {
  few = omega arith;
  hooks = λ h. h;
  kept = omega arith;
  moved = λ h e other. omega arith;
}
Ended-IsRun (with_hook h') = record {
  few = omega arith;
  hooks = λ h. (refl, h);
  kept = omega arith;
  moved = λ h e other. omega arith;
}

IsRun-trans :
    (n m : ℕ) (last next : String) (before middle : List Effect) (r : Option String)
    (after : List Effect)
    → IsRun n last before (some next) middle
    → IsRun m next middle r after
    → IsRun (n + m) last before r after
IsRun-trans n m last next before middle r after a b = record {
  few = omega (arith, a.few, b.few);
  hooks = λ h. b.hooks (a.hooks h);
  kept = omega (arith, a.kept, b.kept);
  moved = λ h e other. elim (Bool-cases (next == last)) [
    | inl same ↦
        let later = b.moved h e (ground (arith, eq_iff next last, eq_iff h last, eq_iff h next)) in
        omega (arith, a.kept, later)
    | inr changed ↦ let now = a.moved next refl changed in omega (arith, b.kept, now)
  ];
}

module _ (S : Seams) (c : Settings) (events_ok : Bool) where
  round-IsRun :
      (wake : Wake) (last : String) (s : State S.World)
      → IsRun
          (if is_wakeup events_ok wake then 1 else 0)
          last
          s.trace
          (round S c events_ok wake last s).0
          (round S c events_ok wake last s).1.trace
  unfolding round
  round-IsRun wake last s = elim (Bool-cases (is_wakeup events_ok wake)) [
    | inl e ↦ rw e (Ended-IsRun (apply_if_changed-Ended S c.hold_ms c.suspect_ms last s))
    | inr e ↦ rw e (IsRun-none last s.trace)
  ]

  resume-IsRun :
      (n m : ℕ) (last : String) (before : List Effect) (f : String → M S.World String)
      → ((next : String) (u : State S.World) → IsRun m next u.trace (f next u).0 (f next u).1.trace)
      → (r : Option String) (u : State S.World) → IsRun n last before r u.trace
      → IsRun (n + m) last before (resume f r u).0 (resume f r u).1.trace
  resume-IsRun n m last before f runs none u a = IsRun-more n m last before none u.trace a
  resume-IsRun n m last before f runs (some next) u a =
      IsRun-trans n m last next before u.trace (f next u).0 (f next u).1.trace a (runs next u)

  -- A run of the loop makes one apply at most for each wakeup, and none in the other rounds; it calls
  -- the coordinator only right behind an apply that has completed; and where it ends with a hash
  -- other than the first, an apply has completed in it.
  pub loop-IsRun :
      (wakes : List Wake) (last : String) (s : State S.World)
      → IsRun
          (wakeups events_ok wakes)
          last
          s.trace
          (loop S c events_ok wakes last s).0
          (loop S c events_ok wakes last s).1.trace
  unfolding loop ◌>>=◌
  loop-IsRun [] last s = IsRun-none last s.trace
  loop-IsRun (wake ∷ wakes) last s =
      resume-IsRun (if is_wakeup events_ok wake then 1 else 0) (wakeups events_ok wakes) last
        s.trace (loop S c events_ok wakes) (λ next u. loop-IsRun wakes next u)
        (round S c events_ok wake last s).0 (round S c events_ok wake last s).1
        (round-IsRun wake last s)
