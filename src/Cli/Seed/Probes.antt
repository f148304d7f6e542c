-- ===== src/Cli/Seed/Probes.antt =====
-- What the boot seed of cli.py sends to dwm, and the coordinator that it leaves.
use xrandrw.Prelude.{
  ℕ, zero, suc, max, ◌+◌, ◌≤◌, String, Bool, true, false, ◌≡◌, refl, ◌∙◌, sym, ap, Option, none,
  some, List, [], ◌++◌, map, ◌⊎◌, All, length, arith, Bool-cases, inl, inr, if◌then◌else◌,
}
use mathlib.Core.Path.{subst}
use xrandrw.Json.{Result, ok, unavailable, raised}
use xrandrw.Outputs.{Outputs}
use xrandrw.Ipc.{get_monitors, validate_monitors}
use xrandrw.Relocate.Seam.{
  Look, event_of, Seams, State, Event, sent, available, monitors, request, lift, pure, or_exception,
  ◌>>=◌,
}
use xrandrw.Relocate.Cycle.{on_settled, settle, refresh_snapshot, lit_names}
use xrandrw.Cli.Seed.{new_coordinator, is_up, wait_for_endpoint, seeded_coordinator}

-- A request that only asks for the monitors.
abbrev pub IsProbe : Event → Type 0
IsProbe (sent get_monitors r) = Unit
IsProbe _ = ⊥

module _ {W A : Type 0} where
  -- A continuation that ends at once leaves the state that it finds.
  lift-state :
      {B : Type 0} (r : Result A × State W) (f : A → Result B) (s : State W)
      → (((λ (_ : State W). r) >>= λ a. lift (f a)) s).1 ≡ r.1
  unfolding ◌>>=◌ lift
  lift-state (ok a, s') f s = refl
  lift-state (unavailable, s') f s = refl
  lift-state (raised, s') f s = refl

  or_false-state :
      (r : Result A × State W) (s : State W)
      → (or_exception ((λ (_ : State W). r) >>= λ _. pure true) (pure false) s).1 ≡ r.1
  unfolding ◌>>=◌ or_exception pure
  or_false-state (ok a, s') s = refl
  or_false-state (unavailable, s') s = refl
  or_false-state (raised, s') s = refl

module _ (S : Seams) where
  -- A probe adds one request, whatever the answer, and leaves the coordinator.
  pub available-state : (s : State S.World) → (available S s).1 ≡ (request S get_monitors s).1
  unfolding available monitors ◌>>=◌
  available-state s =
      or_false-state (monitors S s) s ∙ lift-state (request S get_monitors s) validate_monitors s

  -- What is left of a coordinator that has only been built and has only asked.
  abbrev pub Quiet : ℕ → State S.World → Type 0
  Quiet n s = All IsProbe s.trace × (length s.trace ≤ n) × (s.displaced ≡ []) × (s.focus_calls ≡ 0)

  available-Quiet : (n : ℕ) (s : State S.World) → Quiet n s → Quiet (suc n) (available S s).1
  unfolding request
  available-Quiet n s (a, le, d, f) =
      subst (Quiet (suc n)) (sym (available-state s)) ((tt, a), omega (arith, le), d, f)

  prev_present-available : (s : State S.World) → (available S s).1.prev_present ≡ s.prev_present
  unfolding request
  prev_present-available s = ap (λ (t : State S.World). t.prev_present) (available-state s)

  -- No request of a capture, or those of one.
  abbrev pub FromCapture : List Look → Type 0
  FromCapture looks = (looks ≡ []) ⊎ ((w : S.World) × (looks ≡ (S.capture w).0.looks))

  -- What a seed leaves: probes, the requests of one capture at most behind them, and a coordinator that
  -- has displaced nothing and has stolen no focus.
  abbrev pub IsSeeded : ℕ → State S.World → Type 0
  IsSeeded n s =
      (looks : List Look) × (probes : List Event) × (s.trace ≡ map event_of looks ++ probes)
      × FromCapture looks
      × All IsProbe probes
      × (length probes ≤ n)
      × (s.displaced ≡ [])
      × (s.focus_calls ≡ 0)

  IsSeeded-Quiet : (n : ℕ) (s : State S.World) → Quiet n s → IsSeeded n s
  IsSeeded-Quiet n s (a, le, d, f) = ([], s.trace, refl, inl refl, a, le, d, f)

  refresh_snapshot-IsSeeded :
      (n : ℕ) (s : State S.World) → Quiet n s → IsSeeded n (refresh_snapshot S s)
  unfolding refresh_snapshot
  refresh_snapshot-IsSeeded n s (a, le, d, f) =
      ((S.capture s.world).0.looks, s.trace, refl, inr (s.world, refl), a, le, d, f)

abbrev pub Run : Type 0 → Type 0
Run W = Result (Unit {0}) × State W

module _ {W : Type 0} where
  abbrev pub gated : Result Bool → Run W → State W → Run W
  gated up run s = elim up [
    | ok b ↦ if b then run else (ok tt, s)
    | unavailable ↦ (ok tt, s)
    | raised ↦ (ok tt, s)
  ]

  abbrev pub behind_read : Option Outputs → (Outputs → Run W) → State W → Run W
  behind_read outs f s = elim outs [ none ↦ (ok tt, s) | some o ↦ f o ]

-- A property of the state behind the gate, and behind the read.
module _ {W : Type 0} (P : State W → Type 0) where
  gated-keeps :
      (up : Result Bool) (run : Run W) (s : State W) → P s → P run.1 → P (gated up run s).1
  gated-keeps (ok true) run s h k = k
  gated-keeps (ok false) run s h k = h
  gated-keeps unavailable run s h k = h
  gated-keeps raised run s h k = h

  behind_read-keeps :
      (outs : Option Outputs) (f : Outputs → Run W) (s : State W)
      → P s
      → ((o : Outputs) → P (f o).1)
      → P (behind_read outs f s).1
  behind_read-keeps none f s h k = h
  behind_read-keeps (some o) f s h k = k o

module _ (S : Seams) (delay : S.World → S.World) where
  -- Each round adds one request at most.
  wait-Quiet :
      (n m : ℕ) (s : State S.World)
      → Quiet S m s
      → s.prev_present ≡ none
      → let s' = wait_for_endpoint S delay n s in Quiet S (n + m) s' × (s'.prev_present ≡ none)
  unfolding wait_for_endpoint
  wait-Quiet zero m s q e = ((q.0, omega (arith, q.1), q.2, q.3), e)
  wait-Quiet (suc n) m s q e =
      let asked = available S s in
      let probed = available-Quiet S m s q in
      let same = prev_present-available S s ∙ e in
      let (stopping, w) = S.is_stopping asked.1.world in
      let (a, le, d, f) = probed in
      let rest = wait-Quiet n (suc m) (record asked.1 { world = delay w }) probed same in
      elim (Bool-cases (is_up asked.0)) [
        | inl up ↦ rw up ((a, omega (arith, le), d, f), same)
        | inr down ↦ rw down (elim (Bool-cases stopping) [
          | inl stop ↦ rw stop ((a, omega (arith, le), d, f), same)
          | inr on ↦ rw on ((rest.0.0, omega (arith, rest.0.1), rest.0.2, rest.0.3), rest.1)
        ])
      ]

  settle-IsSeeded :
      (n : ℕ) (prev : Option (List String)) (outs : Outputs) (s : State S.World)
      → Quiet S n s
      → prev ≡ none
      → IsSeeded S n (settle S prev outs s).1
  unfolding settle
  settle-IsSeeded n prev outs s q e = rw e (
      refresh_snapshot-IsSeeded S n
        (record s { coordinator = record s.coordinator { prev_present = some (lit_names outs) } })
        q)

  on_settled-IsSeeded :
      (n : ℕ) (s : State S.World)
      → Quiet S n s
      → s.prev_present ≡ none
      → IsSeeded S (suc n) (on_settled S true s).1
  unfolding on_settled
  on_settled-IsSeeded n s q e =
      let probed = available-Quiet S n s q in
      let asked : State S.World = (available S s).1 in
      let (outs, w) = S.read asked.world in
      let read : State S.World = record asked { world = w } in
      let later : Outputs → Run S.World = λ o. settle S s.prev_present o read in
      let started = IsSeeded-Quiet S (suc n) asked probed in
      gated-keeps (IsSeeded S (suc n)) (available S s).0 (behind_read outs later read) asked started
        (behind_read-keeps (IsSeeded S (suc n)) outs later read
          (IsSeeded-Quiet S (suc n) read probed)
          (λ o. settle-IsSeeded (suc n) s.prev_present o read probed e))

  -- The boot seed probes with requests for the monitors, at most one for each retry and one for the
  -- settle, where a wait without retries counts as one; behind the probes it sends the requests of one
  -- capture at most, which ask for monitors and clients, and nothing else; and it leaves no displaced
  -- window and no focus steal. Where window management is off it sends nothing and leaves the world
  -- alone.
  pub seeded_coordinator-OnlyProbes :
      (enabled : Bool) (retries : ℕ) (w : S.World)
      → let s = seeded_coordinator S delay enabled retries w in
        IsSeeded S (max 1 retries + 1) s × (enabled ≡ false → (s.trace ≡ []) × (s.world ≡ w))
  unfolding seeded_coordinator on_settled
  seeded_coordinator-OnlyProbes false retries w =
      (([], [], refl, inl refl, tt, omega arith, refl, refl), λ _. (refl, refl))
  seeded_coordinator-OnlyProbes true retries w =
      let s : State S.World = record { coordinator = new_coordinator; world = w; trace = [] } in
      let (q, e) = wait-Quiet (max 1 retries) 0 s (tt, omega arith, refl, refl) refl in
      let (looks, probes, t, c, a, le, d, f) =
        on_settled-IsSeeded (max 1 retries + 0) (wait_for_endpoint S delay (max 1 retries) s) q e in
      ((looks, probes, t, c, a, omega (arith, le), d, f), λ h. ground arith)
