-- ===== src/Watch/Bounds.antt =====
-- The bounds of watch.py: the debounce, the re-applies for a dark head, and the rounds of the hold.
use xrandrw.Prelude.{
  ℕ, zero, suc, ◌+◌, ◌-◌, ◌≤◌, String, Bool, true, false, ◌≡◌, refl, ◌∙◌, ap, Option, none, some,
  List, [], ◌∷◌, ◌++◌, arith, ◌==◌, string_eq, ltb, leb, min, nat_beq, if◌then◌else◌, Bool-cases,
  inl, inr, All, filter-All, length, filter,
}
use xrandrw.Watch.Seam.{Churn, Seams, State, M, pure, ◌>>=◌, topology_hash, resume}
use xrandrw.Watch.{look_again, hold_round, hold, absorb, debounce_ms_for_churn}

-- A debounce lasts between 150 and 1150 milliseconds, and keeps the backoff below 1000, where it has
-- been so; and the changes that it goes on counting are those within the window.
pub debounce_ms_for_churn_bounds :
    (now : ℕ) (churn : Churn)
    → churn.backoff ≤ 1000
    → let (ms, next) = debounce_ms_for_churn now churn in
      (150 ≤ ms)
      × (ms ≤ 1150)
      × (next.backoff ≤ 1000)
      × All (λ t. leb now (t + churn.window) ≡ true) next.times
unfolding debounce_ms_for_churn
debounce_ms_for_churn_bounds now churn h =
    let times = filter (λ t. leb now (t + churn.window)) (churn.times ++ now ∷ []) in
    let kept = filter-All (λ t. leb now (t + churn.window)) (churn.times ++ now ∷ []) in
    elim (Bool-cases (ltb churn.threshold (length times))) [
      | inl e ↦ rw e (omega (arith, h), omega (arith, h), omega (arith, h), kept)
      | inr e ↦ rw e (omega (arith, h), omega (arith, h), omega (arith, h), kept)
    ]

module _ (S : Seams) where
  -- The state after a number of settles that leave a connected head dark.
  abbrev pub after_dark : String → String → String → List String → ℕ → State S.World → State S.World
  after_dark last_hash settled head more zero s = s
  after_dark last_hash settled head more (suc n) s =
      after_dark last_hash settled head more n (absorb S last_hash settled (head ∷ more) s).1

  counted : ℕ → State S.World → State S.World
  counted n s = record s { churn = record s.churn { unhealed = n } }

  absorb-again :
      (last_hash settled head : String) (more : List String) (s : State S.World)
      → leb (s.churn.unhealed + 1) 3 ≡ true
      → absorb S last_hash settled (head ∷ more) s
        ≡ (some last_hash, counted (s.churn.unhealed + 1) s)
  unfolding absorb ◌>>=◌ counted
  absorb-again last_hash settled head more s h = rw h refl

  absorb-giveup :
      (last_hash settled head : String) (more : List String) (s : State S.World)
      → leb (s.churn.unhealed + 1) 3 ≡ false
      → absorb S last_hash settled (head ∷ more) s ≡ (some settled, counted 0 s)
  unfolding absorb ◌>>=◌ counted
  absorb-giveup last_hash settled head more s h = rw h refl

  absorb_from :
      (last_hash settled head : String) (more : List String) (n k : ℕ) (s : State S.World)
      → s.churn.unhealed ≡ k
      → n + k ≤ 3
      → (absorb S last_hash settled (head ∷ more) (after_dark last_hash settled head more n s)).0
        ≡ some (if nat_beq (n + k) 3 then settled else last_hash)
  unfolding counted
  absorb_from last_hash settled head more zero k s e h =
      elim (Bool-cases (leb (s.churn.unhealed + 1) 3)) [
        | inl low ↦ ap (λ r. r.0) (absorb-again last_hash settled head more s low) ∙ ground arith
        | inr high ↦ ap (λ r. r.0) (absorb-giveup last_hash settled head more s high) ∙ ground arith
      ]
  absorb_from last_hash settled head more (suc n) k s e h =
      let low = absorb-again last_hash settled head more s (ground arith) in
      ap
        (λ t.
          (absorb S last_hash settled (head ∷ more) (after_dark last_hash settled head more n t)).0)
        (ap (λ r. r.1) low)
      ∙ absorb_from last_hash settled head more n (k + 1) (counted (s.churn.unhealed + 1) s)
          (ground arith) (omega (arith, h))
      ∙ ground arith

  -- Three settles in a row with a dark head keep the old hash, and the fourth absorbs the hash that it
  -- finds; a run that has begun counts.
  pub absorb-bounded :
      (last_hash settled head : String) (more : List String) (n : ℕ) (s : State S.World)
      → n + s.churn.unhealed ≤ 3
      → (absorb S last_hash settled (head ∷ more) (after_dark last_hash settled head more n s)).0
        ≡ some (if nat_beq (n + s.churn.unhealed) 3 then settled else last_hash)
  absorb-bounded last_hash settled head more n s h =
      absorb_from last_hash settled head more n s.churn.unhealed s refl h

-- The laws of the clock: it does not go back, it shows its time, and a wait that is not broken off lasts.
pub record IsClock (S : Seams) : Type 0 where
  pub clock : S.World → ℕ
  pub shown : (w : S.World) → (S.monotonic w).0 ≡ clock w
  pub after_monotonic : (w : S.World) → clock w ≤ clock (S.monotonic w).1
  pub after_read : (w : S.World) → clock w ≤ clock (S.read w).1
  pub after_wait :
      (ms : ℕ) (w : S.World)
      → (if (S.wait ms w).0 then clock w else clock w + ms) ≤ clock (S.wait ms w).1

module _ {W A : Type 0} where
  resume-agree :
      (r : Option A) (s : State W) (f g : A → M W Bool)
      → ((a : A) → (f a s).0 ≡ (g a s).0)
      → (resume f r s).0 ≡ (resume g r s).0
  resume-agree none s f g h = refl
  resume-agree (some a) s f g h = h a

module _ {W : Type 0} where
  if-agree :
      (b : Bool) (m n : M W Bool) (s : State W)
      → (m s).0 ≡ (n s).0
      → ((if b then pure true else m) s).0 ≡ ((if b then pure true else n) s).0
  if-agree true m n s h = refl
  if-agree false m n s h = h

waited :
    (stopping : Bool) (ms t before after : ℕ)
    → t + 1 ≤ before + ms
    → (if stopping then before else before + ms) ≤ after
    → (if stopping then 0 else t + 1) ≤ after
waited true ms t before after h b = omega arith
waited false ms t before after h b = omega (arith, h, b)

module _ (S : Seams) (C : IsClock S) where
  -- Two ways to go on that give the same result from the deadline's last round on.
  abbrev Agree : M S.World Bool → M S.World Bool → ℕ → Type 0
  Agree m n t = (s : State S.World) → t ≤ C.clock s.world → (m s).0 ≡ (n s).0

  look_again-Agree :
      (m n : M S.World Bool) (last_hash : String) (stopping : Bool) (t : ℕ) (s : State S.World)
      → Agree m n t
      → (if stopping then 0 else t) ≤ C.clock s.world
      → (look_again S m last_hash stopping s).0 ≡ (look_again S n last_hash stopping s).0
  unfolding look_again ◌>>=◌ topology_hash
  look_again-Agree m n last_hash true t s h b = refl
  look_again-Agree m n last_hash false t s h b =
      resume-agree (topology_hash S s).0 (topology_hash S s).1 _ _ (λ g.
        if-agree (g == last_hash) m n (topology_hash S s).1
          (h (topology_hash S s).1 (omega (arith, b, C.after_read s.world))))

  hold_round-Agree :
      (m n : M S.World Bool) (deadline now t : ℕ) (last_hash : String) (s : State S.World)
      → Agree m n (t + 1)
      → t ≤ C.clock s.world
      → now ≡ t
      → (hold_round S m deadline last_hash now s).0 ≡ (hold_round S n deadline last_hash now s).0
  unfolding hold_round ◌>>=◌
  hold_round-Agree m n deadline now t last_hash s h b low = elim (Bool-cases (leb deadline now)) [
    | inl e ↦ rw e refl
    | inr e ↦ rw e (
        let w = (S.monotonic s.world).1 in
        let ms = min 150 (deadline - (S.monotonic s.world).0) in
        look_again-Agree m n last_hash (S.wait ms w).0 (t + 1)
          (record s { world = (S.wait ms w).1 }) h
          (waited (S.wait ms w).0 ms t (C.clock w) (C.clock (S.wait ms w).1)
            (ground (arith, b, low, e, C.after_monotonic s.world, C.shown s.world))
            (C.after_wait ms w)))
  ]

  -- The rounds of the hold are enough: where the clock keeps its laws, as many rounds as there are
  -- milliseconds to the deadline give the result that any larger number gives.
  pub hold-enough :
      (rounds larger deadline : ℕ) (last_hash : String) (s : State S.World)
      → deadline ≤ C.clock s.world + rounds
      → rounds ≤ larger
      → (hold S rounds deadline last_hash s).0 ≡ (hold S larger deadline last_hash s).0
  unfolding hold hold_round ◌>>=◌
  hold-enough zero zero deadline last_hash s h b = refl
  hold-enough zero (suc larger) deadline last_hash s h b =
      let past : leb deadline (S.monotonic s.world).0 ≡ true = ground (arith, h, C.shown s.world) in
      rw past refl
  hold-enough (suc rounds) zero deadline last_hash s h b = ground (arith, b)
  hold-enough (suc rounds) (suc larger) deadline last_hash s h b =
      hold_round-Agree (hold S rounds deadline last_hash) (hold S larger deadline last_hash)
        deadline (S.monotonic s.world).0 (C.clock s.world) last_hash
        (record s { world = (S.monotonic s.world).1 })
        (λ s' a.
          hold-enough rounds larger deadline last_hash s' (omega (arith, h, a)) (omega (arith, b)))
        (C.after_monotonic s.world) (C.shown s.world)
