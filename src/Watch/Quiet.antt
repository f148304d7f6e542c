-- ===== src/Watch/Quiet.antt =====
-- The steps of watch.py that apply nothing, and the rules for what a chain of steps ends in.
use mathlib.Core.Path.{subst}
use xrandrw.Prelude.{
  ℕ, zero, suc, ◌+◌, ◌-◌, String, Bool, true, false, not, ◌&&◌, ◌≡◌, refl, ◌∙◌, Option, none, some,
  List, ◌==◌, string_eq, leb, min, if◌then◌else◌, Bool-cases, inl, inr,
}
use xrandrw.Watch.Seam.{
  Churn, Effect, Seams, State, M, pure, ◌>>=◌, set_churn, monotonic, topology_hash,
  present_connectors, unhealed_connectors, observe,
}
use xrandrw.Watch.{
  look_again, hold_round, hold, hold_down, bounce_settled, note_baseline, absorb, suspects,
  is_empty, difference, unhealed_apply_limit,
}

module _ {W A : Type 0} where
  -- A step that applies nothing.
  pub record IsQuiet (m : M W A) : Type 0 where
    pub at : (s : State W) → (m s).1.trace ≡ s.trace

module _ {W : Type 0} (R : List Effect → Option String → List Effect → Type 0) where
  pub record Leads (m : M W String) : Type 0 where
    pub at : (s : State W) → R s.trace (m s).0 (m s).1.trace

  pub Leads-if : (b : Bool) (m n : M W String) → Leads m → Leads n → Leads (if b then m else n)
  Leads-if true m n hm hn = hm
  Leads-if false m n hm hn = hn

module _ {W A : Type 0} (R : List Effect → Option String → List Effect → Type 0) where
  pub Leads-bind :
      (m : M W A) (f : A → M W String)
      → ((t : List Effect) → R t none t)
      → IsQuiet m
      → ((a : A) → Leads R (f a))
      → Leads R (m >>= f)
  unfolding ◌>>=◌
  Leads-bind m f stop quiet h = record { at = λ s. go (m s).0 (m s).1 s.trace (quiet.at s) }
    where
      go :
          (r : Option A) (s : State W) (t : List Effect)
          → s.trace ≡ t
          → R t
              (((λ (x : State W). (r, x)) >>= f) s).0
              (((λ (x : State W). (r, x)) >>= f) s).1.trace
      go none s t e = subst (λ u. R u none s.trace) e (stop s.trace)
      go (some a) s t e = subst (λ u. R u (f a s).0 (f a s).1.trace) e ((h a).at s)

module _ {W A B : Type 0} where
  pub IsQuiet-bind :
      (m : M W A) (f : A → M W B) → IsQuiet m → ((a : A) → IsQuiet (f a)) → IsQuiet (m >>= f)
  unfolding ◌>>=◌
  IsQuiet-bind m f hm hf = record { at = λ s. go (m s).0 (m s).1 s.trace (hm.at s) }
    where
      go :
          (r : Option A) (s : State W) (t : List Effect)
          → s.trace ≡ t
          → (((λ (x : State W). (r, x)) >>= f) s).1.trace ≡ t
      go none s t e = e
      go (some a) s t e = (hf a).at s ∙ e

module _ {W A : Type 0} where
  pub IsQuiet-pure : (a : A) → IsQuiet (pure {W = W} a)
  IsQuiet-pure a = record { at = λ s. refl }

  pub IsQuiet-if : (b : Bool) (m n : M W A) → IsQuiet m → IsQuiet n → IsQuiet (if b then m else n)
  IsQuiet-if true m n hm hn = hm
  IsQuiet-if false m n hm hn = hn

module _ (S : Seams) where
  pub topology_hash-IsQuiet : IsQuiet (topology_hash S)
  unfolding topology_hash
  topology_hash-IsQuiet = record { at = λ s. refl }

  pub present_connectors-IsQuiet : IsQuiet (present_connectors S)
  unfolding present_connectors
  present_connectors-IsQuiet = record { at = λ s. refl }

  pub unhealed_connectors-IsQuiet : IsQuiet (unhealed_connectors S)
  unfolding unhealed_connectors
  unhealed_connectors-IsQuiet = record { at = λ s. refl }

  pub observe-IsQuiet : {A : Type 0} (f : S.World → A × S.World) → IsQuiet (observe S f)
  observe-IsQuiet f = record { at = λ s. refl }

  pub look_again-IsQuiet :
      (again : M S.World Bool) (last_hash : String) (stopping : Bool)
      → IsQuiet again
      → IsQuiet (look_again S again last_hash stopping)
  unfolding look_again
  look_again-IsQuiet again last_hash stopping h = IsQuiet-if stopping _ _ (IsQuiet-pure false) (
      IsQuiet-bind _ _ topology_hash-IsQuiet
        (λ g. IsQuiet-if (g == last_hash) _ _ (IsQuiet-pure true) h))

  pub hold_round-IsQuiet :
      (again : M S.World Bool) (deadline : ℕ) (last_hash : String) (now : ℕ)
      → IsQuiet again
      → IsQuiet (hold_round S again deadline last_hash now)
  unfolding hold_round
  hold_round-IsQuiet again deadline last_hash now h =
      IsQuiet-if (leb deadline now) _ _ (IsQuiet-pure false) (
        IsQuiet-bind _ _ (observe-IsQuiet S.monotonic) (λ then_.
          IsQuiet-bind _ _ (observe-IsQuiet (S.wait (min 150 (deadline - then_))))
            (λ stopping. look_again-IsQuiet again last_hash stopping h)))

  pub hold-IsQuiet :
      (rounds deadline : ℕ) (last_hash : String) → IsQuiet (hold S rounds deadline last_hash)
  unfolding hold
  hold-IsQuiet zero deadline last_hash = IsQuiet-pure false
  hold-IsQuiet (suc rounds) deadline last_hash =
      IsQuiet-bind _ _ (observe-IsQuiet S.monotonic) (λ now.
        hold_round-IsQuiet (hold S rounds deadline last_hash) deadline last_hash now
          (hold-IsQuiet rounds deadline last_hash))

  pub hold_down-IsQuiet :
      (hold_ms : ℕ) (last_hash : String) (prev : Option (List String))
      → IsQuiet (hold_down S hold_ms last_hash prev)
  unfolding hold_down
  hold_down-IsQuiet hold_ms last_hash none = IsQuiet-pure false
  hold_down-IsQuiet hold_ms last_hash (some prev) =
      IsQuiet-bind _ _ present_connectors-IsQuiet (λ present.
        IsQuiet-if (is_empty (difference prev present)) _ _ (IsQuiet-pure false) (
          IsQuiet-bind _ _ (observe-IsQuiet S.monotonic)
            (λ start. hold-IsQuiet hold_ms (start + hold_ms) last_hash)))

  pub gated-IsQuiet :
      (hold_ms suspect_ms : ℕ) (last_hash : String) (prev : Option (List String))
      (done_at : Option ℕ)
      → IsQuiet {W = S.World} (elim done_at [
        | none ↦ pure false
        | some t ↦
            (monotonic S >>= λ now. hold_down S hold_ms last_hash (suspects suspect_ms now t prev))
      ])
  gated-IsQuiet hold_ms suspect_ms last_hash prev none = IsQuiet-pure false
  gated-IsQuiet hold_ms suspect_ms last_hash prev (some t) =
      IsQuiet-bind _ _ (observe-IsQuiet S.monotonic) (λ now. hold_down-IsQuiet hold_ms last_hash _)

  pub bounce_settled-IsQuiet :
      (hold_ms suspect_ms : ℕ) (last_hash : String)
      → IsQuiet (bounce_settled S hold_ms suspect_ms last_hash)
  unfolding bounce_settled
  bounce_settled-IsQuiet hold_ms suspect_ms last_hash =
      IsQuiet-if (leb hold_ms 0) _ _ (IsQuiet-pure false) (
        IsQuiet-bind _ _ (record { at = λ s. refl })
          (λ (churn : Churn).
            gated-IsQuiet hold_ms suspect_ms last_hash churn.present churn.apply_done_at))

  pub set_churn-IsQuiet : (c : Churn) → IsQuiet {W = S.World} (set_churn c)
  set_churn-IsQuiet c = record { at = λ s. refl }

  pub note_baseline-IsQuiet : (hold_ms : ℕ) → IsQuiet (note_baseline S hold_ms)
  unfolding note_baseline
  note_baseline-IsQuiet hold_ms = IsQuiet-if (leb hold_ms 0) _ _ (IsQuiet-pure tt) (
      IsQuiet-bind _ _ (observe-IsQuiet S.monotonic) (λ now.
        IsQuiet-bind _ _ present_connectors-IsQuiet
          (λ present. IsQuiet-bind _ _ (record { at = λ s. refl }) (λ churn. set_churn-IsQuiet _))))

  pub absorb-IsQuiet :
      (last_hash settled : String) (unhealed : List String)
      → IsQuiet (absorb S last_hash settled unhealed)
  unfolding absorb
  absorb-IsQuiet last_hash settled unhealed =
      IsQuiet-bind _ _ (record { at = λ s. refl })
        (λ (churn : Churn).
          IsQuiet-if (not (is_empty unhealed) && leb (churn.unhealed + 1) unhealed_apply_limit) _ _
            (IsQuiet-bind _ _ (set_churn-IsQuiet _) (λ _. IsQuiet-pure last_hash))
            (IsQuiet-bind _ _ (set_churn-IsQuiet _) (λ _. IsQuiet-pure settled)))

  pub absorb-some :
      (last_hash settled : String) (unhealed : List String) (s : State S.World)
      → (h : String) × ((absorb S last_hash settled unhealed s).0 ≡ some h)
  unfolding absorb ◌>>=◌
  absorb-some last_hash settled unhealed s =
      elim (Bool-cases
        (not (is_empty unhealed) && leb (s.churn.unhealed + 1) unhealed_apply_limit)) [
          | inl e ↦ (last_hash, rw e refl)
          | inr e ↦ (settled, rw e refl)
        ]
