-- ===== src/Watch/Wakeup.antt =====
-- How a wakeup of watch.py can end: what it applies, and which hash the loop goes on with.
use xrandrw.Prelude.{
  ℕ, String, refl, Option, none, some, List, ◌∷◌, ◌==◌, Option-cases, string_eq, inl, inr,
}
use xrandrw.Apply.{Verdict, completed, bailed, raised}
use xrandrw.Watch.Seam.{
  Churn, Effect, applied, hooked, Seams, State, M, pure, give_up, ◌>>=◌, ◌>>◌, apply, hook,
}
use xrandrw.Watch.{
  absorb, settle, apply_change, confirm_change, apply_if_changed, debounce_ms_for_churn,
}
use xrandrw.Watch.Quiet.{
  Leads, Leads-if, Leads-bind, topology_hash-IsQuiet, unhealed_connectors-IsQuiet, observe-IsQuiet,
  bounce_settled-IsQuiet, set_churn-IsQuiet, note_baseline-IsQuiet, absorb-IsQuiet, absorb-some,
}

-- The end of a wakeup, from the trace before it: its result, `none` where a read or the apply raises, and
-- its trace. It ends without an apply and with the old hash; with an apply that bailed and the old hash;
-- or with an apply that completed, and the call of the coordinator after it, and some hash.
pub data Ended (last_hash : String) (before : List Effect)
    : Option String → List Effect → Type 0 where
  unread : Ended last_hash before none before
  untouched : Ended last_hash before (some last_hash) before
  crashed : Ended last_hash before none (applied raised ∷ before)
  incomplete : Ended last_hash before (some last_hash) (applied bailed ∷ before)
  lost : Ended last_hash before none (applied completed ∷ before)
  alone : (h : String) → Ended last_hash before (some h) (applied completed ∷ before)
  with_hook : (h : String) → Ended last_hash before (some h) (hooked ∷ applied completed ∷ before)

-- The end of the part behind a completed apply.
data Settled (before : List Effect) : Option String → List Effect → Type 0 where
  unread : Settled before none before
  alone : (h : String) → Settled before (some h) before
  with_hook : (h : String) → Settled before (some h) (hooked ∷ before)

module _ (S : Seams) where
  hooked-Settled :
      (last_hash settled : String) (unhealed : List String)
      → Leads Settled (hook S >> absorb S last_hash settled unhealed)
  unfolding hook ◌>>=◌ absorb
  hooked-Settled last_hash settled unhealed = record {
    at = λ s. elim (Option-cases S.on_settled) [
      | inl e ↦
          let (h, e') = absorb-some S last_hash settled unhealed s in
          rw e (rw e' (rw ((absorb-IsQuiet S last_hash settled unhealed).at s) (alone h)))
      | inr (f, e) ↦
          let s' : State S.World = record s { world = f s.world; trace = hooked ∷ s.trace } in
          let (h, e') = absorb-some S last_hash settled unhealed s' in
          rw e (rw e' (rw ((absorb-IsQuiet S last_hash settled unhealed).at s') (with_hook h)))
    ];
  }

  settle-Settled : (hold_ms : ℕ) (last_hash : String) → Leads Settled (settle S hold_ms last_hash)
  unfolding settle
  settle-Settled hold_ms last_hash =
      Leads-bind Settled _ _ (λ t. unread) (topology_hash-IsQuiet S)
        (λ settled.
          Leads-bind Settled _ _ (λ t. unread) (note_baseline-IsQuiet S hold_ms)
            (λ _.
              Leads-bind Settled _ _ (λ t. unread) (unhealed_connectors-IsQuiet S)
                (λ unhealed. hooked-Settled last_hash settled unhealed)))

  -- A completed apply with what follows it.
  completed-Ended :
      (last_hash : String) (before : List Effect) (r : Option String) (t : List Effect)
      → Settled (applied completed ∷ before) r t
      → Ended last_hash before r t
  completed-Ended last_hash before _ _ unread = lost
  completed-Ended last_hash before _ _ (alone h) = alone h
  completed-Ended last_hash before _ _ (with_hook h) = with_hook h

  apply_change-Ended :
      (hold_ms : ℕ) (last_hash : String)
      → Leads (Ended last_hash) (apply_change S hold_ms last_hash)
  unfolding apply_change apply ◌>>=◌
  apply_change-Ended hold_ms last_hash = record {
    at = λ s. go (S.apply_once s.world).0 (S.apply_once s.world).1 s;
  }
    where
      go :
          (v : Verdict) (w : S.World) (s : State S.World)
          → let s' : State S.World = record s { world = w; trace = applied v ∷ s.trace } in
            let m : M S.World String = elim v [
              | completed ↦ settle S hold_ms last_hash
              | bailed ↦ pure last_hash
              | raised ↦ give_up
            ] in
            Ended last_hash s.trace (m s').0 (m s').1.trace
      go completed w s = completed-Ended last_hash s.trace _ _ (
          (settle-Settled hold_ms last_hash).at
            (record s { world = w; trace = applied completed ∷ s.trace }))
      go bailed w s = incomplete
      go raised w s = crashed

  untouched-Ended : (last_hash : String) → Leads {W = S.World} (Ended last_hash) (pure last_hash)
  untouched-Ended last_hash = record { at = λ s. untouched }

  confirm_change-Ended :
      (hold_ms suspect_ms : ℕ) (last_hash : String)
      → Leads (Ended last_hash) (confirm_change S hold_ms suspect_ms last_hash)
  unfolding confirm_change
  confirm_change-Ended hold_ms suspect_ms last_hash =
      let R = Ended last_hash in
      Leads-bind R _ _ (λ t. unread) (topology_hash-IsQuiet S)
        (λ verify. Leads-if R (verify == last_hash) _ _ (untouched-Ended last_hash) (
          Leads-bind R _ _ (λ t. unread) (bounce_settled-IsQuiet S hold_ms suspect_ms last_hash)
            (λ bounced.
              Leads-if R bounced _ _ (untouched-Ended last_hash)
                (apply_change-Ended hold_ms last_hash))))

  apply_if_changed-Leads :
      (hold_ms suspect_ms : ℕ) (last_hash : String)
      → Leads (Ended last_hash) (apply_if_changed S hold_ms suspect_ms last_hash)
  unfolding apply_if_changed
  apply_if_changed-Leads hold_ms suspect_ms last_hash =
      let R = Ended last_hash in
      Leads-bind R _ _ (λ t. unread) (topology_hash-IsQuiet S)
        (λ cur. Leads-if R (cur == last_hash) _ _ (untouched-Ended last_hash) (
          Leads-bind R _ _ (λ t. unread) (observe-IsQuiet S S.monotonic)
            (λ now.
              Leads-bind R _ _ (λ t. unread) (record { at = λ s. refl })
                (λ (churn : Churn).
                  Leads-bind R _ _ (λ t. unread)
                    (set_churn-IsQuiet S (debounce_ms_for_churn now churn).1)
                    (λ _.
                      Leads-bind R _ _ (λ t. unread) (observe-IsQuiet S (λ w. (tt, S.sleep _ w)))
                        (λ _. confirm_change-Ended hold_ms suspect_ms last_hash))))))

  -- Each wakeup ends in one of the ways of `Ended`: it applies once at most, the coordinator is called
  -- only after an apply that completed, and where no apply completed the loop goes on with the old hash
  -- or ends with an exception.
  pub apply_if_changed-Ended :
      (hold_ms suspect_ms : ℕ) (last_hash : String) (s : State S.World)
      → let (r, s') = apply_if_changed S hold_ms suspect_ms last_hash s in
        Ended last_hash s.trace r s'.trace
  apply_if_changed-Ended hold_ms suspect_ms last_hash s =
      (apply_if_changed-Leads hold_ms suspect_ms last_hash).at s
