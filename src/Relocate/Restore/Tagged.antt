-- ===== src/Relocate/Restore/Tagged.antt =====
-- The `tag` commands that dwm takes while relocate.py carries out the plan of one window.
use mathlib.Core.Path.{subst}
use xrandrw.Prelude.{
  ℕ, suc, ◌+◌, ◌≤◌, Bool, true, false, ◌&&◌, ◌≡◌, refl, ◌∙◌, sym, ap, List, [], ◌∷◌, arith, ◌==◌,
  string_eq, if◌then◌else◌, length,
}
use xrandrw.Prelude.Int.{ℤ, int_eq}
use xrandrw.Json.{Json, Key, Result, ok, unavailable, raised}
use xrandrw.Ipc.{run_command}
use xrandrw.Relocate.Plan.{Action, tagmon, tag, togglefloating, configure}
use xrandrw.Relocate.Seam.{
  Seams, State, Event, sent, M, pure, lift, ◌>>=◌, accepted, run_verb, request,
}
use xrandrw.Relocate.Focus.{focus_and_confirm}
use xrandrw.Relocate.Tagmon.{Status, step_ok, step_failed, step_focus_lost, tagmon_to_target}
use xrandrw.Relocate.Restore.{
  Step, step_of, sunk, after_step, step_tagmon, step_tag, run_restore_action, run_plan,
}
use xrandrw.Relocate.Chain.{bind-ok}
use xrandrw.Relocate.Keeps.{IsClosed, Keeps}
use xrandrw.Relocate.Keeps.Walk.{focus-Keeps}
use xrandrw.Relocate.Keeps.Plan.{run_plan-Keeps, run_restore_action-Keeps}

-- dwm has taken a `tag` command with these tags.
abbrev pub is_tagged : ℤ → Event → Bool
is_tagged t (sent (run_command verb (a ∷ [])) (ok reply)) =
    verb == "tag" && (a == t && accepted reply)
is_tagged t _ = false

-- How often dwm has taken it.
abbrev pub tagged : ℤ → List Event → ℕ
tagged t [] = 0
tagged t (e ∷ es) = (if is_tagged t e then 1 else 0) + tagged t es

module _ {W : Type 0} where
  -- A run that returns the value adds to the count.
  abbrev pub Adds : {A : Type 0} → ℤ → M W A → A → State W → Type 0
  Adds t m a s = (m s).0 ≡ ok a → suc (tagged t s.trace) ≤ tagged t (m s).1.trace

  refused-tagged :
      (t : ℤ) (b : Bool) (m : M W Bool) (s : State W)
      → Adds t m true s
      → Adds t (if b then lift raised else m) true s
  unfolding ◌>>=◌
  refused-tagged t true m s a h = ground arith
  refused-tagged t false m s a h = a h

module _ (S : Seams) (t : ℤ) where
  abbrev pub AtLeast : ℕ → State S.World → Type 0
  AtLeast n s = n ≤ tagged t s.trace

  pub AtLeast-IsClosed : (n : ℕ) → IsClosed (AtLeast n)
  AtLeast-IsClosed n = record {
    looked = λ s w p. p;
    called = λ s w e p. omega (arith, p);
    stole = λ s w e k p. omega (arith, p);
  }

  counted : (b : Bool) (n : ℕ) → (if b then suc n else n) ≤ (if b then 1 else 0) + n
  counted true n = omega arith
  counted false n = omega arith

  replied-tagged :
      (r : Result Json) (n : ℕ) (s : State S.World)
      → (if is_tagged t (sent (run_command "tag" (t ∷ [])) r) then suc n else n) ≤ tagged t s.trace
      → ((lift r >>= λ reply. pure (accepted reply)) s).0 ≡ ok true
      → suc n ≤ tagged t ((lift r >>= λ reply. pure (accepted reply)) s).1.trace
  unfolding ◌>>=◌
  replied-tagged (ok reply) n s b h = ground (arith, int_eq.beq_iff t t)
  replied-tagged unavailable n s b h = ground arith
  replied-tagged raised n s b h = ground arith

  run_verb-tagged : (s : State S.World) → Adds t (run_verb S "tag" (t ∷ [])) true s
  unfolding run_verb request ◌>>=◌
  run_verb-tagged s h =
      let (r, w) = S.request (run_command "tag" (t ∷ [])) s.world in
      let e = sent (run_command "tag" (t ∷ [])) r in
      refused-tagged t S.is_refused _ s
        (replied-tagged r (tagged t s.trace) (record s { world = w; trace = e ∷ s.trace })
          (counted (is_tagged t e) (tagged t s.trace)))
        h

  bind-tagged :
      {A B : Type 0} (m : M S.World A) (f : A → M S.World B) (b : B) (s : State S.World)
      → ((P : State S.World → Type 0) → IsClosed P → Keeps P m)
      → ((a : A) → Adds t (f a) b (m s).1)
      → Adds t (m >>= f) b s
  bind-tagged m f b s keeps adds h =
      let (a, r, e) = bind-ok m f s b h in
      let n = tagged t s.trace in
      let kept : n ≤ tagged t (m s).1.trace =
        (keeps (AtLeast n) (AtLeast-IsClosed n)).at s (omega arith) in
      let more = adds a (sym (ap (λ p. p.0) e) ∙ h) in
      subst (λ p. suc n ≤ tagged t p.1.trace) (sym e) (omega (arith, kept, more))

  noted-tagged :
      (abort : Bool) (n : ℕ) (r : Result Bool) (u : State S.World)
      → (r ≡ ok true → suc n ≤ tagged t u.trace)
      → ((lift r >>= λ taken. pure {A = Step} (taken, false)) u).0 ≡ ok (true, abort)
      → suc n ≤ tagged t ((lift r >>= λ taken. pure {A = Step} (taken, false)) u).1.trace
  unfolding ◌>>=◌
  noted-tagged abort n (ok true) u a h = a refl
  noted-tagged abort n (ok false) u a h = ground arith
  noted-tagged abort n unavailable u a h = ground arith
  noted-tagged abort n raised u a h = ground arith

  landed-tagged :
      (landed abort : Bool) (s : State S.World)
      → Adds {A = Step} t
          (if landed
            then (run_verb S "tag" (t ∷ []) >>= λ taken. pure (taken, false))
            else pure (false, true))
          (true, abort)
          s
  unfolding ◌>>=◌
  landed-tagged true abort s h =
      noted-tagged abort (tagged t s.trace) (run_verb S "tag" (t ∷ []) s).0
        (run_verb S "tag" (t ∷ []) s).1 (run_verb-tagged s) h
  landed-tagged false abort s h = ground arith

  step_tag-tagged :
      (x : ℤ) (abort : Bool) (s : State S.World)
      → Adds {A = Step} t (step_tag S x t) (true, abort) s
  unfolding step_tag
  step_tag-tagged x abort s =
      bind-tagged (focus_and_confirm S x) _ (true, abort) s (λ P c. focus-Keeps S P c x)
        (λ landed. landed-tagged landed abort (focus_and_confirm S x s).1)

  sunk-false : (a : Action) → sunk a false ≡ false
  sunk-false (tagmon d) = refl
  sunk-false (tag tags) = refl
  sunk-false togglefloating = refl
  sunk-false (configure g) = refl

  after_step-sunk :
      (a : Action) (r : Result Step) (rest : Bool → M S.World Bool) (u : State S.World)
      → ((v : State S.World) → (rest false v).0 ≡ ok false)
      → (after_step a false r rest u).0 ≡ ok false
  unfolding after_step
  after_step-sunk a (ok (true, true)) rest u h = refl
  after_step-sunk a (ok (true, false)) rest u h = h u
  after_step-sunk a (ok (false, true)) rest u h = ap ok (sunk-false a)
  after_step-sunk a (ok (false, false)) rest u h = ap (λ b. (rest b u).0) (sunk-false a) ∙ h u
  after_step-sunk a unavailable rest u h = ap (λ b. (rest b u).0) (sunk-false a) ∙ h u
  after_step-sunk a raised rest u h = ap (λ b. (rest b u).0) (sunk-false a) ∙ h u

  -- A plan that has failed an essential step does not recover.
  run_plan-sunk :
      (actions : List Action) (x : ℤ) (target : Key) (ms : List Json) (s : State S.World)
      → (run_plan S actions x target ms false s).0 ≡ ok false
  unfolding run_plan
  run_plan-sunk [] x target ms s = refl
  run_plan-sunk (a ∷ actions) x target ms s =
      after_step-sunk a (run_restore_action S x a target ms s).0
        (λ now. run_plan S actions x target ms now) (run_restore_action S x a target ms s).1
        (run_plan-sunk actions x target ms)

  after_tag-tagged :
      (rest : List Action) (x : ℤ) (target : Key) (ms : List Json)
      → (n : ℕ) (r : Result Step) (u : State S.World)
      → ((abort : Bool) → r ≡ ok (true, abort) → suc n ≤ tagged t u.trace)
      → (after_step (tag t) true r (λ now. run_plan S rest x target ms now) u).0 ≡ ok true
      → suc n
        ≤ tagged t (after_step (tag t) true r (λ now. run_plan S rest x target ms now) u).1.trace
  unfolding after_step
  after_tag-tagged rest x target ms n (ok (true, true)) u a h = a true refl
  after_tag-tagged rest x target ms n (ok (true, false)) u a h =
      (run_plan-Keeps S (AtLeast (suc n)) (AtLeast-IsClosed (suc n)) rest x target ms true).at u
        (a false refl)
  after_tag-tagged rest x target ms n (ok (false, true)) u a h = ground arith
  after_tag-tagged rest x target ms n (ok (false, false)) u a h =
      ground (arith, run_plan-sunk rest x target ms u)
  after_tag-tagged rest x target ms n unavailable u a h =
      ground (arith, run_plan-sunk rest x target ms u)
  after_tag-tagged rest x target ms n raised u a h =
      ground (arith, run_plan-sunk rest x target ms u)

  pub tag_first-tagged :
      (rest : List Action) (x : ℤ) (target : Key) (ms : List Json) (s : State S.World)
      → Adds t (run_plan S (tag t ∷ rest) x target ms true) true s
  unfolding run_plan run_restore_action
  tag_first-tagged rest x target ms s h =
      after_tag-tagged rest x target ms (tagged t s.trace) (step_tag S x t s).0 (step_tag S x t s).1
        (λ abort. step_tag-tagged x abort s) h

  step_tagmon-status :
      (r : Result Status) (u : State S.World)
      → ¬ (((lift r >>= λ status. pure (step_of status)) u).0 ≡ ok (true, true))
  unfolding ◌>>=◌
  step_tagmon-status (ok step_ok) u h = ground arith
  step_tagmon-status (ok step_failed) u h = ground arith
  step_tagmon-status (ok step_focus_lost) u h = ground arith
  step_tagmon-status unavailable u h = ground arith
  step_tagmon-status raised u h = ground arith

  after_tagmon-tagged :
      (d : ℤ) (rest : List Action) (x : ℤ) (target : Key) (ms : List Json)
      → (n : ℕ) (r : Result Step) (u : State S.World) → n ≤ tagged t u.trace
      → ¬ (r ≡ ok (true, true))
      → (after_step (tagmon d) true r (λ now. run_plan S (tag t ∷ rest) x target ms now) u).0
        ≡ ok true
      → suc n
        ≤ tagged t
            (after_step
              (tagmon d)
              true
              r
              (λ now. run_plan S (tag t ∷ rest) x target ms now)
              u).1.trace
  unfolding after_step
  after_tagmon-tagged d rest x target ms n (ok (true, true)) u k a h = absurd (a refl)
  after_tagmon-tagged d rest x target ms n (ok (true, false)) u k a h =
      let more = tag_first-tagged rest x target ms u h in omega (arith, more, k)
  after_tagmon-tagged d rest x target ms n (ok (false, true)) u k a h = ground arith
  after_tagmon-tagged d rest x target ms n (ok (false, false)) u k a h =
      ground (arith, run_plan-sunk (tag t ∷ rest) x target ms u)
  after_tagmon-tagged d rest x target ms n unavailable u k a h =
      ground (arith, run_plan-sunk (tag t ∷ rest) x target ms u)
  after_tagmon-tagged d rest x target ms n raised u k a h =
      ground (arith, run_plan-sunk (tag t ∷ rest) x target ms u)

  pub tagmon_first-tagged :
      (d : ℤ) (rest : List Action) (x : ℤ) (target : Key) (ms : List Json) (s : State S.World)
      → Adds t (run_plan S (tagmon d ∷ tag t ∷ rest) x target ms true) true s
  unfolding run_plan run_restore_action step_tagmon ◌>>=◌
  tagmon_first-tagged d rest x target ms s h =
      let n = tagged t s.trace in
      let kept : n ≤ tagged t (run_restore_action S x (tagmon d) target ms s).1.trace =
        (run_restore_action-Keeps S (AtLeast n) (AtLeast-IsClosed n) x (tagmon d) target ms).at s
          (omega arith) in
      after_tagmon-tagged d rest x target ms n (step_tagmon S x d target (length ms) s).0
        (step_tagmon S x d target (length ms) s).1 kept
        (step_tagmon-status (tagmon_to_target S (length ms) x d target s).0
          (tagmon_to_target S (length ms) x d target s).1)
        h
