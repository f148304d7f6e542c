-- ===== src/Relocate/Tagmon/Arrival.antt =====
-- Where relocate.py's bounded walk of a window ends.
use mathlib.Core.Path.{subst}
use xrandrw.Prelude.{
  ℕ, zero, suc, Bool, true, false, ◌&&◌, ◌≡◌, refl, ◌∙◌, sym, ap, List, [], ◌∷◌, ◌==◌, arith,
  if◌then◌else◌,
}
use xrandrw.Prelude.Int.{ℤ, int_eq}
use xrandrw.Json.{Json, Key, key, key_eq, Result, ok, unavailable, raised, index}
use xrandrw.Ipc.{get_dwm_client, validate_client, require_dict}
use xrandrw.Relocate.Seam.{
  Seams, State, Event, sent, M, pure, lift, ◌>>=◌, dwm_client, request, run_verb,
}
use xrandrw.Relocate.Chain.{bind-ok}
use xrandrw.Relocate.Focus.{focus_and_confirm}
use xrandrw.Relocate.Tagmon.{
  Status, step_ok, step_failed, step_focus_lost, arrived, hop, guarded_hop, tagmon_to_target,
  tagmon_would_crash_dwm,
}

-- The latest event is dwm's reply on the window, with the target as its monitor.
abbrev pub is_on : ℤ → Key → List Event → Bool
is_on x target (sent (get_dwm_client y) (ok client) ∷ _) =
    y == x && elim (index "monitor_number" client) [
      | ok cur ↦ key cur == target
      | unavailable ↦ false
      | raised ↦ false
    ]
is_on x target _ = false

module _ (S : Seams) (x : ℤ) (target : Key) where
  -- Where the action reports an arrival, the latest event shows it.
  abbrev Arrives : M S.World Status → Type 0
  Arrives m = (s : State S.World) → (m s).0 ≡ ok step_ok → is_on x target (m s).1.trace ≡ true

  bind-Arrives :
      {A : Type 0} (m : M S.World A) (f : A → M S.World Status)
      → ((a : A) → Arrives (f a))
      → Arrives (m >>= f)
  bind-Arrives m f arrives s h =
      let (a, r, e) = bind-ok m f s step_ok h in
      subst (λ p. is_on x target p.1.trace ≡ true) (sym e)
        (arrives a (m s).1 (sym (ap (λ p. p.0) e) ∙ h))

  if-Arrives :
      (b : Bool) (m n : M S.World Status) → Arrives m → Arrives n → Arrives (if b then m else n)
  if-Arrives true m n hm hn = hm
  if-Arrives false m n hm hn = hn

  failed-Arrives : Arrives (pure step_failed)
  unfolding ◌>>=◌
  failed-Arrives s h = ground arith

  lost-Arrives : Arrives (pure step_focus_lost)
  unfolding ◌>>=◌
  lost-Arrives s h = ground arith

  abbrev check_number : M S.World Status → Json → M S.World Status
  check_number again cur = if key cur == target then pure step_ok else again

  -- What follows the reply on the window.
  abbrev check : M S.World Status → Json → M S.World Status
  check again c = lift (index "monitor_number" c) >>= check_number again

  module _ (again : M S.World Status) (later : Arrives again) (client : Json) where
    -- The latest event is the reply on the window.
    abbrev Replied : State S.World → Type 0
    Replied u = (es : List Event) × (u.trace ≡ sent (get_dwm_client x) (ok client) ∷ es)

    compared :
        (b : Bool) (cur : Json) (u : State S.World)
        → Replied u
        → index "monitor_number" client ≡ ok cur
        → (key cur == target) ≡ b
        → ((if b then pure step_ok else again) u).0 ≡ ok step_ok
        → is_on x target ((if b then pure step_ok else again) u).1.trace ≡ true
    unfolding ◌>>=◌
    compared true cur u (es, replied) number same h =
        rw replied (rw number (ground (arith, same, int_eq.beq_iff x x)))
    compared false cur u replied number same h = later u h

    numbered :
        (v : Result Json) (u : State S.World)
        → Replied u
        → index "monitor_number" client ≡ v
        → ((lift v >>= check_number again) u).0 ≡ ok step_ok
        → is_on x target ((lift v >>= check_number again) u).1.trace ≡ true
    unfolding ◌>>=◌
    numbered (ok cur) u replied number h = compared (key cur == target) cur u replied number refl h
    numbered unavailable u replied number h = ground arith
    numbered raised u replied number h = ground arith

    validated :
        (b : Bool) (u : State S.World)
        → Replied u
        → ((lift (if b then ok client else unavailable) >>= check again) u).0 ≡ ok step_ok
        → is_on x target ((lift (if b then ok client else unavailable) >>= check again) u).1.trace
          ≡ true
    unfolding ◌>>=◌
    validated true u replied h = numbered (index "monitor_number" client) u replied refl h
    validated false u replied h = ground arith

  replied-Arrives :
      (again : M S.World Status)
      → Arrives again
      → (r : Result Json) (u : State S.World) (es : List Event)
      → u.trace ≡ sent (get_dwm_client x) r ∷ es
      → (((lift r >>= λ body. lift (validate_client body)) >>= check again) u).0 ≡ ok step_ok
      → is_on x target
          (((lift r >>= λ body. lift (validate_client body)) >>= check again) u).1.trace
        ≡ true
  unfolding ◌>>=◌ validate_client require_dict
  replied-Arrives again later (ok client) u es t h = validated again later client _ u (es, t) h
  replied-Arrives again later unavailable u es t h = ground arith
  replied-Arrives again later raised u es t h = ground arith

  arrived-Arrives : (again : M S.World Status) → Arrives again → Arrives (arrived S x target again)
  unfolding arrived dwm_client request ◌>>=◌
  arrived-Arrives again later s h =
      let (r, w) = S.request (get_dwm_client x) s.world in
      let e = sent (get_dwm_client x) r in
      replied-Arrives again later r (record s { world = w; trace = e ∷ s.trace }) s.trace refl h

  guarded_hop-Arrives :
      (direction : ℤ) (again : M S.World Status)
      → Arrives again
      → Arrives (guarded_hop S x direction target again)
  unfolding guarded_hop hop
  guarded_hop-Arrives direction again later =
      bind-Arrives (tagmon_would_crash_dwm S x direction) _ λ unsafe.
        if-Arrives unsafe _ _ failed-Arrives (
          bind-Arrives (run_verb S "tagmon" (direction ∷ [])) _
            λ moved. if-Arrives moved _ _ (arrived-Arrives again later) failed-Arrives)

  walk-Arrives : (hops : ℕ) (direction : ℤ) → Arrives (tagmon_to_target S hops x direction target)
  unfolding tagmon_to_target
  walk-Arrives zero direction = failed-Arrives
  walk-Arrives (suc hops) direction = bind-Arrives (focus_and_confirm S x) _ λ landed.
      if-Arrives landed _ _ (guarded_hop-Arrives direction _ (walk-Arrives hops direction))
        lost-Arrives

  -- A walk that reports an arrival has ended with dwm's reply that the window is on the target.
  pub tagmon_to_target-is_on :
      (hops : ℕ) (direction : ℤ) (s : State S.World)
      → (tagmon_to_target S hops x direction target s).0 ≡ ok step_ok
      → is_on x target (tagmon_to_target S hops x direction target s).1.trace ≡ true
  tagmon_to_target-is_on hops direction s h = walk-Arrives hops direction s h
