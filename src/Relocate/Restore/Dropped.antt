-- ===== src/Relocate/Restore/Dropped.antt =====
-- What has happened to a window that relocate.py takes off the displaced ones.
use mathlib.Core.Path.{subst}
use xrandrw.Prelude.{
  ℕ, suc, ◌≤◌, String, Bool, true, false, ◌≡◌, ◌⊎◌, refl, ◌∙◌, sym, ap, none, some, List, arith,
  string_eq, if◌then◌else◌, Option-cases, inl, inr,
}
use xrandrw.Prelude.Int.{ℤ, int_eq}
use xrandrw.Prelude.Dict.{Dict}
use xrandrw.Json.{Json, Key, Result, ok, unavailable, raised}
use xrandrw.Relocate.Plan.{WindowRecord, Live, plan_restore}
use xrandrw.Relocate.Plan.Effect.{plan_move-cases}
use xrandrw.Relocate.Seam.{Seams, State, pure, lift, ◌>>=◌, observe}
use xrandrw.Relocate.Restore.{
  drop, keep, run_plan, resolve_live, carry_out, restore_one, read_live, is_same,
}
use xrandrw.Relocate.Chain.{bind-ok}
use xrandrw.Relocate.Keeps.Plan.{resolve_live-Keeps}
use xrandrw.Relocate.Restore.Tagged.{
  tagged, Adds, AtLeast, AtLeast-IsClosed, tag_first-tagged, tagmon_first-tagged,
}

module _ (S : Seams) (rec : WindowRecord) (ms : List Json) where
  plan-tagged :
      (live : Live) (x : ℤ) (target : Key) (s : State S.World)
      → Adds rec.tags (run_plan S (plan_restore rec live) x target ms true) true s
  unfolding plan_restore
  plan-tagged live x target s = elim (plan_move-cases live) [
    | inl e ↦ rw e (tag_first-tagged S rec.tags _ x target ms s)
    | inr (d, e) ↦ rw e (tagmon_first-tagged S rec.tags d _ x target ms s)
  ]

  done-tagged :
      (n : ℕ) (r : Result Bool) (u : State S.World)
      → (r ≡ ok true → suc n ≤ tagged rec.tags u.trace)
      → ((lift r >>= λ done. pure (if done then drop else keep)) u).0 ≡ ok drop
      → suc n ≤ tagged rec.tags ((lift r >>= λ done. pure (if done then drop else keep)) u).1.trace
  unfolding ◌>>=◌
  done-tagged n (ok true) u a h = a refl
  done-tagged n (ok false) u a h = ground arith
  done-tagged n unavailable u a h = ground arith
  done-tagged n raised u a h = ground arith

  carry_out-tagged :
      (l : Live) (s : State S.World) → Adds rec.tags (carry_out S rec ms (some l)) drop s
  unfolding carry_out ◌>>=◌
  carry_out-tagged l s h =
      let m = run_plan S (plan_restore rec l) rec.xid l.target_monitor ms true in
      done-tagged (tagged rec.tags s.trace) (m s).0 (m s).1
        (plan-tagged l rec.xid l.target_monitor s) h

  unmatched :
      (conns : Dict String Key) (b : Bool) (u : State S.World)
      → ((if b then (read_live S rec ms conns >>= λ live. pure (some live)) else pure none) u).0
        ≡ ok none
      → b ≡ false
  unfolding ◌>>=◌
  unmatched conns true u h =
      let (live, r, e) = bind-ok (read_live S rec ms conns) (λ live. pure (some live)) u none h in
      let bad = sym (ap (λ p. p.0) e) ∙ h in ground (arith, bad)
  unmatched conns false u h = refl

  resolve_live-unmatched :
      (conns : Dict String Key) (s : State S.World)
      → (resolve_live S rec ms conns s).0 ≡ ok none
      → is_same (S.resolve_pid rec.xid s.world).0 rec ≡ false
  unfolding resolve_live observe ◌>>=◌
  resolve_live-unmatched conns s h =
      unmatched conns (is_same (S.resolve_pid rec.xid s.world).0 rec)
        (record s { world = (S.resolve_pid rec.xid s.world).1 }) h

  live-tagged :
      (conns : Dict String Key) (l : Live) (s : State S.World)
      → (restore_one S rec ms conns s
          ≡ carry_out S rec ms (some l) (resolve_live S rec ms conns s).1)
      → Adds rec.tags (restore_one S rec ms conns) drop s
  live-tagged conns l s e h =
      let n = tagged rec.tags s.trace in
      let u = (resolve_live S rec ms conns s).1 in
      let kept : n ≤ tagged rec.tags u.trace =
        (resolve_live-Keeps S (AtLeast S rec.tags n) (AtLeast-IsClosed S rec.tags n) rec ms
            conns).at
          s (omega arith) in
      let more = carry_out-tagged l u (sym (ap (λ p. p.0) e) ∙ h) in
      subst (λ p. suc n ≤ tagged rec.tags p.1.trace) (sym e) (omega (arith, kept, more))

  -- A window that a restore takes off the displaced ones is either not the one that was recorded any
  -- more, its process is gone or has another identity, or dwm has taken a `tag` command with the
  -- recorded tags since the restore of this window began.
  pub restore_one-dropped :
      (conns : Dict String Key) (s : State S.World)
      → (restore_one S rec ms conns s).0 ≡ ok drop
      → (is_same (S.resolve_pid rec.xid s.world).0 rec ≡ false)
        ⊎ (suc (tagged rec.tags s.trace) ≤ tagged rec.tags (restore_one S rec ms conns s).1.trace)
  unfolding restore_one
  restore_one-dropped conns s h =
      let (found, r, e) = bind-ok (resolve_live S rec ms conns) (carry_out S rec ms) s drop h in
      elim (Option-cases found) [
        | inl gone ↦ inl (resolve_live-unmatched conns s (r ∙ ap ok gone))
        | inr (l, live) ↦ inr (
            live-tagged conns l s
              (e ∙ ap (λ f. carry_out S rec ms f (resolve_live S rec ms conns s).1) live) h)
      ]
