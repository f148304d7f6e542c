-- ===== src/Relocate/Keeps/Plan.antt =====
-- What the restore of one window of relocate.py leaves alone.
use xrandrw.Prelude.{String, Bool, true, false, Option, none, some, List, [], ◌∷◌, if◌then◌else◌}
use xrandrw.Prelude.Int.{ℤ, int_eq}
use xrandrw.Prelude.Dict.{Dict}
use xrandrw.Json.{Json, Key, key_eq, Result, ok, unavailable, raised}
use xrandrw.Relocate.Plan.{
  WindowRecord, Live, Geometry, Action, tagmon, tag, togglefloating, configure,
}
use xrandrw.Relocate.Seam.{Seams, State, M, ◌>>=◌}
use xrandrw.Relocate.Focus.{focus_and_confirm}
use xrandrw.Relocate.Restore.{
  Step, step_tagmon, step_tag, step_togglefloating, place, step_configure, run_restore_action,
  run_plan, after_step, resolve_live, read_live, carry_out, restore_one, is_same,
}
use xrandrw.Relocate.Keeps.{IsClosed, Keeps, keep, Keeps-pure, Keeps-lift, Keeps-if, Keeps-bind}
use xrandrw.Relocate.Keeps.Walk.{
  observe-Keeps, dwm_client-Keeps, run_verb-Keeps, configure-Keeps, focus-Keeps,
  tagmon_to_target-Keeps,
}

module _ (S : Seams) (P : State S.World → Type 0) (closed : IsClosed P) where
  focused-Keeps :
      {A : Type 0} (x : ℤ) (m n : M S.World A)
      → Keeps P m
      → Keeps P n
      → Keeps P (focus_and_confirm S x >>= λ landed. if landed then m else n)
  focused-Keeps x m n hm hn =
      Keeps-bind P _ _ (focus-Keeps S P closed x) λ landed. Keeps-if P landed m n hm hn

  place-Keeps : (x : ℤ) (g : Geometry) (o : Option (ℤ × ℤ)) → Keeps P (place S x g o)
  unfolding place
  place-Keeps x g none = Keeps-pure P _
  place-Keeps x g (some o) =
      focused-Keeps x _ _ (Keeps-bind P _ _ (configure-Keeps S P closed x _) λ _. Keeps-pure P _)
        (Keeps-pure P _)

  pub run_restore_action-Keeps :
      (x : ℤ) (a : Action) (target : Key) (ms : List Json)
      → Keeps P (run_restore_action S x a target ms)
  unfolding run_restore_action step_tagmon step_tag step_togglefloating step_configure
  run_restore_action-Keeps x (tagmon direction) target ms =
      Keeps-bind P _ _ (tagmon_to_target-Keeps S P closed _ x direction target)
        λ status. Keeps-pure P _
  run_restore_action-Keeps x (tag tags) target ms =
      focused-Keeps x _ _
        (Keeps-bind P _ _ (run_verb-Keeps S P closed "tag" _) λ taken. Keeps-pure P _)
        (Keeps-pure P _)
  run_restore_action-Keeps x togglefloating target ms =
      focused-Keeps x _ _
        (Keeps-bind P _ _ (run_verb-Keeps S P closed "togglefloating" _) λ _. Keeps-pure P _)
        (Keeps-pure P _)
  run_restore_action-Keeps x (configure g) target ms =
      Keeps-bind P _ _ (Keeps-lift P _) (place-Keeps x g)

  after_step-Keeps :
      (a : Action) (e : Bool) (r : Result Step) (rest : Bool → M S.World Bool)
      → ((now : Bool) → Keeps P (rest now))
      → Keeps P (after_step a e r rest)
  unfolding after_step
  after_step-Keeps a e (ok (taken, true)) rest h = record { at = λ s p. p }
  after_step-Keeps a e (ok (taken, false)) rest h = record { at = (h _).at }
  after_step-Keeps a e unavailable rest h = record { at = (h _).at }
  after_step-Keeps a e raised rest h = record { at = (h _).at }

  pub run_plan-Keeps :
      (actions : List Action) (x : ℤ) (target : Key) (ms : List Json) (e : Bool)
      → Keeps P (run_plan S actions x target ms e)
  unfolding run_plan
  run_plan-Keeps [] x target ms e = record { at = λ s p. p }
  run_plan-Keeps (a ∷ actions) x target ms e = record {
    at = λ s p.
        keep P _ (after_step-Keeps a e _ _ (λ now. run_plan-Keeps actions x target ms now)) _
          ((run_restore_action-Keeps x a target ms).at s p);
  }

  read_live-Keeps :
      (rec : WindowRecord) (ms : List Json) (conns : Dict String Key)
      → Keeps P (read_live S rec ms conns)
  unfolding read_live
  read_live-Keeps rec ms conns = Keeps-bind P _ _ (dwm_client-Keeps S P closed rec.xid) λ client.
      Keeps-bind P _ _ (Keeps-lift P _) λ current.
        Keeps-bind P _ _ (Keeps-lift P _)
          λ states. Keeps-bind P _ _ (Keeps-lift P _) λ floating. Keeps-pure P _

  carry_out-Keeps :
      (rec : WindowRecord) (ms : List Json) (live : Option Live) → Keeps P (carry_out S rec ms live)
  unfolding carry_out
  carry_out-Keeps rec ms none = Keeps-pure P _
  carry_out-Keeps rec ms (some l) =
      Keeps-bind P _ _ (run_plan-Keeps _ rec.xid l.target_monitor ms true) λ done. Keeps-pure P _

  pub resolve_live-Keeps :
      (rec : WindowRecord) (ms : List Json) (conns : Dict String Key)
      → Keeps P (resolve_live S rec ms conns)
  unfolding resolve_live
  resolve_live-Keeps rec ms conns =
      Keeps-bind P _ _ (observe-Keeps S P closed (S.resolve_pid rec.xid)) λ identity.
        Keeps-if P (is_same identity rec) _ _
          (Keeps-bind P _ _ (read_live-Keeps rec ms conns) λ live. Keeps-pure P _) (Keeps-pure P _)

  pub restore_one-Keeps :
      (rec : WindowRecord) (ms : List Json) (conns : Dict String Key)
      → Keeps P (restore_one S rec ms conns)
  unfolding restore_one
  restore_one-Keeps rec ms conns =
      Keeps-bind P _ _ (resolve_live-Keeps rec ms conns) (carry_out-Keeps rec ms)
