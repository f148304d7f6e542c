-- ===== src/Relocate/Keeps/GiveBack.antt =====
-- What giving back the focus in relocate.py leaves alone.
use xrandrw.Prelude.{
  ℕ, zero, suc, Option, none, some, List, ◌==◌, ltb, Bool-cases, inl, inr, contains, length,
}
use xrandrw.Prelude.Int.{ℤ, int_eq}
use xrandrw.Json.{Json, key_eq, Result, ok, unavailable, raised}
use xrandrw.Relocate.Seam.{Seams, State}
use xrandrw.Relocate.Focus.{
  focusmon_hop, walk_focus, focusmon_to, refocus, restore_focus, selected_monitor, all_client_xids,
}
use xrandrw.Relocate.Keeps.{IsClosed, Keeps, keep, Keeps-pure, Keeps-if, Keeps-bind, Keeps-option}
use xrandrw.Relocate.Keeps.Walk.{monitors-Keeps, run_verb-Keeps, focus-Keeps}

module _ (S : Seams) (P : State S.World → Type 0) (closed : IsClosed P) where
  walk_focus-Keeps :
      (hops : ℕ) (target : ℤ) (ms : List Json) → Keeps P (walk_focus S hops target ms)
  unfolding walk_focus
  walk_focus-Keeps zero target ms = Keeps-pure P _
  walk_focus-Keeps (suc hops) target ms =
      let hop : Keeps P (focusmon_hop S (walk_focus S hops target)) =
        Keeps-bind P _ _ (run_verb-Keeps S P closed "focusmon" _) λ moved.
          Keeps-if P moved _ _
            (Keeps-bind P _ _ (monitors-Keeps S P closed) (walk_focus-Keeps hops target))
            (Keeps-pure P _) in
      Keeps-option P (selected_monitor ms) _ _ hop
        λ n. Keeps-if P (n == target) _ _ (Keeps-pure P _) hop

  focusmon_to-Keeps : (target : Option ℤ) (ms : List Json) → Keeps P (focusmon_to S target ms)
  unfolding focusmon_to
  focusmon_to-Keeps none ms = Keeps-pure P _
  focusmon_to-Keeps (some target) ms =
      Keeps-if P (ltb (length ms) 2) _ _ (Keeps-pure P _) (walk_focus-Keeps _ target ms)

  refocus-Keeps :
      (mon_num : Option ℤ) (x : ℤ) (r : Result (List Json)) → Keeps P (refocus S mon_num x r)
  unfolding refocus
  refocus-Keeps mon_num x unavailable = record { at = λ s p. p }
  refocus-Keeps mon_num x raised = record { at = λ s p. p }
  refocus-Keeps mon_num x (ok ms) = record {
    at = λ s p. elim (Bool-cases (contains x (all_client_xids ms))) [
      | inl live ↦
          rw live (keep P _ (Keeps-bind P _ _ (focus-Keeps S P closed x) λ _. Keeps-pure P _) s p)
      | inr gone ↦ rw gone ((focusmon_to-Keeps mon_num ms).at s p)
    ];
  }

  pub restore_focus-Keeps : (prev : Option (Option ℤ × ℤ)) → Keeps P (restore_focus S prev)
  unfolding restore_focus
  restore_focus-Keeps none = record { at = λ s p. p }
  restore_focus-Keeps (some (mon_num, x)) = record {
    at = λ s p. (refocus-Keeps mon_num x _).at _ ((monitors-Keeps S P closed).at s p);
  }
