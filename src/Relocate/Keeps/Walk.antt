-- ===== src/Relocate/Keeps/Walk.antt =====
-- What the calls of relocate.py and its walk of one window leave alone.
use xrandrw.Prelude.{ℕ, zero, suc, String, Bool, List, [], ◌∷◌, ◌==◌, ltb, Bool-cases, inl, inr}
use xrandrw.Prelude.Int.{ℤ, int_eq}
use xrandrw.Json.{Json, Key, key, key_eq, Result, ok, unavailable, raised, as_int}
use xrandrw.Relocate.Plan.{Geometry}
use xrandrw.Relocate.Seam
use xrandrw.Relocate.Seam.{
  Seams, State, Event, M, pure, lift, or_unavailable, ◌>>=◌, ◌>>◌, request, monitors, dwm_client,
  run_verb, steal_focus, observe,
}
use xrandrw.Relocate.Focus.{
  get_field, on_poll, selected_confirmed, confirm, focus_and_confirm, focus_confirm_tries,
}
use xrandrw.Relocate.Tagmon.{
  client_states, monitor_states, read_monitor_states, count_clients, tagmon_would_crash_dwm,
  arrived, hop, guarded_hop, tagmon_to_target,
}
use xrandrw.Relocate.Keeps.{
  IsClosed, Keeps, keep, Keeps-pure, Keeps-lift, Keeps-if, Keeps-or_unavailable, Keeps-bind,
  Keeps-option,
}

module _ (S : Seams) (P : State S.World → Type 0) (closed : IsClosed P) where
  pub observe-Keeps : {A : Type 0} (f : S.World → A × S.World) → Keeps P (observe S f)
  unfolding observe
  observe-Keeps f = record { at = λ s p. closed.looked s (f s.world).1 p }

  pub monitors-Keeps : Keeps P (monitors S)
  unfolding monitors request
  monitors-Keeps =
      Keeps-bind P _ _ (record { at = λ s p. closed.called s _ _ p }) (λ body. Keeps-lift P _)

  pub dwm_client-Keeps : (y : ℤ) → Keeps P (dwm_client S y)
  unfolding dwm_client request
  dwm_client-Keeps y =
      Keeps-bind P _ _ (record { at = λ s p. closed.called s _ _ p }) (λ body. Keeps-lift P _)

  pub run_verb-Keeps : (verb : String) (args : List ℤ) → Keeps P (run_verb S verb args)
  unfolding run_verb request
  run_verb-Keeps verb args =
      Keeps-if P S.is_refused _ _ (Keeps-lift P raised)
        (Keeps-bind P _ _ (record { at = λ s p. closed.called s _ _ p }) (λ reply. Keeps-pure P _))

  pub steal_focus-Keeps : (x : ℤ) → Keeps P (steal_focus S x)
  unfolding steal_focus
  steal_focus-Keeps x = record { at = λ s p. closed.stole s _ _ _ p }

  pub configure-Keeps : (x : ℤ) (g : Geometry) → Keeps P (Seam.configure S x g)
  unfolding Seam.configure
  configure-Keeps x g = record { at = λ s p. closed.called s _ _ p }

  pub on_poll-Keeps :
      (x : ℤ) (again : M S.World Bool) (r : Result (List Json))
      → Keeps P again
      → Keeps P (on_poll x again r)
  unfolding on_poll
  on_poll-Keeps x again unavailable h = record { at = λ s p. p }
  on_poll-Keeps x again raised h = record { at = λ s p. p }
  on_poll-Keeps x again (ok ms) h = record {
    at = λ s p. elim (Bool-cases (selected_confirmed ms x)) [
      | inl hit ↦ rw hit p
      | inr miss ↦ rw miss (h.at s p)
    ];
  }

  pub confirm-Keeps : (tries : ℕ) (x : ℤ) → Keeps P (confirm S tries x)
  unfolding confirm
  confirm-Keeps zero x = record { at = λ s p. p }
  confirm-Keeps (suc tries) x = record {
    at = λ s p.
        keep P _
          (on_poll-Keeps x _ (monitors S s).0
            (Keeps-bind P _ _ (observe-Keeps (λ w. (tt, S.sleep w))) (λ _. confirm-Keeps tries x)))
          (monitors S s).1 (monitors-Keeps.at s p);
  }

  pub focus-Keeps : (x : ℤ) → Keeps P (focus_and_confirm S x)
  unfolding focus_and_confirm
  focus-Keeps x = Keeps-bind P _ _ (steal_focus-Keeps x) (λ _. confirm-Keeps focus_confirm_tries x)

  pub client_states-Keeps : (xs : List Json) → Keeps P (client_states S xs)
  unfolding client_states
  client_states-Keeps [] = Keeps-pure P _
  client_states-Keeps (j ∷ xs) = Keeps-option P (as_int j) _ _ (Keeps-pure P _) λ y.
      Keeps-bind P _ _ (dwm_client-Keeps y) λ c. Keeps-bind P _ _ (Keeps-lift P _) λ floating.
        Keeps-option P (as_int (get_field "tags" c)) _ _ (Keeps-pure P _) λ tags.
          Keeps-bind P _ _ (client_states-Keeps xs)
            λ more. Keeps-option P more _ _ (Keeps-pure P _) λ cs. Keeps-pure P _

  pub monitor_states-Keeps : (ms : List Json) → Keeps P (monitor_states S ms)
  unfolding monitor_states
  monitor_states-Keeps [] = Keeps-pure P _
  monitor_states-Keeps (m ∷ ms) = Keeps-bind P _ _ (Keeps-lift P _) λ current.
      Keeps-option P (as_int current) _ _ (Keeps-pure P _) λ tagset.
        Keeps-bind P _ _ (client_states-Keeps _) λ found.
          Keeps-option P found _ _ (Keeps-pure P _) λ cs.
            Keeps-bind P _ _ (monitor_states-Keeps ms) λ more.
              Keeps-option P more _ _ (Keeps-pure P _) λ ns.
                Keeps-option P (as_int (get_field "num" m)) _ _ (Keeps-pure P _) λ n. Keeps-pure P _

  pub would_crash-Keeps : (y direction : ℤ) → Keeps P (tagmon_would_crash_dwm S y direction)
  unfolding tagmon_would_crash_dwm read_monitor_states
  would_crash-Keeps y direction =
      Keeps-or_unavailable P _ _
        (Keeps-bind P _ _ monitors-Keeps λ ms.
          Keeps-bind P _ _
            (Keeps-option P (count_clients ms) _ _ (Keeps-pure P _)
              λ total. Keeps-if P (ltb 64 total) _ _ (Keeps-pure P _) (monitor_states-Keeps ms))
            λ mons. Keeps-option P mons _ _ (Keeps-pure P _) λ states. Keeps-pure P _)
        (Keeps-pure P _)

  pub tagmon_to_target-Keeps :
      (hops : ℕ) (x direction : ℤ) (target : Key)
      → Keeps P (tagmon_to_target S hops x direction target)
  unfolding tagmon_to_target guarded_hop hop arrived
  tagmon_to_target-Keeps zero x direction target = Keeps-pure P _
  tagmon_to_target-Keeps (suc hops) x direction target = Keeps-bind P _ _ (focus-Keeps x) λ landed.
      Keeps-if P landed _ _
        (Keeps-bind P _ _ (would_crash-Keeps x direction) λ unsafe.
          Keeps-if P unsafe _ _ (Keeps-pure P _) (
            Keeps-bind P _ _ (run_verb-Keeps "tagmon" (direction ∷ [])) λ moved.
              Keeps-if P moved _ _
                (Keeps-bind P _ _ (dwm_client-Keeps x) λ client.
                  Keeps-bind P _ _ (Keeps-lift P _) λ cur.
                    Keeps-if P (key cur == target) _ _ (Keeps-pure P _)
                      (tagmon_to_target-Keeps hops x direction target))
                (Keeps-pure P _)))
        (Keeps-pure P _)
