-- ===== src/Relocate/Keeps.antt =====
-- What the actions of relocate.py below the cycle leave alone: a predicate that survives a look at
-- the world, a call that is noted in the trace and a focus steal survives a whole restore.
pub mod Walk
pub mod Plan
pub mod GiveBack
use xrandrw.Prelude.{
  ℕ, zero, suc, String, Bool, true, false, Option, none, some, List, [], ◌∷◌, if◌then◌else◌, ◌==◌,
  ltb, Bool-cases, inl, inr, contains, length,
}
use xrandrw.Prelude.Int.{ℤ, int_eq}
use xrandrw.Prelude.Dict.{Dict}
use xrandrw.Json.{Json, Key, key, key_eq, Result, ok, unavailable, raised, as_int}
use xrandrw.Relocate.Plan.{
  WindowRecord, Live, Geometry, Action, tagmon, tag, togglefloating, configure,
}
use xrandrw.Relocate.Seam
use xrandrw.Relocate.Seam.{
  Seams, State, Event, M, pure, lift, or_unavailable, ◌>>=◌, ◌>>◌, request, monitors, dwm_client,
  run_verb, steal_focus, observe,
}
use xrandrw.Relocate.Focus.{
  get_field, on_poll, selected_confirmed, confirm, focus_and_confirm, focus_confirm_tries,
  focusmon_hop, walk_focus, focusmon_to, refocus, restore_focus, selected_monitor, all_client_xids,
}
use xrandrw.Relocate.Tagmon.{
  client_states, monitor_states, read_monitor_states, count_clients, tagmon_would_crash_dwm,
  arrived, hop, guarded_hop, tagmon_to_target,
}
use xrandrw.Relocate.Restore.{
  Step, step_tagmon, step_tag, step_togglefloating, place, step_configure, run_restore_action,
  run_plan, after_step, resolve_live, read_live, carry_out, restore_one, is_same,
}

module _ {W : Type 0} (P : State W → Type 0) where
  -- The changes of state that the primitive actions make.
  pub record IsClosed : Type 0 where
    pub looked : (s : State W) (w : W) → P s → P (record s { world = w })
    pub called :
        (s : State W) (w : W) (e : Event) → P s → P (record s { world = w; trace = e ∷ s.trace })
    pub stole :
        (s : State W) (w : W) (e : Event) (n : ℕ)
        → P s
        → P (record s {
          coordinator = record s.coordinator { focus_calls = n };
          world = w;
          trace = e ∷ s.trace;
        })

  pub record Keeps {A : Type 0} (m : M W A) : Type 0 where
    pub at : (s : State W) → P s → P (m s).1

module _ {W A : Type 0} (P : State W → Type 0) where
  pub keep : (m : M W A) → Keeps P m → (s : State W) → P s → P (m s).1
  keep m h = h.at

  pub Keeps-pure : (a : A) → Keeps P (pure a)
  unfolding ◌>>=◌
  Keeps-pure a = record { at = λ s p. p }

  pub Keeps-lift : (r : Result A) → Keeps P (lift {W = W} r)
  unfolding ◌>>=◌
  Keeps-lift r = record { at = λ s p. p }

  pub Keeps-if : (b : Bool) (m n : M W A) → Keeps P m → Keeps P n → Keeps P (if b then m else n)
  Keeps-if true m n hm hn = hm
  Keeps-if false m n hm hn = hn

  pub Keeps-or_unavailable : (m h : M W A) → Keeps P m → Keeps P h → Keeps P (or_unavailable m h)
  unfolding ◌>>=◌
  Keeps-or_unavailable m h hm hh = record { at = λ s p. go (m s).0 (m s).1 (hm.at s p) }
    where
      go : (r : Result A) (s : State W) → P s → P (or_unavailable (lift r) h s).1
      go (ok a) s p = p
      go unavailable s p = hh.at s p
      go raised s p = p

module _ {W A B : Type 0} (P : State W → Type 0) where
  pub Keeps-bind :
      (m : M W A) (f : A → M W B) → Keeps P m → ((a : A) → Keeps P (f a)) → Keeps P (m >>= f)
  unfolding ◌>>=◌
  Keeps-bind m f hm hf = record { at = λ s p. go (m s).0 (m s).1 (hm.at s p) }
    where
      go : (r : Result A) (s : State W) → P s → P ((lift r >>= f) s).1
      go (ok a) s p = (hf a).at s p
      go unavailable s p = p
      go raised s p = p

  pub Keeps-option :
      (o : Option A) (m : M W B) (f : A → M W B)
      → Keeps P m
      → ((a : A) → Keeps P (f a))
      → Keeps P (elim o [ none ↦ m | some a ↦ f a ])
  Keeps-option none m f hm hf = hm
  Keeps-option (some a) m f hm hf = hf a
