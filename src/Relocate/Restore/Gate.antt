-- ===== src/Relocate/Restore/Gate.antt =====
-- The commands of a restore (relocate.py, `_restore_one`) and the replies of dwm that they follow.
use xrandrw.Prelude.{
  ℕ, zero, suc, String, Bool, true, false, ◌≡◌, refl, ◌∙◌, Option, none, some, List, [], ◌∷◌,
  if◌then◌else◌, ◌==◌, ltb,
}
use xrandrw.Prelude.Int.{ℤ, int_eq}
use xrandrw.Prelude.Dict.{Dict}
use xrandrw.Json.{Json, Key, Result, ok, unavailable, raised, as_int, key, key_eq}
use xrandrw.Relocate.Plan.{
  Geometry, WindowRecord, Live, Action, tagmon, tag, togglefloating, configure,
}
use xrandrw.Relocate.Seam.{Seams, State, M, pure, lift, or_unavailable, ◌>>=◌}
use xrandrw.Relocate.Focus.{get_field, focus_and_confirm}
use xrandrw.Relocate.Gate.{
  Trace, Calm, Ready, Ends, IsRead, Gated, gated, confirmed, IsRead-pure, IsRead-lift, IsRead-bind,
  Gated-read, Gated-read-Calm, Gated-pure, Gated-if, Gated-bind, dwm_client-IsRead, monitors-IsRead,
  observe-IsRead, run_verb-Gated, configure-Gated, Landed, focus_and_confirm-Gated,
}
use xrandrw.Relocate.Tagmon.{
  Status, step_ok, step_failed, step_focus_lost, client_states, monitor_states, read_monitor_states,
  count_clients, tagmon_would_crash_dwm, arrived, hop, guarded_hop, tagmon_to_target,
}
use xrandrw.Relocate.Restore.{
  Step, drop, step_tagmon, step_tag, step_togglefloating, step_configure, run_restore_action, place,
  carry_out, run_plan, after_step, resolve_live, read_live, restore_one, is_same, step_of,
}

IsRead-option :
    {W A B : Type 0} (x : ℤ) (o : Option A) (m : M W B) (f : A → M W B)
    → IsRead x m
    → ((a : A) → IsRead x (f a))
    → IsRead x (elim o [ none ↦ m | some a ↦ f a ])
IsRead-option x none m f hm hf = hm
IsRead-option x (some a) m f hm hf = hf a

IsRead-if :
    {W A : Type 0} (x : ℤ) (b : Bool) (m n : M W A)
    → IsRead x m
    → IsRead x n
    → IsRead x (if b then m else n)
IsRead-if x true m n hm hn = hm
IsRead-if x false m n hm hn = hn

module _ {W A : Type 0} (x : ℤ) (h : M W A) (hh : IsRead x h) where
  or_unavailable-calm :
      (r : Result A) (s : State W) → gated x (or_unavailable (lift r) h s).1.trace ≡ gated x s.trace
  unfolding ◌>>=◌
  or_unavailable-calm (ok a) s = refl
  or_unavailable-calm unavailable s = hh.calm s
  or_unavailable-calm raised s = refl

  or_unavailable-holds :
      (r : Result A) (s : State W)
      → confirmed x s.trace ≡ true
      → confirmed x (or_unavailable (lift r) h s).1.trace ≡ true
  unfolding ◌>>=◌
  or_unavailable-holds (ok a) s c = c
  or_unavailable-holds unavailable s c = hh.holds s c
  or_unavailable-holds raised s c = c

  IsRead-or_unavailable : (m : M W A) → IsRead x m → IsRead x (or_unavailable m h)
  unfolding ◌>>=◌
  IsRead-or_unavailable m hm = record {
    calm = λ s. or_unavailable-calm (m s).0 (m s).1 ∙ hm.calm s;
    holds = λ s c. or_unavailable-holds (m s).0 (m s).1 (hm.holds s c);
  }

module _ (S : Seams) (x : ℤ) where
  client_states-IsRead : (xs : List Json) → IsRead x (client_states S xs)
  unfolding client_states
  client_states-IsRead [] = IsRead-pure x _
  client_states-IsRead (j ∷ xs) = IsRead-option x (as_int j) _ _ (IsRead-pure x _) λ y.
      IsRead-bind x _ _ (dwm_client-IsRead S x y) λ c.
        IsRead-bind x _ _ (IsRead-lift x _) λ floating.
          IsRead-option x (as_int (get_field "tags" c)) _ _ (IsRead-pure x _) λ tags.
            IsRead-bind x _ _ (client_states-IsRead xs)
              λ more. IsRead-option x more _ _ (IsRead-pure x _) λ cs. IsRead-pure x _

  monitor_states-IsRead : (ms : List Json) → IsRead x (monitor_states S ms)
  unfolding monitor_states
  monitor_states-IsRead [] = IsRead-pure x _
  monitor_states-IsRead (m ∷ ms) = IsRead-bind x _ _ (IsRead-lift x _) λ current.
      IsRead-option x (as_int current) _ _ (IsRead-pure x _) λ tagset.
        IsRead-bind x _ _ (client_states-IsRead _) λ found.
          IsRead-option x found _ _ (IsRead-pure x _) λ cs.
            IsRead-bind x _ _ (monitor_states-IsRead ms) λ more.
              IsRead-option x more _ _ (IsRead-pure x _) λ ns.
                IsRead-option x (as_int (get_field "num" m)) _ _ (IsRead-pure x _)
                  λ n. IsRead-pure x _

  read_monitor_states-IsRead : (ms : List Json) → IsRead x (read_monitor_states S ms)
  unfolding read_monitor_states
  read_monitor_states-IsRead ms =
      IsRead-option x (count_clients ms) _ _ (IsRead-pure x _)
        λ total. IsRead-if x (ltb 64 total) _ _ (IsRead-pure x _) (monitor_states-IsRead ms)

  would_crash-IsRead : (y direction : ℤ) → IsRead x (tagmon_would_crash_dwm S y direction)
  unfolding tagmon_would_crash_dwm
  would_crash-IsRead y direction = IsRead-or_unavailable x _ (IsRead-pure x true) _ (
      IsRead-bind x _ _ (monitors-IsRead S x) λ ms.
        IsRead-bind x _ _ (read_monitor_states-IsRead ms)
          λ mons. IsRead-option x mons _ _ (IsRead-pure x _) λ states. IsRead-pure x _)

  Calm-of_Landed : (landed : Bool) (es : Trace) → Landed S x landed es → Calm x es
  Calm-of_Landed true es h = h.0
  Calm-of_Landed false es h = h

  -- A focus that was confirmed opens the gate for what follows; else the calm goes on.
  Gated-focus :
      {A : Type 0} (m n : M S.World A) (Q : A → Trace → Type 0)
      → Gated x (Ready x) m Q
      → Gated x (Calm x) n Q
      → Gated x (Calm x) (focus_and_confirm S x >>= λ landed. if landed then m else n) Q
  Gated-focus m n Q hm hn =
      Gated-bind x (Calm x) _ (Landed S x) _ Q (focus_and_confirm-Gated S x)
        λ landed. record { run = λ s p. branch landed s p }
    where
      branch :
          (landed : Bool) (s : State S.World)
          → Landed S x landed s.trace
          → Ends x Q ((if landed then m else n) s).0 ((if landed then m else n) s).1.trace
      branch true s p = hm.run s p
      branch false s p = hn.run s p

  abbrev pub StaysCalm : {A : Type 0} → A → Trace → Type 0
  StaysCalm _ = Calm x

  Gated-Calm-pure : {A : Type 0} (a : A) → Gated x (Calm x) (pure {W = S.World} a) StaysCalm
  Gated-Calm-pure a = Gated-pure x a (Calm x) StaysCalm (λ es c. c)

  Gated-Ready-pure : {A : Type 0} (a : A) → Gated x (Ready x) (pure {W = S.World} a) StaysCalm
  Gated-Ready-pure a = Gated-pure x a (Ready x) StaysCalm (λ es c. c.0)

  arrived-Gated :
      (target : Key) (again : M S.World Status)
      → Gated x (Calm x) again StaysCalm
      → Gated x (Calm x) (arrived S x target again) StaysCalm
  unfolding arrived
  arrived-Gated target again h =
      Gated-bind x (Calm x) _ StaysCalm _ StaysCalm (Gated-read-Calm x _ (dwm_client-IsRead S x x))
        λ client.
          Gated-bind x (Calm x) _ StaysCalm _ StaysCalm (Gated-read-Calm x _ (IsRead-lift x _))
            λ cur. Gated-if x (key cur == target) (Calm x) _ _ StaysCalm (Gated-Calm-pure step_ok) h

  guarded_hop-Gated :
      (direction : ℤ) (target : Key) (again : M S.World Status)
      → Gated x (Calm x) again StaysCalm
      → Gated x (Ready x) (guarded_hop S x direction target again) StaysCalm
  unfolding guarded_hop hop
  guarded_hop-Gated direction target again h =
      Gated-bind x (Ready x) _ (λ _. Ready x) _ StaysCalm
        (Gated-read x _ (would_crash-IsRead x direction))
        λ unsafe. Gated-if x unsafe (Ready x) _ _ StaysCalm (Gated-Ready-pure step_failed) (
          Gated-bind x (Ready x) _ StaysCalm _ StaysCalm
            (run_verb-Gated S x "tagmon" (direction ∷ []))
            λ moved.
              Gated-if x moved (Calm x) _ _ StaysCalm (arrived-Gated target again h)
                (Gated-Calm-pure step_failed))

  tagmon_to_target-Gated :
      (hops : ℕ) (direction : ℤ) (target : Key)
      → Gated x (Calm x) (tagmon_to_target S hops x direction target) StaysCalm
  unfolding tagmon_to_target
  tagmon_to_target-Gated zero direction target = Gated-Calm-pure step_failed
  tagmon_to_target-Gated (suc hops) direction target =
      Gated-focus _ _ StaysCalm
        (guarded_hop-Gated direction target _ (tagmon_to_target-Gated hops direction target))
        (Gated-Calm-pure step_focus_lost)

  step_tagmon-Gated :
      (direction : ℤ) (target : Key) (n : ℕ)
      → Gated x (Calm x) (step_tagmon S x direction target n) StaysCalm
  unfolding step_tagmon
  step_tagmon-Gated direction target n =
      Gated-bind x (Calm x) _ StaysCalm _ StaysCalm (tagmon_to_target-Gated n direction target)
        λ status. Gated-Calm-pure (step_of status)

  step_tag-Gated : (tags : ℤ) → Gated x (Calm x) (step_tag S x tags) StaysCalm
  unfolding step_tag
  step_tag-Gated tags =
      Gated-focus _ _ StaysCalm
        (Gated-bind x (Ready x) _ StaysCalm _ StaysCalm (run_verb-Gated S x "tag" (tags ∷ []))
          λ taken. Gated-Calm-pure (taken, false))
        (Gated-Calm-pure (false, true))

  step_togglefloating-Gated : Gated x (Calm x) (step_togglefloating S x) StaysCalm
  unfolding step_togglefloating
  step_togglefloating-Gated =
      Gated-focus _ _ StaysCalm
        (Gated-bind x (Ready x) _ StaysCalm _ StaysCalm (run_verb-Gated S x "togglefloating" [])
          λ _. Gated-Calm-pure (true, false))
        (Gated-Calm-pure (false, true))

  place-Gated :
      (g : Geometry) (origin : Option (ℤ × ℤ)) → Gated x (Calm x) (place S x g origin) StaysCalm
  unfolding place
  place-Gated g none = Gated-Calm-pure (true, false)
  place-Gated g (some o) =
      Gated-focus _ _ StaysCalm
        (Gated-bind x (Ready x) _ (λ _. Ready x) _ StaysCalm (configure-Gated S x x _)
          λ _. Gated-Ready-pure (true, false))
        (Gated-Calm-pure (false, true))

  run_restore_action-Gated :
      (a : Action) (target : Key) (ms : List Json)
      → Gated x (Calm x) (run_restore_action S x a target ms) StaysCalm
  unfolding run_restore_action step_configure
  run_restore_action-Gated (tagmon direction) target ms = step_tagmon-Gated direction target _
  run_restore_action-Gated (tag tags) target ms = step_tag-Gated tags
  run_restore_action-Gated togglefloating target ms = step_togglefloating-Gated
  run_restore_action-Gated (configure g) target ms =
      Gated-bind x (Calm x) _ StaysCalm _ StaysCalm (Gated-read-Calm x _ (IsRead-lift x _))
        (place-Gated g)

  after_step-Ends :
      (a : Action) (e : Bool) (r : Result Step) (rest : Bool → M S.World Bool) (s : State S.World)
      → Ends x StaysCalm r s.trace
      → ((now : Bool) → Gated x (Calm x) (rest now) StaysCalm)
      → Ends x StaysCalm (after_step a e r rest s).0 (after_step a e r rest s).1.trace
  unfolding after_step
  after_step-Ends a e (ok (taken, true)) rest s c h = c
  after_step-Ends a e (ok (taken, false)) rest s c h = (h _).run s c
  after_step-Ends a e unavailable rest s c h = (h _).run s c
  after_step-Ends a e raised rest s c h = (h _).run s c

  run_plan-Gated :
      (actions : List Action) (target : Key) (ms : List Json) (e : Bool)
      → Gated x (Calm x) (run_plan S actions x target ms e) StaysCalm
  unfolding run_plan
  run_plan-Gated [] target ms e = record { run = λ s c. c }
  run_plan-Gated (a ∷ actions) target ms e = record {
    run = λ s c.
        after_step-Ends a e _ _ _ ((run_restore_action-Gated a target ms).run s c)
          (λ now. run_plan-Gated actions target ms now);
  }

module _ (S : Seams) (rec : WindowRecord) (ms : List Json) (conn_to_mon : Dict String Key) where
  resolve_live-IsRead : IsRead rec.xid (resolve_live S rec ms conn_to_mon)
  unfolding resolve_live read_live
  resolve_live-IsRead = IsRead-bind rec.xid _ _ (observe-IsRead S rec.xid _) λ identity.
      IsRead-if rec.xid (is_same identity rec) _ _
        (IsRead-bind rec.xid _ _
          (IsRead-bind rec.xid _ _ (dwm_client-IsRead S rec.xid rec.xid) λ client.
            IsRead-bind rec.xid _ _ (IsRead-lift rec.xid _) λ current.
              IsRead-bind rec.xid _ _ (IsRead-lift rec.xid _) λ states.
                IsRead-bind rec.xid _ _ (IsRead-lift rec.xid _) λ floating. IsRead-pure rec.xid _)
          λ live. IsRead-pure rec.xid _)
        (IsRead-pure rec.xid _)

  carry_out-Gated :
      (live : Option Live)
      → Gated rec.xid (Calm rec.xid) (carry_out S rec ms live) (λ _. Calm rec.xid)
  unfolding carry_out
  carry_out-Gated none = Gated-Calm-pure S rec.xid drop
  carry_out-Gated (some l) =
      Gated-bind rec.xid (Calm rec.xid) _ (λ _. Calm rec.xid) _ (λ _. Calm rec.xid)
        (run_plan-Gated S rec.xid _ l.target_monitor ms true) λ done. Gated-Calm-pure S rec.xid _

  restore_one-Gated :
      Gated rec.xid (Calm rec.xid) (restore_one S rec ms conn_to_mon) (λ _. Calm rec.xid)
  unfolding restore_one
  restore_one-Gated =
      Gated-bind rec.xid (Calm rec.xid) _ (λ _. Calm rec.xid) _ (λ _. Calm rec.xid)
        (Gated-read-Calm rec.xid _ resolve_live-IsRead) carry_out-Gated

Calm-of_Ends :
    {A : Type 0} (x : ℤ) (r : Result A) (es : Trace) → Ends x (λ _. Calm x) r es → Calm x es
Calm-of_Ends x (ok a) es c = c
Calm-of_Ends x unavailable es c = c
Calm-of_Ends x raised es c = c

-- Whatever dwm answers and however the restore ends, every command that the restore of a window
-- sends (`tagmon`, `tag`, `togglefloating`) follows a reply of dwm that names the window as the
-- selected client of some monitor, the selected monitor or another, with no focus request and no other
-- command in between. Replies in between may name other windows.
pub restore_one-gated :
    (S : Seams) (rec : WindowRecord) (ms : List Json) (conn_to_mon : Dict String Key)
    (s : State S.World)
    → gated rec.xid s.trace ≡ true
    → gated rec.xid (restore_one S rec ms conn_to_mon s).1.trace ≡ true
restore_one-gated S rec ms conn_to_mon s c =
    Calm-of_Ends rec.xid _ _ ((restore_one-Gated S rec ms conn_to_mon).run s c)
