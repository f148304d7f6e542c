-- ===== src/Relocate/Gate.antt =====
-- The focus gate of relocate.py, read off the trace of calls: rules for actions that only read, and
-- for actions that send no command before a reply of dwm has named their window.
pub mod Named
use xrandrw.Prelude.{
  ℕ, zero, suc, String, Bool, true, false, ◌&&◌, ◌||◌, ◌≡◌, refl, ◌∙◌, List, [], ◌∷◌, arith, all,
  if◌then◌else◌, Bool-cases, inl, inr,
}
use xrandrw.Prelude.Int.{ℤ}
use xrandrw.Json.{
  Json, null, bool, int, str, obj, arr, nil, cons, items, Result, ok, unavailable, raised, ok_inj,
}
use xrandrw.Ipc.{
  get_monitors, get_dwm_client, run_command, validate_monitors, has_keys, require_list_of_dicts,
}
use xrandrw.Relocate.Plan.{Geometry}
use xrandrw.Relocate.Seam.{
  Seams, Event, focused, configured, sent, State, M, pure, lift, ◌>>=◌, request, monitors,
  dwm_client, run_verb, steal_focus, observe, configure,
}
use xrandrw.Relocate.Focus.{
  clients_field, is_xid, confirmed_from, selected_confirmed, on_poll, confirm, focus_and_confirm,
  focus_confirm_tries,
}
use xrandrw.Relocate.Gate.Named.{confirms, validate_monitors-confirms}

-- Since the last focus request and the last command, a reply has named `x`.
abbrev pub confirmed : ℤ → List Event → Bool
confirmed x [] = false
confirmed x (sent get_monitors (ok body) ∷ es) = confirms body x || confirmed x es
confirmed x (sent get_monitors unavailable ∷ es) = confirmed x es
confirmed x (sent get_monitors raised ∷ es) = confirmed x es
confirmed x (sent (get_dwm_client y) r ∷ es) = confirmed x es
confirmed x (sent (run_command v a) r ∷ es) = false
confirmed x (focused y ∷ es) = false
confirmed x (configured y g ∷ es) = confirmed x es

-- Every command of the trace was sent in such a state.
abbrev pub gated : ℤ → List Event → Bool
gated x [] = true
gated x (sent get_monitors r ∷ es) = gated x es
gated x (sent (get_dwm_client y) r ∷ es) = gated x es
gated x (sent (run_command v a) r ∷ es) = confirmed x es && gated x es
gated x (focused y ∷ es) = gated x es
gated x (configured y g ∷ es) = gated x es

abbrev pub Calm : ℤ → List Event → Type 0
Calm x es = gated x es ≡ true

abbrev pub Ready : ℤ → List Event → Type 0
Ready x es = (gated x es ≡ true) × (confirmed x es ≡ true)

abbrev pub Trace : Type 0
Trace = List Event

-- What a value, or a raise, has to leave behind.
abbrev pub Ends {ℓ} : {A : Type ℓ} → ℤ → (A → Trace → Type 0) → Result A → Trace → Type 0
Ends x Q (ok a) es = Q a es
Ends x Q unavailable es = Calm x es
Ends x Q raised es = Calm x es

Ends-always {ℓ} :
    {A : Type ℓ} (x : ℤ) (r : Result A) (es : Trace) (Q : Trace → Type 0)
    → Calm x es
    → Q es
    → Ends x (λ _. Q) r es
Ends-always x (ok a) es Q c q = q
Ends-always x unavailable es Q c q = c
Ends-always x raised es Q c q = c

confirmed-sent :
    (x : ℤ) (r : Result Json) (es : Trace)
    → confirmed x es ≡ true
    → confirmed x (sent get_monitors r ∷ es) ≡ true
confirmed-sent x (ok body) es h = ground arith
confirmed-sent x unavailable es h = h
confirmed-sent x raised es h = h

module _ {W A : Type 0} where
  -- The action sends no command and requests no focus.
  pub record IsRead (x : ℤ) (m : M W A) : Type 0 where
    pub calm : (s : State W) → gated x (m s).1.trace ≡ gated x s.trace
    pub holds : (s : State W) → confirmed x s.trace ≡ true → confirmed x (m s).1.trace ≡ true

  -- From a trace that meets `P` the action ends, with a value `a`, in one that meets `Q a`, or raises
  -- in one whose commands were all sent to `x`.
  pub record Gated (x : ℤ) (P : Trace → Type 0) (m : M W A) (Q : A → Trace → Type 0) : Type 0 where
    pub run : (s : State W) → P s.trace → Ends x Q (m s).0 (m s).1.trace

  pub Gated-read : (x : ℤ) (m : M W A) → IsRead x m → Gated x (Ready x) m (λ _. Ready x)
  Gated-read x m h = record {
    run = λ s p.
        Ends-always x (m s).0 (m s).1.trace (Ready x) (h.calm s ∙ p.0)
          (h.calm s ∙ p.0, h.holds s p.1);
  }

  pub Gated-read-Calm : (x : ℤ) (m : M W A) → IsRead x m → Gated x (Calm x) m (λ _. Calm x)
  Gated-read-Calm x m h = record {
    run = λ s p. Ends-always x (m s).0 (m s).1.trace (Calm x) (h.calm s ∙ p) (h.calm s ∙ p);
  }

  pub Gated-pure :
      (x : ℤ) (a : A) (P : Trace → Type 0) (Q : A → Trace → Type 0)
      → ((es : Trace) → P es → Q a es)
      → Gated x P (pure a) Q
  unfolding ◌>>=◌
  Gated-pure x a P Q h = record { run = λ s p. h s.trace p }

  pub Gated-if :
      (x : ℤ) (b : Bool) (P : Trace → Type 0) (m n : M W A) (Q : A → Trace → Type 0)
      → Gated x P m Q
      → Gated x P n Q
      → Gated x P (if b then m else n) Q
  Gated-if x true P m n Q hm hn = hm
  Gated-if x false P m n Q hm hn = hn

  pub IsRead-pure : (x : ℤ) (a : A) → IsRead x (pure {W = W} a)
  unfolding ◌>>=◌
  IsRead-pure x a = record { calm = λ s. refl; holds = λ s h. h }

  pub IsRead-lift : (x : ℤ) (r : Result A) → IsRead x (lift {W = W} r)
  unfolding ◌>>=◌
  IsRead-lift x r = record { calm = λ s. refl; holds = λ s h. h }

module _ {W A B : Type 0} (x : ℤ) where
  pub IsRead-bind :
      (m : M W A) (f : A → M W B) → IsRead x m → ((a : A) → IsRead x (f a)) → IsRead x (m >>= f)
  unfolding ◌>>=◌
  IsRead-bind m f hm hf = record {
    calm = λ s. calm_of (m s).0 (m s).1 ∙ hm.calm s;
    holds = λ s h. holds_of (m s).0 (m s).1 (hm.holds s h);
  }
    where
      calm_of : (r : Result A) (s : State W) → gated x ((lift r >>= f) s).1.trace ≡ gated x s.trace
      calm_of (ok a) s = (hf a).calm s
      calm_of unavailable s = refl
      calm_of raised s = refl

      holds_of :
          (r : Result A) (s : State W)
          → confirmed x s.trace ≡ true
          → confirmed x ((lift r >>= f) s).1.trace ≡ true
      holds_of (ok a) s h = (hf a).holds s h
      holds_of unavailable s h = h
      holds_of raised s h = h

  pub Gated-bind :
      (P : Trace → Type 0) (m : M W A) (Q : A → Trace → Type 0) (f : A → M W B)
      (R : B → Trace → Type 0)
      → Gated x P m Q
      → ((a : A) → Gated x (Q a) (f a) R)
      → Gated x P (m >>= f) R
  unfolding ◌>>=◌
  Gated-bind P m Q f R hm hf = record { run = λ s p. go (m s).0 (m s).1 (hm.run s p) }
    where
      go :
          (r : Result A) (s : State W)
          → Ends x Q r s.trace
          → Ends x R ((lift r >>= f) s).0 ((lift r >>= f) s).1.trace
      go (ok a) s q = (hf a).run s q
      go unavailable s q = q
      go raised s q = q

module _ (S : Seams) (x : ℤ) where
  -- The calls of dwm, and what each leaves in the trace.
  monitors_request-IsRead : IsRead x (request S get_monitors)
  unfolding request
  monitors_request-IsRead = record {
    calm = λ s. refl;
    holds = λ s h. confirmed-sent x (S.request get_monitors s.world).0 s.trace h;
  }

  pub observe-IsRead : {A : Type 0} (f : S.World → A × S.World) → IsRead x (observe S f)
  unfolding observe
  observe-IsRead f = record { calm = λ s. refl; holds = λ s h. h }

  client_request-IsRead : (y : ℤ) → IsRead x (request S (get_dwm_client y))
  unfolding request
  client_request-IsRead y = record { calm = λ s. refl; holds = λ s h. h }

  pub dwm_client-IsRead : (y : ℤ) → IsRead x (dwm_client S y)
  unfolding dwm_client
  dwm_client-IsRead y = IsRead-bind x _ _ (client_request-IsRead y) (λ body. IsRead-lift x _)

  pub monitors-IsRead : IsRead x (monitors S)
  unfolding monitors
  monitors-IsRead = IsRead-bind x _ _ monitors_request-IsRead (λ body. IsRead-lift x _)

  command_request-Gated :
      (verb : String) (args : List ℤ)
      → Gated x (Ready x) (request S (run_command verb args)) (λ _. Calm x)
  unfolding request
  command_request-Gated verb args = record {
    run = λ s p. Ends-always x _ _ (Calm x) (ground arith) (ground arith);
  }

  -- A command wants a confirmed focus.
  pub run_verb-Gated :
      (verb : String) (args : List ℤ) → Gated x (Ready x) (run_verb S verb args) (λ _. Calm x)
  unfolding run_verb ◌>>=◌
  run_verb-Gated verb args =
      Gated-if x S.is_refused (Ready x) _ _ (λ _. Calm x) (record { run = λ s p. p.0 })
        (Gated-bind x (Ready x) _ (λ _. Calm x) _ (λ _. Calm x) (command_request-Gated verb args)
          (λ reply. Gated-pure x _ (Calm x) _ (λ es c. c)))

  pub steal_focus-Gated : (y : ℤ) → Gated x (Calm x) (steal_focus S y) (λ _. Calm x)
  unfolding steal_focus
  steal_focus-Gated y = record { run = λ s p. p }

  pub configure-Gated : (y : ℤ) (g : Geometry) → Gated x (Ready x) (configure S y g) (λ _. Ready x)
  unfolding configure
  configure-Gated y g = record { run = λ s p. p }

module _ (S : Seams) (x : ℤ) where
  monitors-confirms :
      (s : State S.World) (ms : List Json)
      → (monitors S s).0 ≡ ok ms
      → selected_confirmed ms x ≡ true
      → confirmed x (monitors S s).1.trace ≡ true
  unfolding monitors request ◌>>=◌
  monitors-confirms s ms h c = go (S.request get_monitors s.world).0 refl
    where
      go :
          (r : Result Json)
          → (S.request get_monitors s.world).0 ≡ r
          → confirmed x (monitors S s).1.trace ≡ true
      go (ok body) q = ground (arith, q, h, c, validate_monitors-confirms body ms x)
      go unavailable q = ground (arith, q, h, c)
      go raised q = ground (arith, q, h, c)

  abbrev pub Landed : Bool → Trace → Type 0
  Landed landed = if landed then Ready x else Calm x

  on_poll-Ends :
      (again : M S.World Bool) (r : Result (List Json)) (s : State S.World)
      → Calm x s.trace
      → ((ms : List Json) → r ≡ ok ms → selected_confirmed ms x ≡ true → confirmed x s.trace ≡ true)
      → Gated x (Calm x) again Landed
      → Ends x Landed (on_poll x again r s).0 (on_poll x again r s).1.trace
  unfolding on_poll
  on_poll-Ends again unavailable s c k g = c
  on_poll-Ends again raised s c k g = c
  on_poll-Ends again (ok ms) s c k g = elim (Bool-cases (selected_confirmed ms x)) [
    | inl hit ↦ rw hit (c, k ms refl hit)
    | inr miss ↦ rw miss (g.run s c)
  ]

  pub confirm-Gated : (tries : ℕ) → Gated x (Calm x) (confirm S tries x) Landed
  unfolding confirm
  confirm-Gated zero = record { run = λ s p. p }
  confirm-Gated (suc tries) = record {
    run = λ s p.
        on_poll-Ends _ (monitors S s).0 (monitors S s).1 ((monitors-IsRead S x).calm s ∙ p)
          (monitors-confirms s)
          (Gated-bind x (Calm x) _ (λ _. Calm x) _ Landed
            (Gated-read-Calm x _ (observe-IsRead S x (λ w. (tt, S.sleep w))))
            (λ _. confirm-Gated tries));
  }

  pub focus_and_confirm-Gated : Gated x (Calm x) (focus_and_confirm S x) Landed
  unfolding focus_and_confirm
  focus_and_confirm-Gated =
      Gated-bind x (Calm x) _ (λ _. Calm x) _ Landed (steal_focus-Gated S x x)
        (λ _. confirm-Gated focus_confirm_tries)
