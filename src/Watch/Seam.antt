-- ===== src/Watch/Seam.antt =====
-- xrandrw/watch.py: the state between the wakeups, and the seams that a wakeup acts through. Each
-- apply and each call of the coordinator is noted in a trace, the latest first.
use xrandrw.Prelude.{ℕ, String, Bool, Option, none, some, List, [], ◌∷◌}
use xrandrw.Outputs.{Part, Outputs, unhealed_outputs, connected_names, topology_hash_from_outputs}
use xrandrw.Apply.{Verdict}

-- The `churn` dict; a key that is missing is `none`, or zero for `unhealed`.
pub record Churn : Type 0 where
  pub times : List ℕ
  pub backoff : ℕ
  pub window : ℕ
  pub threshold : ℕ
  pub apply_done_at : Option ℕ
  pub present : Option (List String)
  pub unhealed : ℕ

pub data Effect : Type 0 where
  applied : Verdict → Effect
  hooked : Effect

pub record Seams : Type 1 where
  pub World : Type 0
  -- `time.monotonic`, `time.sleep` and `stop_evt.wait`
  pub monotonic : World → ℕ × World
  pub sleep : ℕ → World → World
  pub wait : ℕ → World → Bool × World
  -- `RandRReader().read`, `none` where it raises
  pub read : World → Option Outputs × World
  -- `apply_once`
  pub apply_once : World → Verdict × World
  -- the digest of the topology's parts
  pub digest : List Part → String
  -- the coordinator's `on_settled`, whose exceptions are swallowed, where there is a coordinator
  pub on_settled : Option (World → World)

pub record State (World : Type 0) : Type 0 where
  pub churn : Churn
  pub world : World
  pub trace : List Effect

-- A step that may raise.
abbrev pub M : Type 0 → Type 0 → Type 0
M W A = State W → Option A × State W

module _ {W A : Type 0} where
  abbrev pub pure : A → M W A
  pure a s = (some a, s)

  abbrev pub give_up : M W A
  give_up s = (none, s)

module _ {W A B : Type 0} where
  abbrev pub resume : (A → M W B) → Option A → M W B
  resume f none s = (none, s)
  resume f (some a) s = f a s

  infixl 5 ◌>>=◌ ◌>>◌
  unfoldable pub ◌>>=◌ : M W A → (A → M W B) → M W B
  ◌>>=◌ m f s = let (r, s') = m s in resume f r s'

  abbrev pub ◌>>◌ : M W A → M W B → M W B
  m >> n = m >>= λ _. n

module _ {W : Type 0} where
  abbrev pub churn_of : M W Churn
  churn_of s = (some s.churn, s)

  abbrev pub set_churn : Churn → M W (Unit {0})
  set_churn c s = (some tt, record s { churn = c })

module _ (S : Seams) where
  -- A call that does not raise.
  abbrev pub observe : {A : Type 0} → (S.World → A × S.World) → M S.World A
  observe f s = let (a, w) = f s.world in (some a, record s { world = w })

  abbrev pub monotonic : M S.World ℕ
  monotonic = observe S.monotonic

  abbrev pub sleep : ℕ → M S.World (Unit {0})
  sleep ms = observe (λ w. (tt, S.sleep ms w))

  abbrev pub wait : ℕ → M S.World Bool
  wait ms = observe (S.wait ms)

  abbrev hashed : Option Outputs → Option String
  hashed none = none
  hashed (some outs) = some (topology_hash_from_outputs S.digest outs)

  -- `topology_hash`, which raises where the read does
  unfoldable pub topology_hash : M S.World String
  topology_hash s = let (o, w) = S.read s.world in (hashed o, record s { world = w })

  abbrev connected_in : Option Outputs → List String
  connected_in none = []
  connected_in (some outs) = connected_names outs

  unfoldable pub present_connectors : M S.World (List String)
  present_connectors s =
      let (o, w) = S.read s.world in (some (connected_in o), record s { world = w })

  abbrev unhealed_in : Option Outputs → List String
  unhealed_in none = []
  unhealed_in (some outs) = unhealed_outputs outs

  unfoldable pub unhealed_connectors : M S.World (List String)
  unhealed_connectors s =
      let (o, w) = S.read s.world in (some (unhealed_in o), record s { world = w })

  unfoldable pub apply : M S.World Verdict
  apply s =
      let (v, w) = S.apply_once s.world in
      (some v, record s { world = w; trace = applied v ∷ s.trace })

  unfoldable pub hook : M S.World (Unit {0})
  hook s = elim S.on_settled [
    | none ↦ (some tt, s)
    | some f ↦ (some tt, record s { world = f s.world; trace = hooked ∷ s.trace })
  ]
