-- ===== src/Relocate/Seam.antt =====
-- relocate.py: the coordinator's state, the seams that it acts through, and its calls of
-- dwmipc.py. What lies behind a seam (dwm, the X server, /proc, the clock) is a parameter; each
-- call of a seam that can change what dwm shows is noted in a trace, the latest call first.
use xrandrw.Prelude.{
  ℕ, ◌+◌, String, Bool, true, false, not, ◌&&◌, Option, some, List, ◌∷◌, Eq, ◌==◌, string_eq,
  if◌then◌else◌, ◌≡◌, ◌↔◌, arith,
}
use xrandrw.Prelude.Int.{ℤ, int_eq}
use xrandrw.Prelude.Dict.{Dict}
use xrandrw.Json.{Json, Result, ok, unavailable, raised, obj, member, str}
use xrandrw.Outputs.{Outputs}
use xrandrw.Ipc.{
  Message, get_monitors, get_dwm_client, run_command, validate_monitors, validate_client,
}
use xrandrw.Relocate.Plan.{Geometry, WindowRecord}

-- `(pid, starttime)`
abbrev pub Identity : Type 0
Identity = ℤ × ℤ

abbrev identity_beq : Identity → Identity → Bool
identity_beq (p, s) (q, t) = p == q && s == t

pub identity_beq_iff : (a b : Identity) → (identity_beq a b ≡ true) ↔ (a ≡ b)
identity_beq_iff (p, s) (q, t) = ground (arith, int_eq.beq_iff p q, int_eq.beq_iff s t)

instance abbrev pub identity_eq : Eq Identity
identity_eq = record { beq = identity_beq; beq_iff = identity_beq_iff }

-- A request of a capture, which only reads, with its reply.
pub data Look : Type 0 where
  monitors_asked : Result Json → Look
  client_asked : ℤ → Result Json → Look

-- What a capture brings back: the requests that it sent, the latest first; the monitors that its
-- observer was called with, if it was; and the records, unless it raised.
pub record Capture : Type 0 where
  pub looks : List Look
  pub observed : Option (List Json)
  pub records : Option (List WindowRecord)

pub record Seams : Type 1 where
  pub World : Type 0
  -- `dwmipc.request`, of which a failure is `unavailable`
  pub request : Message → World → Result Json × World
  -- `RelocationControl.focus` and `.configure_geometry`
  pub focus : ℤ → World → World
  pub configure_geometry : ℤ → Geometry → World → World
  -- `resolve_pid` of a window and `read_proc_identity` of a process, the identity alone
  pub resolve_pid : ℤ → World → Option Identity × World
  pub read_proc_identity : ℤ → World → Option Identity × World
  -- `RandRReader.read`, `none` where it raises
  pub read : World → Option Outputs × World
  pub capture : World → Capture × World
  -- `time.sleep` of the confirm poll
  pub sleep : World → World
  -- `stop_evt.is_set()`
  pub is_stopping : World → Bool × World
  -- the path is the live socket and the process runs under pytest
  pub is_refused : Bool

pub data Event : Type 0 where
  focused : ℤ → Event
  configured : ℤ → Geometry → Event
  sent : Message → Result Json → Event

abbrev pub event_of : Look → Event
event_of (monitors_asked r) = sent get_monitors r
event_of (client_asked x r) = sent (get_dwm_client x) r

pub record Coordinator : Type 0 where
  pub displaced : Dict Identity WindowRecord
  pub snapshot : Dict Identity WindowRecord
  pub snapshot_focus : Option (Option ℤ × ℤ)
  pub focus_calls : ℕ
  pub prev_present : Option (List String)

pub record State (World : Type 0) : Type 0 where
  pub coordinator : Coordinator
  pub open coordinator use *
  pub world : World
  pub trace : List Event

-- A method that may raise. What was done before a raise stays done.
abbrev pub M : Type 0 → Type 0 → Type 0
M W A = State W → Result A × State W

module _ {W A : Type 0} where
  unfoldable pub pure : A → M W A
  pure a s = (ok a, s)

  unfoldable pub lift : Result A → M W A
  lift r s = (r, s)

  -- `try: m except DwmIpcUnavailable: h`
  unfoldable pub or_unavailable : M W A → M W A → M W A
  or_unavailable m h s =
      let (r, s') = m s in elim r [ ok a ↦ (ok a, s') | unavailable ↦ h s' | raised ↦ (raised, s') ]

  -- `try: m except Exception: h`
  unfoldable pub or_exception : M W A → M W A → M W A
  or_exception m h s =
      let (r, s') = m s in elim r [ ok a ↦ (ok a, s') | unavailable ↦ h s' | raised ↦ h s' ]

module _ {W A B : Type 0} where
  infixl 5 ◌>>=◌ ◌>>◌
  -- Opening this opens the other combinators too.
  unfoldable pub ◌>>=◌ : M W A → (A → M W B) → M W B
  unfolding pure lift or_unavailable or_exception
  ◌>>=◌ m f s =
      let (r, s') = m s in
      elim r [ ok a ↦ f a s' | unavailable ↦ (unavailable, s') | raised ↦ (raised, s') ]

  abbrev pub ◌>>◌ : M W A → M W B → M W B
  m >> n = m >>= λ _. n

-- A reply that reports no error.
unfoldable pub accepted : Json → Bool
accepted (obj fs) = elim (member "result" fs) [ some (str r) ↦ not (r == "error") | _ ↦ true ]
accepted _ = true

module _ (S : Seams) where
  unfoldable pub request : Message → M S.World Json
  request m s =
      let (r, w) = S.request m s.world in (r, record s { world = w; trace = sent m r ∷ s.trace })

  unfoldable pub monitors : M S.World (List Json)
  unfolding request
  monitors = do body ← request get_monitors; lift (validate_monitors body)

  unfoldable pub dwm_client : ℤ → M S.World Json
  unfolding request
  dwm_client x = do body ← request (get_dwm_client x); lift (validate_client body)

  -- `_run_verb`, with the refusal of `run_command` under pytest
  unfoldable pub run_verb : String → List ℤ → M S.World Bool
  unfolding request accepted
  run_verb verb args =
      if S.is_refused
      then lift raised
      else do reply ← request (run_command verb args); pure (accepted reply)

  -- `self._control.focus(xid)` and the count of focus steals
  unfoldable pub steal_focus : ℤ → M S.World (Unit {0})
  steal_focus x s = (
    ok tt,
    record s {
      coordinator = record s.coordinator { focus_calls = s.focus_calls + 1 };
      world = S.focus x s.world;
      trace = focused x ∷ s.trace;
    },
  )

  unfoldable pub configure : ℤ → Geometry → M S.World (Unit {0})
  configure x g s = (
    ok tt,
    record s { world = S.configure_geometry x g s.world; trace = configured x g ∷ s.trace },
  )

  -- A call that only looks at the world, or lets time pass.
  unfoldable pub observe : {A : Type 0} → (S.World → A × S.World) → M S.World A
  observe f s = let (a, w) = f s.world in (ok a, record s { world = w })

  unfoldable pub available : M S.World Bool
  unfolding monitors
  available = or_exception (do monitors; pure true) (pure false)
