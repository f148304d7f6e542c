-- ===== src/Ipc/Exchange/Contained.antt =====
-- What a request of dwmipc.py lets out, and what it does with its socket.
use xrandrw.Prelude.{ℕ, ◌≡◌, ◌⊎◌, false, List, [], ◌∷◌}
use xrandrw.Json.{Json}
use xrandrw.Ipc.Exchange.{
  done, refused, escaped, Outcome, SocketEvent, opened, closed, Loaded, other_error, Peer,
}

-- There is a body on which the decoder raises what `decode_reply` does not catch.
abbrev pub Escapes : (List ℕ → Loaded) → Type 0
Escapes loads = (body : List ℕ) × (loads body ≡ other_error)

abbrev Held {ℓ} : {A : Type ℓ} → (List ℕ → Loaded) → Outcome A → Type 0
Held loads (done _) = Unit
Held loads (refused _) = Unit
Held loads escaped = Escapes loads

-- What was opened is closed, whatever comes out. A reply comes over a socket that was opened; a
-- refusal, before one is opened or after it; and another exception, where no socket could be made or
-- where the decoder raises one.
abbrev pub IsContained : Peer → Outcome (ℕ × Json) × List SocketEvent → Type 0
IsContained peer (done _, events) = events ≡ opened ∷ closed ∷ []
IsContained peer (refused _, events) = (events ≡ []) ⊎ (events ≡ opened ∷ closed ∷ [])
IsContained peer (escaped, events) =
    ((peer.creates ≡ false) × (events ≡ []))
    ⊎ (Escapes peer.loads × (events ≡ opened ∷ closed ∷ []))
