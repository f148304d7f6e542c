-- ===== src/Tests/Exchanging.antt =====
-- dwmipc.py with a peer that sends a reply in three pieces, and with one that refuses.
use xrandrw.Prelude.{ℕ, true, ◌≡◌, refl, some, List, [], ◌∷◌, ◌++◌, arith}
use xrandrw.Json.{bool}
use xrandrw.Ipc.Wire.{times_out, pack_header, strip_zeros}
use xrandrw.Ipc.Exchange.{
  found, done, decode_reply, opened, closed, Loaded, parsed, value_error, Peer, request,
}
use xrandrw.Ipc.Exchange.Reply.{spoken, said, request-answers}

-- The header in two pieces, its first byte alone.
abbrev heads : List (ℕ × List ℕ)
heads = (b'D', []) ∷ (b'W', b'M' ∷ b'-' ∷ b'I' ∷ b'P' ∷ b'C' ∷ 5 ∷ 0 ∷ 0 ∷ 0 ∷ 1 ∷ []) ∷ []

-- `true`, with the terminator
abbrev bodies : List (ℕ × List ℕ)
bodies = (b't', b'r' ∷ b'u' ∷ []) ∷ (b'e', 0 ∷ []) ∷ []

abbrev loads : List ℕ → Loaded
loads (_ ∷ _ ∷ _ ∷ _ ∷ []) = parsed (bool true)
loads _ = value_error

abbrev peer : Peer
peer = record {
  lstat = found true true;
  creates = true;
  connects = true;
  accepts_send = true;
  rounds = spoken heads ++ spoken bodies;
  loads = loads;
}

framed : pack_header 1 5 ≡ some (said heads)
unfolding pack_header
framed = refl

decodes : decode_reply loads (said bodies) ≡ done (bool true)
unfolding decode_reply strip_zeros
decodes = refl

request-answers_example : request 1048576 peer 1 [] ≡ (done (1, bool true), opened ∷ closed ∷ [])
request-answers_example =
    request-answers 1048576 1 loads heads bodies (bool true) (omega arith) (omega arith) framed
      decodes peer 1 [] (omega arith) (omega arith) refl refl refl refl refl refl

-- A peer that stalls in the header.
abbrev stalling : Peer
stalling = record peer { rounds = record { budget_left = true; recv = times_out } ∷ [] }
