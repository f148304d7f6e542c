-- ===== src/Ipc/Wire.antt =====
-- xrandrw/dwmipc.py: the header, the bounded read and the terminator of the wire format, over bytes.
pub mod Laws
use xrandrw.Prelude.{
  ℕ, zero, suc, ◌+◌, ◌-◌, ◌*◌, ◌/◌, ◌%◌, ◌^◌, Bool, true, false, ◌&&◌, Option, none, some, List, [],
  ◌∷◌, ◌++◌, length, ltb, leb, nat_eq, ◌==◌, if◌then◌else◌,
}

-- A reply as the program sees it, or the reason of a `DwmIpcUnavailable`.
pub data Reject : Type 0 where
  truncated bad_magic size_zero oversized deadline_exceeded timed_out socket_error closed : Reject

pub data Read {ℓ} (A : Type ℓ) : Type ℓ where
  ok : A → Read A
  reject : Reject → Read A

-- b"DWM-IPC"
abbrev pub magic : List ℕ
magic = b'D' ∷ b'W' ∷ b'M' ∷ b'-' ∷ b'I' ∷ b'P' ∷ b'C' ∷ []

abbrev pub header_size : ℕ
header_size = 12

-- `struct.Struct("<7sIB")`: a little-endian uint32 between the magic and the type byte.
abbrev pub le_bytes : ℕ → List ℕ
le_bytes n = n % 256 ∷ n / 256 % 256 ∷ n / 65536 % 256 ∷ n / 16777216 % 256 ∷ []

-- A size or a type out of range is a `struct.error`, here `none`.
unfoldable pub pack_header : ℕ → ℕ → Option (List ℕ)
pack_header mtype payload_len =
    if ltb payload_len 4294967296 && ltb mtype 256
    then some (magic ++ le_bytes payload_len ++ mtype ∷ [])
    else none

abbrev eq_bytes : List ℕ → List ℕ → Bool
eq_bytes [] [] = true
eq_bytes (a ∷ as') (b ∷ bs) = a == b && eq_bytes as' bs
eq_bytes _ _ = false

unfoldable pub parse_header : ℕ → List ℕ → Read (ℕ × ℕ)
parse_header max_reply_size (m1 ∷ m2 ∷ m3 ∷ m4 ∷ m5 ∷ m6 ∷ m7 ∷ s1 ∷ s2 ∷ s3 ∷ s4 ∷ rtype ∷ _) =
    let size : ℕ = s1 + s2 * 256 + s3 * 65536 + s4 * 16777216 in
    if eq_bytes (m1 ∷ m2 ∷ m3 ∷ m4 ∷ m5 ∷ m6 ∷ m7 ∷ []) magic
    then (if size == 0
        then reject size_zero
        else if ltb max_reply_size size
        then reject oversized
        else ok (size, rtype))
    else reject bad_magic
parse_header max_reply_size _ = reject truncated

-- What one round of `_recvall` meets: the budget that is left, and what `recv` then returns, of at
-- most as many bytes as were asked for.
pub data Recv : Type 0 where
  chunk : List ℕ → Recv
  times_out : Recv
  fails : Recv

pub record Round : Type 0 where
  pub budget_left : Bool
  pub recv : Recv

abbrev pub take : ℕ → List ℕ → List ℕ
take zero xs = []
take (suc n) [] = []
take (suc n) (x ∷ xs) = x ∷ take n xs

-- One round of the loop that wants `want` more bytes.
unfoldable pub read_round : Bool → Recv → ℕ → Read (List ℕ)
read_round false r want = reject deadline_exceeded
read_round true times_out want = reject timed_out
read_round true fails want = reject socket_error
read_round true (chunk c) want = elim (take want c) [ [] ↦ reject closed | b ∷ bs ↦ ok (b ∷ bs) ]

-- The peer's behaviour is a list of rounds; where it ends, the peer has closed the connection.
unfoldable pub recvall : List Round → List ℕ → ℕ → Read (List ℕ × List Round)
recvall [] buf n = if ltb (length buf) n then reject closed else ok (buf, [])
recvall (r ∷ rounds) buf n =
    let rest : Read (List ℕ × List Round) =
      elim (read_round r.budget_left r.recv (n - length buf)) [
        | ok got ↦ recvall rounds (buf ++ got) n
        | reject e ↦ reject e
      ] in
    if ltb (length buf) n then rest else ok (buf, r ∷ rounds)

-- `body.rstrip(b"\x00")`
unfoldable pub strip_zeros : List ℕ → List ℕ
strip_zeros [] = []
strip_zeros (b ∷ bs) = elim (strip_zeros bs) [
  | [] ↦ if b == 0 then [] else b ∷ []
  | c ∷ cs ↦ b ∷ c ∷ cs
]
