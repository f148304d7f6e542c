-- ===== src/Ipc/Wire/Laws.antt =====
-- The header round trip, its bounds, and what the bounded read returns.
use xrandrw.Prelude.{
  ℕ, zero, suc, ◌+◌, ◌-◌, ◌*◌, ◌/◌, ◌%◌, ◌≤◌, ◌<◌, ◌≡◌, refl, Bool, true, false, some, List, [],
  ◌∷◌, ◌++◌, length, Bool-cases, inl, inr, length-append, arith, ltb,
}
use mathlib.Core.Path.{subst}
use xrandrw.Ipc.Wire.{
  Read, ok, reject, Round, Recv, chunk, times_out, fails, take, magic, pack_header, parse_header,
  recvall, le_bytes, read_round,
}

bytes_sum :
    (n : ℕ)
    → n < 4294967296
    → n % 256 + n / 256 % 256 * 256 + n / 65536 % 256 * 65536 + n / 16777216 % 256 * 16777216 ≡ n
bytes_sum n h = omega arith

-- A header that the program packs for a nonempty message within the cap is read back as it was.
pub parse_header-pack_header :
    (cap mtype len : ℕ) {h : List ℕ}
    → 0 < len
    → len ≤ cap
    → pack_header mtype len ≡ some h
    → parse_header cap h ≡ ok (len, mtype)
unfolding pack_header parse_header
parse_header-pack_header cap mtype len {h} pos small e =
    let fits : len < 4294967296 = ground arith in
    let packed : magic ++ le_bytes len ++ mtype ∷ [] ≡ h = ground arith in
    subst (λ k. parse_header cap k ≡ ok (len, mtype)) packed
      (rw (bytes_sum len fits) (ground arith))

-- An accepted header is twelve bytes at least, behind the magic, and announces at least one byte
-- and no more than the cap.
pub parse_header_bounds :
    (cap : ℕ) (header : List ℕ) {size rtype : ℕ}
    → parse_header cap header ≡ ok (size, rtype)
    → (12 ≤ length header) × (0 < size) × (size ≤ cap)
unfolding parse_header
parse_header_bounds cap (m1 ∷ m2 ∷ m3 ∷ m4 ∷ m5 ∷ m6 ∷ m7 ∷ s1 ∷ s2 ∷ s3 ∷ s4 ∷ t ∷ more) e =
    (omega arith, ground arith, ground arith)
parse_header_bounds cap _ e = cc

length-take : (n : ℕ) (xs : List ℕ) → length (take n xs) ≤ n
length-take zero xs = omega arith
length-take (suc n) [] = omega arith
length-take (suc n) (x ∷ xs) = omega (arith, length-take n xs)

length-read_round :
    (b : Bool) (r : Recv) (want : ℕ) {got : List ℕ}
    → read_round b r want ≡ ok got
    → length got ≤ want
unfolding read_round
length-read_round false r want e = cc
length-read_round true times_out want e = cc
length-read_round true fails want e = cc
length-read_round true (chunk c) want e = ground (arith, length-take want c)

-- A read that succeeds returns exactly the bytes that were asked for, the bytes already there
-- included.
pub length-recvall :
    (rounds : List Round) (buf : List ℕ) (n : ℕ) {out : List ℕ} {rest : List Round}
    → length buf ≤ n
    → recvall rounds buf n ≡ ok (out, rest)
    → length out ≡ n
unfolding recvall
length-recvall [] buf n small e = ground arith
length-recvall (r ∷ rounds) buf n {out} {rest} small e = elim (Bool-cases (ltb (length buf) n)) [
  | inr full ↦ ground arith
  | inl short ↦
      go (read_round r.budget_left r.recv (n - length buf)) refl (ground arith)
        (λ got le w. length-recvall rounds (buf ++ got) n le w)
]
  where
    go :
        (o : Read (List ℕ))
        → read_round r.budget_left r.recv (n - length buf) ≡ o
        → (elim o [ ok got ↦ recvall rounds (buf ++ got) n | reject e ↦ reject e ]) ≡ ok (out, rest)
        → ((got : List ℕ)
            → length (buf ++ got) ≤ n
            → recvall rounds (buf ++ got) n ≡ ok (out, rest)
            → length out ≡ n)
        → length out ≡ n
    go (reject x) q w more = cc
    go (ok got) q w more =
        more got
          (omega (
            arith,
            length-append buf got,
            length-read_round r.budget_left r.recv (n - length buf) q,
          ))
          w
