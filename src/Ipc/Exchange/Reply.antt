-- ===== src/Ipc/Exchange/Reply.antt =====
-- What the answer of a peer becomes, however its bytes are cut into rounds.
use xrandrw.Prelude.{
  ℕ, zero, suc, ◌+◌, ◌-◌, ◌<◌, ◌≤◌, ◌≡◌, refl, true, some, List, [], ◌∷◌, ◌++◌, length,
  length-append, arith, ltb,
}
use mathlib.Core.Path.{subst}
use xrandrw.Json.{Json}
use xrandrw.Ipc.Wire.{
  ok, Round, chunk, take, magic, header_size, pack_header, recvall, read_round, le_bytes,
}
use xrandrw.Ipc.Wire.Laws.{parse_header-pack_header}
use xrandrw.Ipc.Exchange.{
  found, done, opened, closed, Loaded, Peer, decode_reply, read_reply, request,
}

-- A round that is in the budget and yields some bytes.
abbrev pub spoken : List (ℕ × List ℕ) → List Round
spoken [] = []
spoken ((b, bs) ∷ cs) = record { budget_left = true; recv = chunk (b ∷ bs) } ∷ spoken cs

abbrev pub said : List (ℕ × List ℕ) → List ℕ
said [] = []
said ((b, bs) ∷ cs) = (b ∷ bs) ++ said cs

take_whole : (n : ℕ) (xs : List ℕ) → length xs ≤ n → take n xs ≡ xs
take_whole zero [] h = refl
take_whole zero (x ∷ xs) h = ground arith
take_whole (suc n) [] h = refl
take_whole (suc n) (x ∷ xs) h = rw (take_whole n xs (omega (arith, h))) refl

read_round_whole :
    (want b : ℕ) (bs : List ℕ)
    → length (b ∷ bs) ≤ want
    → read_round true (chunk (b ∷ bs)) want ≡ ok (b ∷ bs)
unfolding read_round
read_round_whole want b bs h = rw (take_whole want (b ∷ bs) h, read_round) refl

append_assoc : (xs ys zs : List ℕ) → (xs ++ ys) ++ zs ≡ xs ++ (ys ++ zs)
append_assoc [] ys zs = refl
append_assoc (x ∷ xs) ys zs = rw (append_assoc xs ys zs) refl

append_none {ℓ} : {A : Type ℓ} → (xs : List A) → xs ++ [] ≡ xs
append_none [] = refl
append_none (x ∷ xs) = rw (append_none xs) refl

recvall_full :
    (rounds : List Round) (buf : List ℕ) (n : ℕ)
    → length buf ≡ n
    → recvall rounds buf n ≡ ok (buf, rounds)
unfolding recvall
recvall_full [] buf n h = ground arith
recvall_full (r ∷ rounds) buf n h = ground arith

recvall-spoken :
    (cs : List (ℕ × List ℕ)) (rest : List Round) (buf : List ℕ) (n : ℕ)
    → length buf + length (said cs) ≡ n
    → recvall (spoken cs ++ rest) buf n ≡ ok (buf ++ said cs, rest)
unfolding recvall
recvall-spoken [] rest buf n h = rw append_none (recvall_full rest buf n (omega (arith, h)))
recvall-spoken ((b, bs) ∷ cs) rest buf n h =
    let short : ltb (length buf) n ≡ true = ground arith in
    let room : length (b ∷ bs) ≤ n - length buf =
      omega (arith, h, length-append (b ∷ bs) (said cs)) in
    let met : length (buf ++ b ∷ bs) + length (said cs) ≡ n =
      omega (arith, h, length-append buf (b ∷ bs), length-append (b ∷ bs) (said cs)) in
    rw
      (
        short,
        read_round_whole (n - length buf) b bs room,
        recvall-spoken cs rest (buf ++ b ∷ bs) n met,
        append_assoc,
      )
      refl

length-pack_header :
    (mtype len : ℕ) {h : List ℕ} → pack_header mtype len ≡ some h → length h ≡ header_size
unfolding pack_header
length-pack_header mtype len {h} e =
    let packed : magic ++ le_bytes len ++ mtype ∷ [] ≡ h = ground arith in
    subst (λ k. length k ≡ 12) packed refl

pub packs :
    (mtype : ℕ) (payload : List ℕ)
    → mtype < 256
    → length payload < 4294967295
    → pack_header mtype (length (payload ++ 0 ∷ []))
      ≡ some (magic ++ le_bytes (length (payload ++ 0 ∷ [])) ++ mtype ∷ [])
unfolding pack_header
packs mtype payload byte fits = ground (arith, length-append payload (0 ∷ []))

module _ (limit rtype : ℕ) (loads : List ℕ → Loaded) (heads bodies : List (ℕ × List ℕ))
    (answer : Json) (small : length (said bodies) ≤ limit) (nonempty : 0 < length (said bodies))
    (framed : pack_header rtype (length (said bodies)) ≡ some (said heads))
    (decodes : decode_reply loads (said bodies) ≡ done answer) where
  read_reply-spoken :
      read_reply limit loads (recvall (spoken heads ++ spoken bodies) [] header_size)
      ≡ done (rtype, answer)
  unfolding read_reply
  read_reply-spoken =
      let headed : 0 + length (said heads) ≡ 12 =
        omega (arith, length-pack_header rtype (length (said bodies)) framed) in
      let last : recvall (spoken bodies) [] (length (said bodies)) ≡ ok (said bodies, []) =
        subst (λ rs. recvall rs [] (length (said bodies)) ≡ ok (said bodies, []))
          (append_none (spoken bodies))
          (recvall-spoken bodies [] [] (length (said bodies)) (omega arith)) in
      rw
        (
          recvall-spoken heads (spoken bodies) [] header_size headed,
          parse_header-pack_header limit rtype (length (said bodies)) nonempty small framed,
          last,
          decodes,
        )
        refl

  -- A message that a peer sends behind a header for its type and its length, in any cut into nonempty
  -- rounds that splits the two, is the reply of the request where it is within the cap and decodes:
  -- the path being an own socket, the socket, the connection and the sending succeeding, each round in time.
  pub request-answers :
      (peer : Peer) (mtype : ℕ) (payload : List ℕ)
      → mtype < 256
      → length payload < 4294967295
      → peer.lstat ≡ found true true
      → peer.creates ≡ true
      → peer.connects ≡ true
      → peer.accepts_send ≡ true
      → peer.loads ≡ loads
      → peer.rounds ≡ spoken heads ++ spoken bodies
      → request limit peer mtype payload ≡ (done (rtype, answer), opened ∷ closed ∷ [])
  unfolding request
  request-answers peer mtype payload byte fits path creates connects sends reads rounds =
      rw
        (
          path,
          creates,
          connects,
          packs mtype payload byte fits,
          sends,
          reads,
          rounds,
          read_reply-spoken,
        )
        refl
