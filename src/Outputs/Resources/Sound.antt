-- ===== src/Outputs/Resources/Sound.antt =====
-- What the output map of xrandr.py says of the X server that it is read from.
use mathlib.Core.Path.{subst}
use mathlib.Core.Option.{some-injective}
use xrandrw.Prelude.{
  ◌&&◌, ◌||◌, ℕ, String, true, false, not, ◌≡◌, refl, ◌∙◌, sym, Option, none, some, List, [], ◌∷◌,
  arith, ◌==◌, nat_eq, string_eq, Eq, contains, All, Bool-cases, inl, inr,
}
use xrandrw.Prelude.Partial.{>>=-some}
use xrandrw.Prelude.Dict.{
  Dict, keys, lookup, insert, lookup-insert, contains-keys-insert, DistinctKeys,
  insert-DistinctKeys,
}
use xrandrw.Outputs.{Output, Outputs, is_some, is_lit}
use xrandrw.Outputs.Resources.{
  CrtcInfo, ModeInfo, OutputInfo, Server, rr_connected, size_of, origin_of, crtc_of, to_output,
  add_outputs, add_crtc, gather, read, randr_resources_to_outputs, modemap,
}

module _ {ℓ κ} {K : Type ℓ} {V : Type κ} ⦃e : Eq K⦄ where
  All-insert :
      (P : K × V → Type 0) (k : K) (v : V) (d : Dict K V)
      → P (k, v)
      → All P d
      → All P (insert k v d)
  unfolding insert
  All-insert P k v [] p h = (p, tt)
  All-insert P k v ((j, w) ∷ d) p (q, h) = elim (Bool-cases (j == k)) [
    | inl same ↦ rw same (subst (λ i. P (i, v)) (sym ((e.beq_iff j k).0 same)) p, h)
    | inr other ↦ rw other (q, All-insert P k v d p h)
  ]

  is_some-lookup : (k : K) (d : Dict K V) → contains k (keys d) ≡ true → is_some (lookup k d) ≡ true
  unfolding lookup
  is_some-lookup k [] h = ground arith
  is_some-lookup k ((j, w) ∷ d) h = ground (arith, is_some-lookup k d)

size_of-origin_of :
    (c : Option CrtcInfo) → (is_some (size_of c) && is_some (origin_of c)) ≡ is_some c
size_of-origin_of none = refl
size_of-origin_of (some ci) = refl

-- The output map holds what the server answers about one output, under its name.
pub record Shows (s : Server) (e : String × Output) : Type 0 where
  pub oid : ℕ
  pub info : OutputInfo
  pub answered : s.get_output_info oid ≡ some info
  pub named : e.0 ≡ info.name
  pub own_name : e.1.name ≡ e.0
  pub connected : e.1.connected ≡ (info.connection == rr_connected)
  -- It is lit exactly where it has a CRTC.
  pub lit : is_lit e.1 ≡ not (info.crtc == 0)

abbrev names_of : List OutputInfo → List String
names_of [] = []
names_of (oi ∷ infos) = oi.name ∷ names_of infos

module _ (s : Server) where
  abbrev Asked : OutputInfo → Type 0
  Asked oi = (oid : ℕ) × (s.get_output_info oid ≡ some oi)

  -- The CRTC of the output is known, if it has one.
  abbrev Known : Dict ℕ CrtcInfo → OutputInfo → Type 0
  Known crtcs oi = is_some (crtc_of crtcs oi) ≡ not (oi.crtc == 0)

  abbrev Grows : Dict ℕ CrtcInfo → Dict ℕ CrtcInfo → Type 0
  Grows d d' = (k : ℕ) → is_some (lookup k d) ≡ true → is_some (lookup k d') ≡ true

  add_crtc-Grows :
      (crtc : ℕ) (d d' : Dict ℕ CrtcInfo)
      → add_crtc s crtc d ≡ some d'
      → Grows d d' × ((crtc == 0) ≡ false → is_some (lookup crtc d') ≡ true)
  unfolding add_crtc
  add_crtc-Grows crtc d d' h = elim (Bool-cases (crtc == 0)) [
    | inl zero ↦
        let same : d ≡ d' = some-injective _ _ (rw zero at h) in
        (λ k g. rw (← same) g, λ nonzero. absurd (ground (arith, zero, nonzero)))
    | inr nonzero ↦ elim (Bool-cases (contains crtc (keys d))) [
      | inl old ↦
          let same : d ≡ d' = some-injective _ _ (rw old at (rw nonzero at h)) in
          (λ k g. rw (← same) g, λ _. rw (← same) (is_some-lookup crtc d old))
      | inr new ↦
          let (ci, asked, e) =
            >>=-some (s.get_crtc_info crtc) (λ ci. some (insert crtc ci d)) d'
              (rw new at (rw nonzero at h)) in
          let same : insert crtc ci d ≡ d' = some-injective _ _ e in
          (
            λ k g. rw (← same) (ground (arith, lookup-insert k crtc ci d, g)),
            λ _. rw (← same) (ground (arith, lookup-insert crtc crtc ci d)),
          )
    ]
  ]

  Known-Grows :
      (d d' : Dict ℕ CrtcInfo) (oi : OutputInfo)
      → Grows d d'
      → ((oi.crtc == 0) ≡ false → is_some (lookup oi.crtc d) ≡ true)
      → Known d' oi
  Known-Grows d d' oi grows has = elim (Bool-cases (oi.crtc == 0)) [
    | inl zero ↦ rw zero refl
    | inr nonzero ↦ rw nonzero (grows oi.crtc (has nonzero))
  ]

  gather-Known :
      (oids : List ℕ) (d : Dict ℕ CrtcInfo) (found : List OutputInfo × Dict ℕ CrtcInfo)
      → gather s oids d ≡ some found
      → All (λ oi. Asked oi × Known found.1 oi) found.0 × Grows d found.1
  unfolding gather
  gather-Known [] d found h =
      subst
        (λ (f : List OutputInfo × Dict ℕ CrtcInfo).
          All (λ oi. Asked oi × Known f.1 oi) f.0 × Grows d f.1)
        (some-injective _ _ h) (tt, λ k g. g)
  gather-Known (oid ∷ oids) d found h =
      let (oi, asked, h1) = >>=-some (s.get_output_info oid) _ found h in
      let (more, added, h2) = >>=-some (add_crtc s oi.crtc d) _ found h1 in
      let (rest, gathered, h3) = >>=-some (gather s oids more) _ found h2 in
      let (known, grows) = gather-Known oids more rest gathered in
      let (grown, has) = add_crtc-Grows oi.crtc d more added in
      subst
        (λ (f : List OutputInfo × Dict ℕ CrtcInfo).
          All (λ oi. Asked oi × Known f.1 oi) f.0 × Grows d f.1)
        (some-injective _ _ h3)
        ((((oid, asked), Known-Grows more rest.1 oi grows has), known), λ k g. grows k (grown k g))

  to_output-Shows :
      (crtcs : Dict ℕ CrtcInfo) (known : Dict ℕ ModeInfo) (primary_id : ℕ) (oi : OutputInfo)
      → Asked oi
      → Known crtcs oi
      → Shows s (oi.name, to_output crtcs known primary_id oi)
  unfolding to_output is_lit
  to_output-Shows crtcs known primary_id oi (oid, asked) k = record {
    oid = oid;
    info = oi;
    answered = asked;
    named = refl;
    own_name = refl;
    connected = refl;
    lit = size_of-origin_of (crtc_of crtcs oi) ∙ k;
  }

  -- The map has an output of the name that is answered for the id.
  abbrev pub IsHeld : Outputs → ℕ → Type 0
  IsHeld outs oid =
      (info : OutputInfo) × (s.get_output_info oid ≡ some info)
      × (contains info.name (keys outs) ≡ true)

  abbrev Names : List OutputInfo → ℕ → Type 0
  Names infos oid =
      (info : OutputInfo) × (s.get_output_info oid ≡ some info)
      × (contains info.name (names_of infos) ≡ true)

  Names-cons :
      (oi : OutputInfo) (infos : List OutputInfo) (oids : List ℕ)
      → All (Names infos) oids
      → All (Names (oi ∷ infos)) oids
  Names-cons oi infos [] h = tt
  Names-cons oi infos (oid ∷ oids) ((info, a, m), h) =
      ((info, a, ground (arith, m)), Names-cons oi infos oids h)

  gather-Names :
      (oids : List ℕ) (d : Dict ℕ CrtcInfo) (found : List OutputInfo × Dict ℕ CrtcInfo)
      → gather s oids d ≡ some found
      → All (Names found.0) oids
  unfolding gather
  gather-Names [] d found h = tt
  gather-Names (oid ∷ oids) d found h =
      let (oi, asked, h1) = >>=-some (s.get_output_info oid) _ found h in
      let (more, added, h2) = >>=-some (add_crtc s oi.crtc d) _ found h1 in
      let (rest, gathered, h3) = >>=-some (gather s oids more) _ found h2 in
      subst (λ (f : List OutputInfo × Dict ℕ CrtcInfo). All (Names f.0) (oid ∷ oids))
        (some-injective _ _ h3)
        (
          (oi, asked, ground (arith, string_eq.beq_iff oi.name oi.name)),
          Names-cons oi rest.0 oids (gather-Names oids more rest gathered),
        )

  Held-Names :
      (infos : List OutputInfo) (outs : Outputs) (oids : List ℕ)
      → ((n : String) → contains n (names_of infos) ≡ true → contains n (keys outs) ≡ true)
      → All (Names infos) oids
      → All (IsHeld outs) oids
  Held-Names infos outs [] f h = tt
  Held-Names infos outs (oid ∷ oids) f ((info, a, m), h) =
      ((info, a, f info.name m), Held-Names infos outs oids f h)

  add_outputs-names :
      (crtcs : Dict ℕ CrtcInfo) (known : Dict ℕ ModeInfo) (primary_id : ℕ) (n : String)
      (infos : List OutputInfo) (outs : Outputs)
      → contains n (keys outs) || contains n (names_of infos) ≡ true
      → contains n (keys (add_outputs crtcs known primary_id outs infos)) ≡ true
  unfolding add_outputs
  add_outputs-names crtcs known primary_id n [] outs h = ground arith
  add_outputs-names crtcs known primary_id n (oi ∷ infos) outs h =
      let o = to_output crtcs known primary_id oi in
      let had = contains-keys-insert n oi.name o outs in
      add_outputs-names crtcs known primary_id n infos (insert oi.name o outs)
        (ground (arith, had, h, string_eq.beq_iff n oi.name, string_eq.beq_iff oi.name n))

  add_outputs-Shows :
      (crtcs : Dict ℕ CrtcInfo) (known : Dict ℕ ModeInfo) (primary_id : ℕ) (outs : Outputs)
      (infos : List OutputInfo)
      → All (λ oi. Asked oi × Known crtcs oi) infos
      → All (Shows s) outs
      → DistinctKeys outs
      → All (Shows s) (add_outputs crtcs known primary_id outs infos)
        × DistinctKeys (add_outputs crtcs known primary_id outs infos)
  unfolding add_outputs
  add_outputs-Shows crtcs known primary_id outs [] h shows distinct = (shows, distinct)
  add_outputs-Shows crtcs known primary_id outs (oi ∷ infos) ((asked, k), h) shows distinct =
      let o = to_output crtcs known primary_id oi in
      add_outputs-Shows crtcs known primary_id (insert oi.name o outs) infos h
        (All-insert (Shows s) oi.name o outs (to_output-Shows crtcs known primary_id oi asked k)
          shows)
        (insert-DistinctKeys oi.name o outs distinct)

  -- A read that succeeds gives a map that has every output that the server lists, by the name that it
  -- answers; and the map holds each name once, with what the server answers about an output of that
  -- name: connected as it says, and lit exactly where it has a CRTC.
  pub read-Shows :
      (outs : Outputs)
      → read s ≡ some outs
      → All (IsHeld outs) s.output_ids × All (Shows s) outs × DistinctKeys outs
  unfolding read randr_resources_to_outputs
  read-Shows outs h =
      let (found, gathered, e) = >>=-some (gather s s.output_ids []) _ outs h in
      let (known, grows) = gather-Known s.output_ids [] found gathered in
      let m = modemap s.modes in
      let shown = add_outputs-Shows found.1 m s.primary_id [] found.0 known tt tt in
      subst (λ o. All (IsHeld o) s.output_ids × All (Shows s) o × DistinctKeys o)
        (some-injective _ _ e)
        (
          Held-Names found.0 _ s.output_ids
              (λ n h. add_outputs-names found.1 m s.primary_id n found.0 [] h)
              (gather-Names s.output_ids [] found gathered),
          shown.0,
          shown.1,
        )
