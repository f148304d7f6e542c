-- ===== src/Outputs/Edids/First.antt =====
-- Which EDID `read_edids` of xrandr.py gives an output.
use xrandrw.Prelude.{
  ℕ, String, false, ◌≡◌, refl, ◌∙◌, ap, sym, Option, none, some, [], ◌∷◌, arith, any, All,
  Bool-cases, inl, inr, if◌then◌else◌, ◌==◌, string_eq,
}
use xrandrw.Prelude.Dict.{Dict}
use xrandrw.Outputs.{Output, Outputs}
use xrandrw.Outputs.Edids.{
  Bytes, Native, no_display, fails, answers, Source, edid_bytes_to_sha1, set_edid, lacks_edid,
  from_sysfs, property_of, from_properties, from_native, read_edids,
}

-- What the X server says of the output, if it can be asked.
abbrev pub answer_of : Source → Native → String → Option Bytes
answer_of src no_display n = none
answer_of src fails n = none
answer_of src (answers ids) n = property_of src ids n

abbrev pub or_else : Option String → Option String → Option String
or_else none later = later
or_else (some a) later = some a

-- Every connected output has the digest of its file under /sys, or else what `later` has for it.
abbrev pub with_digests : Source → (String → Option String) → Outputs → Outputs
with_digests src later [] = []
with_digests src later ((n, o) ∷ outs) =
    (
      n,
      if o.connected
          then record o { edid_sha1 = or_else (edid_bytes_to_sha1 src (src.sysfs n)) (later n) }
          else o,
    )
    ∷ with_digests src later outs

abbrev after_sysfs : Option String → Output → Output
after_sysfs sys o = if o.connected then set_edid sys o else o

abbrev after_native : Option String → Output → Output
after_native prop o = if lacks_edid o then set_edid prop o else o

abbrev Bare : Outputs → Type 0
Bare = All (λ (e : String × Output). e.1.edid_sha1 ≡ none)

-- Both sources, one after the other, at one output.
after_native-after_sysfs :
    (o : Output) (sys prop : Option String)
    → o.edid_sha1 ≡ none
    → ((sha1 : String) → sys ≡ some sha1 → (sha1 == "") ≡ false)
    → after_native prop (after_sysfs sys o)
      ≡ (if o.connected then record o { edid_sha1 = or_else sys prop } else o)
after_native-after_sysfs o none none e h = ground arith
after_native-after_sysfs o none (some b) e h = ground arith
after_native-after_sysfs o (some a) prop e h = ground (arith, h a refl)

after_native-none : (o : Output) → after_native none o ≡ o
after_native-none o = ground arith

module _ (src : Source) (nonempty : (bytes : Bytes) → (src.sha1 bytes == "") ≡ false) where
  sha1-nonempty :
      (b : Option Bytes) (sha1 : String)
      → edid_bytes_to_sha1 src b ≡ some sha1
      → (sha1 == "") ≡ false
  unfolding edid_bytes_to_sha1
  sha1-nonempty none sha1 h = ground arith
  sha1-nonempty (some []) sha1 h = ground arith
  sha1-nonempty (some (b ∷ bs)) sha1 h = ground (arith, nonempty (b ∷ bs))

  from_sysfs_lem :
      (outs : Outputs) → Bare outs → from_sysfs src outs ≡ with_digests src (λ n. none) outs
  unfolding from_sysfs
  from_sysfs_lem [] h = refl
  from_sysfs_lem ((n, o) ∷ outs) (e, h) =
      let sys = edid_bytes_to_sha1 src (src.sysfs n) in
      let here =
        sym (after_native-none (after_sysfs sys o))
        ∙ after_native-after_sysfs o sys none e (sha1-nonempty (src.sysfs n)) in
      rw (← here) (ap (λ (more : Outputs). (n, after_sysfs sys o) ∷ more) (from_sysfs_lem outs h))

  from_properties-from_sysfs :
      (ids : Dict String ℕ) (outs : Outputs)
      → Bare outs
      → from_properties src ids (from_sysfs src outs)
        ≡ with_digests src (λ n. edid_bytes_to_sha1 src (property_of src ids n)) outs
  unfolding from_properties from_sysfs
  from_properties-from_sysfs ids [] h = refl
  from_properties-from_sysfs ids ((n, o) ∷ outs) (e, h) =
      let sys = edid_bytes_to_sha1 src (src.sysfs n) in
      let prop = edid_bytes_to_sha1 src (property_of src ids n) in
      let here = after_native-after_sysfs o sys prop e (sha1-nonempty (src.sysfs n)) in
      rw (← here) (
        ap (λ (more : Outputs). (n, after_native prop (after_sysfs sys o)) ∷ more)
          (from_properties-from_sysfs ids outs h))

  from_native-from_sysfs :
      (native : Native) (outs : Outputs)
      → Bare outs
      → (from_native src native (from_sysfs src outs)).0
        ≡ with_digests src (λ n. edid_bytes_to_sha1 src (answer_of src native n)) outs
  unfolding from_native edid_bytes_to_sha1
  from_native-from_sysfs no_display outs h = from_sysfs_lem outs h
  from_native-from_sysfs fails outs h = from_sysfs_lem outs h
  from_native-from_sysfs (answers ids) outs h = from_properties-from_sysfs ids outs h

  unasked :
      (ids : Dict String ℕ) (outs : Outputs)
      → any (λ (e : String × Output). lacks_edid e.1) outs ≡ false
      → from_properties src ids outs ≡ outs
  unfolding from_properties
  unasked ids [] h = refl
  unasked ids ((n, o) ∷ outs) h = ground (arith, unasked ids outs)

  unasked_native :
      (native : Native) (outs : Outputs)
      → any (λ (e : String × Output). lacks_edid e.1) outs ≡ false
      → (from_native src native outs).0 ≡ outs
  unfolding from_native
  unasked_native no_display outs h = refl
  unasked_native fails outs h = refl
  unasked_native (answers ids) outs h = unasked ids outs h

  -- Of outputs that have no EDID yet, `read_edids` gives every connected one the digest of its file
  -- under /sys where that holds bytes, or else of its EDID property where the X server has one, and
  -- changes nothing else, whether it returns or raises. A digest is not empty.
  pub read_edids-with_digests :
      (outs : Outputs)
      → All (λ (e : String × Output). e.1.edid_sha1 ≡ none) outs
      → (read_edids src outs).0
        ≡ with_digests src (λ n. edid_bytes_to_sha1 src (answer_of src src.native n)) outs
  unfolding read_edids
  read_edids-with_digests outs h =
      elim (Bool-cases (any (λ (e : String × Output). lacks_edid e.1) (from_sysfs src outs))) [
        | inl asked ↦ rw asked (from_native-from_sysfs src.native outs h)
        | inr none' ↦ rw none' (
            sym (unasked_native src.native (from_sysfs src outs) none')
            ∙ from_native-from_sysfs src.native outs h)
      ]
