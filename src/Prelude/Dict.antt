-- ===== src/Prelude/Dict.antt =====
-- Python's `dict`: entries in insertion order, an assignment to a known key keeps its place.
use mathlib.Core.Path.{◌≡◌, refl}
use mathlib.Core.Bool.{false, ◌||◌}
use mathlib.Core.Option.{Option, none, some}
use mathlib.Core.List.{List, [], ◌∷◌, ◌++◌, append-nil, append_assoc}
use native.Mathlib.Omega.{arith}
use xrandrw.Prelude.Tests.{if◌then◌else◌}
use xrandrw.Prelude.Lists.{All}
use xrandrw.Prelude.Equality.{Eq, ◌==◌, contains}

abbrev pub Dict {ℓ κ} : Type ℓ → Type κ → Type (ℓ ⊔ κ)
Dict K V = List (K × V)

module _ {ℓ κ} {K : Type ℓ} {V : Type κ} where
  abbrev pub keys : Dict K V → List K
  keys [] = []
  keys ((k, v) ∷ d) = k ∷ keys d

  abbrev pub values : Dict K V → List V
  values [] = []
  values ((k, v) ∷ d) = v ∷ values d

module _ {ℓ} {K : Type ℓ} ⦃e : Eq K⦄ where
  contains-snoc :
      (j k : K) (ks : List K)
      → contains j ks ≡ false
      → (k == j) ≡ false
      → contains j (ks ++ k ∷ []) ≡ false
  contains-snoc j k [] h n = ground arith
  contains-snoc j k (i ∷ ks) h n = ground (arith, contains-snoc j k ks)

module _ {ℓ κ} {K : Type ℓ} {V : Type κ} ⦃e : Eq K⦄ where
  -- `d.get(k)`
  unfoldable pub lookup : K → Dict K V → Option V
  lookup k [] = none
  lookup k ((j, v) ∷ d) = let rest = lookup k d in if j == k then some v else rest

  -- `d[k] = v`
  unfoldable pub insert : K → V → Dict K V → Dict K V
  insert k v [] = (k, v) ∷ []
  insert k v ((j, w) ∷ d) = let rest = insert k v d in if j == k then (j, v) ∷ d else (j, w) ∷ rest

  -- `d.pop(k, None)`
  unfoldable pub remove : K → Dict K V → Dict K V
  remove k [] = []
  remove k ((j, w) ∷ d) = let rest = remove k d in if j == k then rest else (j, w) ∷ rest

  -- `{k: v for ...}`: later entries overwrite.
  unfoldable pub insert_all : Dict K V → Dict K V → Dict K V
  insert_all d [] = d
  insert_all d ((k, v) ∷ more) = insert_all (insert k v d) more

  abbrev pub from_entries : Dict K V → Dict K V
  from_entries = insert_all []

  -- A key occurs once.
  abbrev pub DistinctKeys : Dict K V → Type 0
  DistinctKeys [] = Unit
  DistinctKeys ((k, v) ∷ d) = (contains k (keys d) ≡ false) × DistinctKeys d

  pub lookup-insert :
      (j k : K) (v : V) (d : Dict K V)
      → lookup j (insert k v d) ≡ (if k == j then some v else lookup j d)
  unfolding lookup insert
  lookup-insert j k v [] = refl
  lookup-insert j k v ((i, w) ∷ d) =
      ground (arith, lookup-insert j k v d, e.beq_iff i k, e.beq_iff i j, e.beq_iff k j)

  pub lookup-remove :
      (j k : K) (d : Dict K V) → lookup j (remove k d) ≡ (if k == j then none else lookup j d)
  unfolding lookup remove
  lookup-remove j k [] = ground arith
  lookup-remove j k ((i, w) ∷ d) =
      ground (arith, lookup-remove j k d, e.beq_iff i k, e.beq_iff i j, e.beq_iff k j)

  -- A key that is new goes to the end.
  insert_new :
      (k : K) (v : V) (d : Dict K V) → contains k (keys d) ≡ false → insert k v d ≡ d ++ (k, v) ∷ []
  unfolding insert
  insert_new k v [] h = refl
  insert_new k v ((j, w) ∷ d) h = ground (arith, insert_new k v d)

  keys-snoc : (k : K) (v : V) (d : Dict K V) → keys (d ++ (k, v) ∷ []) ≡ keys d ++ k ∷ []
  keys-snoc k v [] = refl
  keys-snoc k v ((j, w) ∷ d) = ground (arith, keys-snoc k v d)

  -- No key of `more` is a key of `d`.
  abbrev Fresh : Dict K V → Dict K V → Type 0
  Fresh d [] = Unit
  Fresh d ((k, v) ∷ more) = (contains k (keys d) ≡ false) × Fresh d more

  Fresh-snoc :
      (d : Dict K V) (k : K) (v : V) (more : Dict K V)
      → Fresh d more
      → contains k (keys more) ≡ false
      → Fresh (d ++ (k, v) ∷ []) more
  Fresh-snoc d k v [] f h = tt
  Fresh-snoc d k v ((j, w) ∷ more) (n, f) h = (
    rw (keys-snoc k v d)
        (contains-snoc j k (keys d) n (ground (arith, e.beq_iff j k, e.beq_iff k j))),
    Fresh-snoc d k v more f (ground arith),
  )

  insert_all-Fresh :
      (d more : Dict K V) → DistinctKeys more → Fresh d more → insert_all d more ≡ d ++ more
  unfolding insert_all
  insert_all-Fresh d [] u f = rw append-nil
  insert_all-Fresh d ((k, v) ∷ more) (h, u) (n, f) = rw (insert_new k v d n) (
      rw (insert_all-Fresh (d ++ (k, v) ∷ []) more u (Fresh-snoc d k v more f h))
        (append_assoc d ((k, v) ∷ []) more))

  Fresh-nil : (more : Dict K V) → Fresh [] more
  Fresh-nil [] = tt
  Fresh-nil ((k, v) ∷ more) = (refl, Fresh-nil more)

  -- A dict of distinct keys holds its entries as they were given.
  pub from_entries_distinct : (d : Dict K V) → DistinctKeys d → from_entries d ≡ d
  from_entries_distinct d u = insert_all-Fresh [] d u (Fresh-nil d)

module _ {ℓ κ} {K : Type ℓ} {V : Type κ} ⦃e : Eq K⦄ where
  pub contains-keys-insert :
      (j k : K) (v : V) (d : Dict K V)
      → contains j (keys (insert k v d)) ≡ (contains j (keys d) || (k == j))
  unfolding insert
  contains-keys-insert j k v [] = ground arith
  contains-keys-insert j k v ((i, w) ∷ d) =
      ground (arith, contains-keys-insert j k v d, e.beq_iff i k, e.beq_iff i j, e.beq_iff k j)

  pub insert-DistinctKeys :
      (k : K) (v : V) (d : Dict K V) → DistinctKeys d → DistinctKeys (insert k v d)
  unfolding insert
  insert-DistinctKeys k v [] u = (refl, tt)
  insert-DistinctKeys k v ((i, w) ∷ d) (n, u) = ground (
    arith,
    insert-DistinctKeys k v d u,
    contains-keys-insert i k v d,
    e.beq_iff i k,
    e.beq_iff k i,
  )

  absent-remove :
      (j k : K) (d : Dict K V)
      → contains j (keys d) ≡ false
      → contains j (keys (remove k d)) ≡ false
  unfolding remove
  absent-remove j k [] h = refl
  absent-remove j k ((i, w) ∷ d) h = ground (arith, absent-remove j k d)

  pub remove-DistinctKeys : (k : K) (d : Dict K V) → DistinctKeys d → DistinctKeys (remove k d)
  unfolding remove
  remove-DistinctKeys k [] u = tt
  remove-DistinctKeys k ((i, w) ∷ d) (n, u) =
      ground (arith, remove-DistinctKeys k d u, absent-remove i k d n)

  pub lookup-absent : (k : K) (d : Dict K V) → contains k (keys d) ≡ false → lookup k d ≡ none
  unfolding lookup
  lookup-absent k [] h = refl
  lookup-absent k ((i, w) ∷ d) h = ground (arith, lookup-absent k d)

  pub lookup-cons :
      (j k : K) (v : V) (d : Dict K V)
      → lookup j ((k, v) ∷ d) ≡ (if k == j then some v else lookup j d)
  unfolding lookup
  lookup-cons j k v d = refl

  pub lookup-nil : (j : K) → lookup {V = V} j [] ≡ none
  unfolding lookup
  lookup-nil j = refl

  All-lookup_cons :
      (k : K) (v : V) (d more : Dict K V)
      → contains k (keys more) ≡ false
      → All (λ (e : K × V). lookup e.0 d ≡ some e.1) more
      → All (λ (e : K × V). lookup e.0 ((k, v) ∷ d) ≡ some e.1) more
  unfolding lookup
  All-lookup_cons k v d [] h a = tt
  All-lookup_cons k v d ((j, w) ∷ more) h (p, a) =
      (ground (arith, e.beq_iff k j, e.beq_iff j k), All-lookup_cons k v d more (ground arith) a)

  -- In a dict of distinct keys each entry is the one that is found.
  pub All-lookup : (d : Dict K V) → DistinctKeys d → All (λ (e : K × V). lookup e.0 d ≡ some e.1) d
  unfolding lookup
  All-lookup [] u = tt
  All-lookup ((k, v) ∷ d) (n, u) =
      (ground (arith, e.beq_iff k k), All-lookup_cons k v d d n (All-lookup d u))
