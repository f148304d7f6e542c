-- ===== src/Relocate/Guard/Sendmon.antt =====
-- The guard of relocate.py against the description of dwm's `tagmon` hop.
use xrandrw.Prelude.{
  ℕ, ◌+◌, ◌-◌, ◌≤◌, ◌<◌, ◌%◌, ◌≡◌, refl, sym, true, false, not, ◌&&◌, none, some, List, [], ◌∷◌,
  length, filter, any, nat_eq, ◌==◌, ltb, arith, All, if◌then◌else◌, Bool-cases, inl, inr,
}
use mathlib.Core.Path.{subst}
use native.Mathlib.Nat.{mod-eq_of_lt, mod_self, zero-mod}
use xrandrw.Prelude.Int.{ℤ, pos, int_eq, ltb_ℤ, int_beq_iff}
use xrandrw.Prelude.Dict.{lookup, insert, from_entries, values, from_entries_distinct}
use xrandrw.Relocate.Guard.{
  ClientState, MonitorState, visible, tiled_count, visible_count, find, has_client, dest_num,
  hop_risk, tagmon_crash_risk,
}
use xrandrw.Relocate.Guard.Dwm.{
  Numbered, IsShown, get_elem?, dirtomon, detach, sendmon, tile_n, dwm_crashes,
}
use xrandrw.Relocate.Guard.Entries.{
  entries, DistinctKeys-entries, lookup-entries, insert-entries, only_at, below_length, num_at,
  IsShown-at,
}

forward_step : (n i : ℕ) → i < n → (i + 1) % n ≡ dirtomon n i true
forward_step n i lt = elim (Bool-cases (ltb (i + 1) n)) [
  | inl h ↦ rw (h, mod-eq_of_lt {n = i + 1} {m = n} (ground arith))
  | inr h ↦ let last : i + 1 ≡ n = ground arith in rw (h, last, mod_self n)
]

-- The modular step of the code is the walk along dwm's list.
dest_num-eq-dirtomon :
    (n i : ℕ) (direction : ℤ)
    → i < n
    → dest_num (pos i) direction n ≡ pos (dirtomon n i (ltb_ℤ (pos 0) direction))
dest_num-eq-dirtomon n i direction lt = elim (Bool-cases (ltb_ℤ (pos 0) direction)) [
  | inl forward ↦ ground (arith, forward_step n i lt)
  | inr back ↦ ground (arith, mod-eq_of_lt {n = i - 1} {m = n} (omega arith), zero-mod n)
]

visible_count-eq-focus :
    (x t : ℤ) (cs : List ClientState)
    → (visible_count cs t (some x) == 0) ≡ not (any (λ c. visible c t) (detach x cs))
unfolding visible_count
visible_count-eq-focus x t [] = refl
visible_count-eq-focus x t (c ∷ cs) = ground (arith, visible_count-eq-focus x t cs)

tiled_count-detach :
    (x t : ℤ) (cs : List ClientState)
    → tiled_count cs t (some x) ≡ length (filter (λ c. not c.floating && visible c t) (detach x cs))
unfolding tiled_count
tiled_count-detach x t [] = refl
tiled_count-detach x t (c ∷ cs) = ground (arith, tiled_count-detach x t cs)

tiled_count-none :
    (t : ℤ) (cs : List ClientState)
    → tiled_count cs t none ≡ length (filter (λ c. not c.floating && visible c t) cs)
unfolding tiled_count
tiled_count-none t [] = refl
tiled_count-none t (c ∷ cs) = ground (arith, tiled_count-none t cs)

any-values :
    (g : MonitorState → ℕ) (ms : List MonitorState)
    → any (λ c. c == 1) (values (entries g ms)) ≡ any (λ m. g m == 1) ms
any-values g [] = refl
any-values g (m ∷ ms) = ground (arith, any-values g ms)

find_client :
    (x : ℤ) (cs : List ClientState) {c : ClientState}
    → find (λ (d : ClientState). d.xid == x) cs ≡ some c
    → c.xid ≡ x
find_client x [] h = cc
find_client x (d ∷ cs) {c} h = elim (Bool-cases (d.xid == x)) [
  | inl e ↦ ground (arith, int_beq_iff d.xid x)
  | inr e ↦ find_client x cs {c = c} (ground arith)
]

module _ (mons : List MonitorState) (source dest : MonitorState) (moved : ClientState)
    (shown : IsShown dest) where
  -- The counts that the code keeps for the moved client's two monitors, and for the others.
  abbrev post : MonitorState → ℕ
  post m =
      if m.num == dest.num
      then tiled_count dest.clients dest.tagset none + (if moved.floating then 0 else 1)
      else if m.num == source.num
      then tiled_count source.clients source.tagset (some moved.xid)
      else tiled_count m.clients m.tagset none

  post_dest : post dest ≡ tile_n (sendmon moved source.num dest.num dest)
  post_dest =
      ground
        (arith, tiled_count-none dest.tagset dest.clients, shown, int_beq_iff dest.num dest.num)

  post_source :
      (source.num == dest.num) ≡ false
      → post source ≡ tile_n (sendmon moved source.num dest.num source)
  post_source apart = ground (
    arith,
    apart,
    tiled_count-detach moved.xid source.tagset source.clients,
    int_beq_iff source.num source.num,
  )

  post-eq-tile_n :
      (m : MonitorState)
      → (m.num ≡ source.num → m ≡ source)
      → (m.num ≡ dest.num → m ≡ dest)
      → post m ≡ tile_n (sendmon moved source.num dest.num m)
  post-eq-tile_n m from to = elim (Bool-cases (m.num == dest.num)) [
    | inl e ↦
        subst (λ k. post k ≡ tile_n (sendmon moved source.num dest.num k))
          (sym (to ((int_beq_iff m.num dest.num).0 e))) post_dest
    | inr e ↦ elim (Bool-cases (m.num == source.num)) [
      | inl f ↦
          let same : m ≡ source = from ((int_beq_iff m.num source.num).0 f) in
          subst (λ k. post k ≡ tile_n (sendmon moved source.num dest.num k)) (sym same)
            (post_source (subst (λ (k : MonitorState). (k.num == dest.num) ≡ false) same e))
      | inr f ↦ rw (e, f) (tiled_count-none m.tagset m.clients)
    ]
  ]

  any-post :
      (ms : List MonitorState)
      → All (λ m. m.num ≡ source.num → m ≡ source) ms
      → All (λ m. m.num ≡ dest.num → m ≡ dest) ms
      → any (λ m. post m == 1) ms ≡ any (λ m. tile_n (sendmon moved source.num dest.num m) == 1) ms
  any-post [] from to = refl
  any-post (m ∷ ms) (f, from) (t, to) = ground (arith, post-eq-tile_n m f t, any-post ms from to)

  abbrev before : MonitorState → ℕ
  before m = tiled_count m.clients m.tagset none

  -- The dict `post_tiled` holds `post` of every monitor.
  post_tiled-eq-entries :
      (i j : ℕ)
      → Numbered 0 mons
      → get_elem? mons i ≡ some source
      → get_elem? mons j ≡ some dest
      → source.num ≡ pos i
      → dest.num ≡ pos j
      → insert dest.num
          (tiled_count dest.clients dest.tagset none + (if moved.floating then 0 else 1))
          (insert source.num
            (tiled_count source.clients source.tagset (some moved.xid))
            (from_entries (entries before mons)))
        ≡ entries post mons
  post_tiled-eq-entries i j h p q si dj =
      simp (si, dj)
        (rw (from_entries_distinct (entries before mons) (DistinctKeys-entries before 0 mons h)) (
          rw
            (insert-entries before 0 i i (tiled_count source.clients source.tagset (some moved.xid))
              mons h (omega arith) (below_length mons i p))
            (insert-entries _ 0 j j _ mons h (omega arith) (below_length mons j q))))

  hop_risk-eq-dwm_crashes :
      (i j : ℕ)
      → Numbered 0 mons
      → get_elem? mons i ≡ some source
      → get_elem? mons j ≡ some dest
      → source.num ≡ pos i
      → dest.num ≡ pos j
      → hop_risk mons moved.xid source moved dest ≡ dwm_crashes mons moved source dest
  unfolding hop_risk
  hop_risk-eq-dwm_crashes i j h p q si dj = cc (
    post_tiled-eq-entries i j h p q si dj,
    visible_count-eq-focus moved.xid source.tagset source.clients,
    any-values post mons,
    any-post mons
        (subst (λ z. All (λ m. m.num ≡ z → m ≡ source) mons) (sym si)
          (only_at 0 i i mons h (omega arith) p))
        (subst (λ z. All (λ m. m.num ≡ z → m ≡ dest) mons) (sym dj)
          (only_at 0 j j mons h (omega arith) q)),
  )

-- On monitors that dwm numbers in order and that each show a tag, with the window on the monitor
-- at position `i` and at least two monitors, the guard's answer is exactly whether the hop crashes
-- dwm: the window's move along dwm's ring leaves its monitor with no visible client, and lays out
-- some monitor with one tiled client.
pub tagmon_crash_risk-eq-dwm_crashes :
    (mons : List MonitorState) (x direction : ℤ) (i : ℕ) {source dest : MonitorState}
    {moved : ClientState}
    → Numbered 0 mons
    → All IsShown mons
    → 2 ≤ length mons
    → find (has_client x) mons ≡ some source
    → get_elem? mons i ≡ some source
    → find (λ (c : ClientState). c.xid == x) source.clients ≡ some moved
    → get_elem? mons (dirtomon (length mons) i (ltb_ℤ (pos 0) direction)) ≡ some dest
    → tagmon_crash_risk mons x direction ≡ dwm_crashes mons moved source dest
unfolding tagmon_crash_risk
tagmon_crash_risk-eq-dwm_crashes mons x direction i {source} {dest} {moved} h sh two f p g q =
    let n : ℕ = length mons in
    let j : ℕ = dirtomon n i (ltb_ℤ (pos 0) direction) in
    let at : source.num ≡ pos i = ground (arith, num_at 0 i mons h p) in
    let to : dest.num ≡ pos j = ground (arith, num_at 0 j mons h q) in
    let same : moved.xid ≡ x = find_client x source.clients g in
    let found : lookup (dest_num source.num direction n) (from_entries (entries (λ m. m) mons))
        ≡ some dest =
      rw (at, dest_num-eq-dirtomon n i direction (below_length mons i p))
        (rw (from_entries_distinct (entries (λ m. m) mons) (DistinctKeys-entries (λ m. m) 0 mons h))
          (lookup-entries (λ m. m) 0 j j mons h (omega arith) q)) in
    ground (
      arith,
      f,
      two,
      g,
      found,
      same,
      hop_risk-eq-dwm_crashes mons source dest moved (IsShown-at mons j sh q) i j h p q at to,
    )
