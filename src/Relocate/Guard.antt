-- ===== src/Relocate/Guard.antt =====
-- relocate.py: the crash guard of one `tagmon` hop, over states normalised out of the IPC replies.
pub mod Dwm
mod Entries
pub mod Sendmon
use xrandrw.Prelude.{
  ℕ, zero, suc, ◌+◌, ◌-◌, ◌%◌, ◌≡◌, refl, Bool, true, false, not, ◌&&◌, ◌||◌, Option, none, some,
  List, [], ◌∷◌, length, filter, any, map, nat_eq, ◌==◌, ltb, if◌then◌else◌,
}
use xrandrw.Prelude.Int.{ℤ, pos, negsuc, ◌+ℤ◌, int_eq, ltb_ℤ, intersects}
use xrandrw.Prelude.Dict.{Dict, lookup, insert, from_entries, values}

pub record ClientState : Type 0 where
  pub xid : ℤ
  pub tags : ℤ
  pub floating : Bool

pub record MonitorState : Type 0 where
  pub num : ℤ
  pub tagset : ℤ
  pub clients : List ClientState

abbrev pub visible : ClientState → ℤ → Bool
visible client tagset = intersects client.tags tagset

-- `c.xid != exclude`, where `exclude` may be `None`
abbrev is_excluded : Option ℤ → ClientState → Bool
is_excluded none c = false
is_excluded (some x) c = c.xid == x

unfoldable pub tiled_count : List ClientState → ℤ → Option ℤ → ℕ
tiled_count clients tagset exclude =
    length (filter (λ c. not (is_excluded exclude c) && visible c tagset && not c.floating) clients)

unfoldable pub visible_count : List ClientState → ℤ → Option ℤ → ℕ
visible_count clients tagset exclude =
    length (filter (λ c. not (is_excluded exclude c) && visible c tagset) clients)

abbrev pub find {ℓ} : {A : Type ℓ} → (A → Bool) → List A → Option A
find p [] = none
find p (x ∷ xs) = let rest = find p xs in if p x then some x else rest

-- `a % n` for a positive `n`: the remainder has the sign of `n`.
abbrev pub mod_ℤ : ℤ → ℕ → ℕ
mod_ℤ (pos a) n = a % n
mod_ℤ (negsuc a) n = n - 1 - a % n

abbrev pub has_client : ℤ → MonitorState → Bool
has_client x m = any (λ (c : ClientState). c.xid == x) m.clients

-- `dirtomon(source, direction)`, as a monitor number
abbrev pub dest_num : ℤ → ℤ → ℕ → ℤ
dest_num source direction n =
    pos (mod_ℤ (source +ℤ (if ltb_ℤ (pos 0) direction then pos 1 else negsuc 0)) n)

-- The part of the predicate below the unresolved cases.
unfoldable pub hop_risk : List MonitorState → ℤ → MonitorState → ClientState → MonitorState → Bool
hop_risk mons x source moved dest =
    let source_emptied : Bool = visible_count source.clients source.tagset (some x) == 0 in
    let counts : Dict ℤ ℕ =
      from_entries
        (map (λ (m : MonitorState). (m.num, tiled_count m.clients m.tagset none)) mons) in
    let left : Dict ℤ ℕ =
      insert source.num (tiled_count source.clients source.tagset (some x)) counts in
    let post_tiled : Dict ℤ ℕ =
      insert dest.num
        (tiled_count dest.clients dest.tagset none + (if moved.floating then 0 else 1)) left in
    source_emptied && any (λ c. c == 1) (values post_tiled)

unfoldable pub tagmon_crash_risk : List MonitorState → ℤ → ℤ → Bool
tagmon_crash_risk mons x direction = elim (find (has_client x) mons) [
  | none ↦ true
  | some source ↦
      if ltb (length mons) 2
      then true
      else elim (find (λ (c : ClientState). c.xid == x) source.clients) [
        | none ↦ true
        | some moved ↦
            elim (lookup (dest_num source.num direction (length mons))
              (from_entries (map (λ (m : MonitorState). (m.num, m)) mons))) [
                | none ↦ true
                | some dest ↦ hop_risk mons x source moved dest
              ]
      ]
]
