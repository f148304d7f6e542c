-- ===== src/Relocate/Guard/Dwm.antt =====
-- What dwm does on a `tagmon` hop, by the layout of its lists (`dirtomon`, `sendmon`, `focus(NULL)`,
-- `tile`): the description that the guard of relocate.py is measured against.
use xrandrw.Prelude.{
  ℕ, zero, suc, ◌+◌, ◌-◌, ◌≡◌, Bool, true, false, not, ◌&&◌, Option, none, some, List, [], ◌∷◌,
  length, filter, any, nat_eq, ◌==◌, ltb, if◌then◌else◌,
}
use xrandrw.Prelude.Int.{ℤ, pos, int_eq, intersects}
use xrandrw.Relocate.Guard.{ClientState, MonitorState, visible}

abbrev pub get_elem? {ℓ} : {A : Type ℓ} → List A → ℕ → Option A
get_elem? [] i = none
get_elem? (x ∷ xs) zero = some x
get_elem? (x ∷ xs) (suc i) = get_elem? xs i

-- `dirtomon`: the next monitor of the list, or the first after the last; the one before, or the last.
abbrev pub dirtomon : ℕ → ℕ → Bool → ℕ
dirtomon n i true = if ltb (i + 1) n then i + 1 else 0
dirtomon n i false = if i == 0 then n - 1 else i - 1

-- `detach`
abbrev pub detach : ℤ → List ClientState → List ClientState
detach x [] = []
detach x (c ∷ cs) = let rest = detach x cs in if c.xid == x then rest else c ∷ rest

-- `sendmon` of the client `moved`: off the source, and on the destination with its tags.
abbrev pub sendmon : ClientState → ℤ → ℤ → MonitorState → MonitorState
sendmon moved source dest m =
    if m.num == dest
    then record m { clients = record moved { tags = m.tagset } ∷ m.clients }
    else if m.num == source
    then record m { clients = detach moved.xid m.clients }
    else m

-- `tile`'s `n`: the clients that `nexttiled` reaches.
abbrev pub tile_n : MonitorState → ℕ
tile_n m = length (filter (λ c. not c.floating && visible c m.tagset) m.clients)

-- `focus(NULL)` finds nobody on the monitor that the client has left, and the `arrange` that follows
-- lays out some monitor with `n == 1`.
abbrev pub dwm_crashes : List MonitorState → ClientState → MonitorState → MonitorState → Bool
dwm_crashes mons moved source dest =
    not (any (λ c. visible c source.tagset) (detach moved.xid source.clients))
    && any (λ m. tile_n (sendmon moved source.num dest.num m) == 1) mons

-- dwm numbers its monitors in the order of the list.
abbrev pub Numbered : ℕ → List MonitorState → Type 0
Numbered i [] = Unit
Numbered i (m ∷ ms) = (m.num ≡ pos i) × Numbered (suc i) ms

abbrev pub IsShown : MonitorState → Type 0
IsShown m = intersects m.tagset m.tagset ≡ true
