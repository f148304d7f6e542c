-- ===== src/Wallpaper/Chain.antt =====
-- Which backends `apply_wallpaper` of wallpaper.py tries.
use mathlib.Core.Path.{subst}
use xrandrw.Prelude.{
  Bool, true, false, ◌&&◌, ◌≡◌, refl, ◌∙◌, sym, none, some, List, [], ◌∷◌, filter, Option-cases,
  inl, inr, if◌then◌else◌,
}
use xrandrw.Config.{Env}
use xrandrw.Wallpaper.{
  Backend, feh, fehbg, xwallpaper, native, Attempt, applied, failed, skipped, Machine, configured,
  prefers_xwallpaper, select_wallpaper_backend, detected, wallpaper_backend_chain, try_backend,
  continue_with, try_chain, apply_wallpaper,
}

-- The tries are those of the chain in its order: each but the last has failed, and where the last has
-- failed too, the whole chain was tried.
abbrev pub Follows : List Backend → List (Backend × Attempt) → Type 0
Follows [] [] = Unit
Follows [] (t ∷ tries) = ⊥
Follows (b ∷ chain) [] = ⊥
Follows (b ∷ chain) ((c, failed) ∷ tries) = (c ≡ b) × Follows chain tries
Follows (b ∷ chain) ((c, applied) ∷ tries) = (c ≡ b) × (tries ≡ [])
Follows (b ∷ chain) ((c, skipped) ∷ tries) = (c ≡ b) × (tries ≡ [])

Follows-continue_with :
    (m : Machine) (b : Backend) (chain : List Backend) (a : Attempt)
    (rest : List (Backend × Attempt))
    → Follows chain rest
    → Follows (b ∷ chain) (continue_with m b a rest)
Follows-continue_with m b chain failed rest h = (refl, h)
Follows-continue_with m b chain applied rest h = (refl, refl)
Follows-continue_with m b chain skipped rest h = (refl, refl)

module _ (m : Machine) where
  try_chain-Follows :
      (chain : List Backend) (env : Env) (w : m.World) → Follows chain (try_chain m chain env w).0
  unfolding try_chain
  try_chain-Follows [] env w = tt
  try_chain-Follows (b ∷ chain) env w =
      Follows-continue_with m b chain (try_backend m b env w).0 _
        (try_chain-Follows chain env (try_backend m b env w).1)

-- Whether the auto-detection offers a backend: its program is found, and xwallpaper is asked for too;
-- the drawing by Xlib is always offered.
abbrev pub is_offered : Machine → Env → Backend → Bool
is_offered m env xwallpaper = prefers_xwallpaper env && m.which "xwallpaper"
is_offered m env fehbg = m.which "fehbg"
is_offered m env feh = m.which "feh"
is_offered m env native = true

-- The engine that the user has configured alone, else every backend that is offered, in the order of
-- preference.
abbrev pub expected : Machine → Env → List Backend
expected m env = elim (configured env) [
  | some b ↦ b ∷ []
  | none ↦ filter (is_offered m env) (xwallpaper ∷ fehbg ∷ feh ∷ native ∷ [])
]

abbrev best : Bool → Bool → Bool → Backend
best xw fb fe = if xw then xwallpaper else if fb then fehbg else if fe then feh else native

detected-best :
    (xw fb fe : Bool) → (rest : List Backend) × (detected xw fb fe ≡ best xw fb fe ∷ rest)
detected-best true fb fe = (_, refl)
detected-best false true fe = (_, refl)
detected-best false false true = (_, refl)
detected-best false false false = (_, refl)

-- The chain of the environment and the programs that the machine has.
abbrev pub chain_of : Machine → Env → List Backend
chain_of m env =
    wallpaper_backend_chain env (m.which "xwallpaper") (m.which "fehbg") (m.which "feh")

chain-select :
    (env : Env) (xw fb fe : Bool)
    → (rest : List Backend) × (wallpaper_backend_chain env xw fb fe
        ≡ select_wallpaper_backend env xw fb fe ∷ rest)
unfolding wallpaper_backend_chain select_wallpaper_backend
chain-select env xw fb fe = elim (Option-cases (configured env)) [
  | inr (b, e) ↦ ([], rw (e, wallpaper_backend_chain, select_wallpaper_backend) refl)
  | inl e ↦
      let (rest, h) = detected-best (prefers_xwallpaper env && xw) fb fe in
      (rest, rw (e, wallpaper_backend_chain, select_wallpaper_backend) h)
]

detected-filter :
    (m : Machine) (env : Env)
    → detected (is_offered m env xwallpaper) (is_offered m env fehbg) (is_offered m env feh)
      ≡ filter (is_offered m env) (xwallpaper ∷ fehbg ∷ feh ∷ native ∷ [])
detected-filter m env = go (is_offered m env xwallpaper) (m.which "fehbg") (m.which "feh")
  where
    go :
        (xw fb fe : Bool)
        → detected xw fb fe ≡ (
            let last = native ∷ [] in
            let then_feh = if fe then feh ∷ last else last in
            let then_fehbg = if fb then fehbg ∷ then_feh else then_feh in
            if xw then xwallpaper ∷ then_fehbg else then_fehbg)
    go true true true = refl
    go true true false = refl
    go true false true = refl
    go true false false = refl
    go false true true = refl
    go false true false = refl
    go false false true = refl
    go false false false = refl

chain-expected : (m : Machine) (env : Env) → chain_of m env ≡ expected m env
unfolding wallpaper_backend_chain
chain-expected m env = elim (Option-cases (configured env)) [
  | inr (b, e) ↦ rw (e, wallpaper_backend_chain, expected) refl
  | inl e ↦ rw (e, wallpaper_backend_chain, expected) (detected-filter m env)
]

-- The backends that are tried are those of the chain, in its order: each but the last has failed, and
-- where the last has failed too, the whole chain was tried. The chain is the engine that the user has
-- configured alone; else xwallpaper, if it is asked for and found, fehbg and feh, if they are found,
-- and the drawing by Xlib. It begins with the backend that is logged as selected.
pub apply_wallpaper-Follows :
    (m : Machine) (env : Env) (w : m.World)
    → Follows (expected m env) (apply_wallpaper m env w).0
      × ((rest : List Backend) × (expected m env
            ≡ select_wallpaper_backend env (m.which "xwallpaper") (m.which "fehbg") (m.which "feh")
              ∷ rest))
unfolding apply_wallpaper
apply_wallpaper-Follows m env w =
    let (rest, h) = chain-select env (m.which "xwallpaper") (m.which "fehbg") (m.which "feh") in
    (
      subst (λ c. Follows c (try_chain m (chain_of m env) env w).0) (chain-expected m env)
          (try_chain-Follows m (chain_of m env) env w),
      (rest, sym (chain-expected m env) ∙ h),
    )
