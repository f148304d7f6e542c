-- ===== src/Relocate/Chain.antt =====
-- The chains of relocate.py's actions, taken apart at their result.
use xrandrw.Prelude.{◌≡◌, refl, arith}
use xrandrw.Json.{Result, ok, unavailable, raised}
use xrandrw.Relocate.Seam.{State, M, lift, ◌>>=◌}

module _ {W A B : Type 0} where
  -- A chain that returns a value has had one from its first step.
  pub bind-ok :
      (m : M W A) (f : A → M W B) (s : State W) (b : B)
      → ((m >>= f) s).0 ≡ ok b
      → (a : A) × ((m s).0 ≡ ok a) × ((m >>= f) s ≡ f a (m s).1)
  unfolding ◌>>=◌
  bind-ok m f s b h = go (m s).0 (m s).1 h
    where
      go :
          (r : Result A) (u : State W)
          → ((lift r >>= f) u).0 ≡ ok b
          → (a : A) × (r ≡ ok a) × ((lift r >>= f) u ≡ f a u)
      go (ok a) u e = (a, refl, refl)
      go unavailable u e = ground arith
      go raised u e = ground arith
