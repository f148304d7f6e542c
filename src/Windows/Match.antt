-- ===== src/Windows/Match.antt =====
-- What a match of windows.py between a monitor and a connector says.
use mathlib.Core.Path.{subst}
use xrandrw.Prelude.{
  String, Bool, true, false, not, ◌&&◌, ◌≡◌, refl, ◌∙◌, some, [], ◌∷◌, arith, filter, any, All,
  All-filter, filter-All, ◌==◌, string_eq, eq_iff,
}
use xrandrw.Prelude.Int.{ℤ, int_eq}
use xrandrw.Prelude.Dict.{lookup, DistinctKeys, All-lookup}
use xrandrw.Json.{int}
use xrandrw.Outputs.{Output, Outputs, is_lit}
use xrandrw.Windows.{fits, tie_break, candidates, unique, connector_of}

abbrev Entry : Type 0
Entry = String × Output

All-tie_break : (P : Entry → Type 0) (g : Outputs) → All P g → All P (tie_break g)
All-tie_break P [] h = tt
All-tie_break P (a ∷ []) h = h
All-tie_break P (a ∷ b ∷ more) h = All-filter P (λ (e : Entry). e.1.connected) (a ∷ b ∷ more) h

unique-All :
    (P : Entry → Type 0) (g : Outputs) (c : String)
    → All P g
    → unique g ≡ some c
    → (o : Output) × P (c, o)
unique-All P [] c h e = ground arith
unique-All P ((n, o) ∷ []) c (p, h) e =
    let same : n ≡ c = ground arith in (o, subst (λ m. P (m, o)) same p)
unique-All P ((n, o) ∷ _ ∷ _) c h e = ground arith

-- Another connected output.
abbrev is_rival : String → Entry → Bool
is_rival c e = e.1.connected && not (e.0 == c)

any-filter :
    (c : String) (p : Entry → Bool) (outs : Outputs)
    → any (λ (e : Entry). p e && is_rival c e) outs ≡ any (is_rival c) (filter p outs)
any-filter c p [] = refl
any-filter c p (e ∷ outs) = ground (arith, any-filter c p outs)

any-connected :
    (c : String) (g : Outputs)
    → any (is_rival c) g
      ≡ any (λ (e : Entry). not (e.0 == c)) (filter (λ (e : Entry). e.1.connected) g)
any-connected c [] = refl
any-connected c (e ∷ g) = ground (arith, any-connected c g)

unique-alone :
    (g : Outputs) (c : String) → unique g ≡ some c → any (λ (e : Entry). not (e.0 == c)) g ≡ false
unique-alone [] c e = ground arith
unique-alone ((n, o) ∷ []) c e = ground (arith, eq_iff n c)
unique-alone ((n, o) ∷ _ ∷ _) c e = ground arith

tie_break-alone :
    (g : Outputs) (c : String) → unique (tie_break g) ≡ some c → any (is_rival c) g ≡ false
tie_break-alone [] c e = refl
tie_break-alone ((n, o) ∷ []) c e = ground (arith, eq_iff n c)
tie_break-alone (a ∷ b ∷ more) c e =
    any-connected c (a ∷ b ∷ more)
    ∙ unique-alone (filter (λ (x : Entry). x.1.connected) (a ∷ b ∷ more)) c e

both : (P Q : Entry → Type 0) (g : Outputs) → All P g → All Q g → All (λ e. P e × Q e) g
both P Q [] a b = tt
both P Q (e ∷ g) (p, a) (q, b) = ((p, q), both P Q g a b)

fits-is_lit : (x y w h : ℤ) (o : Output) → fits x y w h o ≡ true → is_lit o ≡ true
unfolding is_lit
fits-is_lit x y w h o e = ground arith

-- A monitor that is matched with a connector has the origin and the size of that output, which is
-- driven, and of no other output that is connected. Each output is read once.
pub connector_of_sound :
    (outs : Outputs) (x y w h : ℤ) (c : String)
    → DistinctKeys outs
    → connector_of outs (int x) (int y) (int w) (int h) ≡ some c
    → (o : Output) × (lookup c outs ≡ some o)
      × (fits x y w h o ≡ true)
      × (is_lit o ≡ true)
      × (any (λ (e : String × Output). fits x y w h e.1 && (e.1.connected && not (e.0 == c))) outs
          ≡ false)
unfolding connector_of candidates
connector_of_sound outs x y w h c u e =
    let fit = λ (e : Entry). fits x y w h e.1 in
    let g = filter fit outs in
    let (o, p) =
      unique-All (λ (k : Entry). (lookup k.0 outs ≡ some k.1) × (fit k ≡ true)) (tie_break g) c
        (All-tie_break _ g (
          both (λ (k : Entry). lookup k.0 outs ≡ some k.1) (λ (k : Entry). fit k ≡ true) g
            (All-filter _ fit outs (All-lookup outs u)) (filter-All fit outs)))
        e in
    (o, p.0, p.1, fits-is_lit x y w h o p.1, any-filter c fit outs ∙ tie_break-alone g c e)
