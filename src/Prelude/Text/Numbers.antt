-- ===== src/Prelude/Text/Numbers.antt =====
-- A number that is shown is read back.
use xrandrw.Prelude.Text.Cuts.{Free}
use Prim.Native.Char.{Char, code}
use Prim.Native.Nat.{ℕ, zero, suc, ◌+◌, ◌*◌, ◌/◌, ◌%◌, ◌<◌}
use Prim.Native.String.{String}
use mathlib.Core.Path.{◌≡◌, refl, ap, ◌∙◌}
use mathlib.Core.Bool.{Bool, true, false}
use mathlib.Core.Option.{some}
use mathlib.Core.Logic.{inl, inr}
use native.Mathlib.Omega.{arith}
use xrandrw.Prelude.Tests.{ltb, Bool-cases}
use xrandrw.Prelude.Int.{ℤ, pos, negsuc}
use xrandrw.Prelude.Text.{
  is_space, lstrip, rstrip, strip, is_digit, digits, parse_signed, parse_int, digit, signed, minus,
  show_digits, show_int,
}

pub code-digit : (n : ℕ) → n < 10 → code (digit n) ≡ 48 + n
code-digit zero h = refl
code-digit (suc zero) h = refl
code-digit (suc (suc zero)) h = refl
code-digit (suc (suc (suc zero))) h = refl
code-digit (suc (suc (suc (suc zero)))) h = refl
code-digit (suc (suc (suc (suc (suc zero))))) h = refl
code-digit (suc (suc (suc (suc (suc (suc zero)))))) h = refl
code-digit (suc (suc (suc (suc (suc (suc (suc zero))))))) h = refl
code-digit (suc (suc (suc (suc (suc (suc (suc (suc zero)))))))) h = refl
code-digit (suc (suc (suc (suc (suc (suc (suc (suc (suc zero))))))))) h = refl
code-digit (suc (suc (suc (suc (suc (suc (suc (suc (suc (suc (n))))))))))) h = absurd (omega arith)

digits-digit :
    (after : Bool) (acc n : ℕ) (s : String)
    → n < 10
    → digits after acc (String.◌∷◌ (digit n) s) ≡ digits true (acc * 10 + n) s
unfolding digits
digits-digit after acc n s h = ground (arith, code-digit n h)

digits-show_digits :
    (fuel n : ℕ) (after : Bool) (s : String)
    → n < fuel
    → digits after 0 (show_digits fuel n s) ≡ digits true n s
unfolding show_digits
digits-show_digits zero n after s h = absurd (omega arith)
digits-show_digits (suc fuel) n after s h = elim (Bool-cases (ltb n 10)) [
  | inl one ↦
      rw one (digits-digit after 0 n s (ground arith) ∙ ap (λ k. digits true k s) (omega arith))
  | inr more ↦ rw more (
      digits-show_digits fuel (n / 10) after (String.◌∷◌ (digit (n % 10)) s) (ground arith)
      ∙ digits-digit true (n / 10) (n % 10) s (omega arith)
      ∙ ap (λ k. digits true k s) (omega arith))
]

-- No character of the text is white space.
abbrev pub Solid : String → Type 0
Solid = Free is_space

lstrip-Solid : (s : String) → Solid s → lstrip s ≡ s
unfolding lstrip
lstrip-Solid String.[] h = refl
lstrip-Solid (String.◌∷◌ c s) (e, h) = rw e refl

rstrip-Solid : (s : String) → Solid s → rstrip s ≡ s
unfolding rstrip
rstrip-Solid String.[] h = refl
rstrip-Solid (String.◌∷◌ c s) (e, h) = rw e (ap (String.◌∷◌ c) (rstrip-Solid s h))

pub strip-Solid : (s : String) → Solid s → strip s ≡ s
unfolding strip
strip-Solid s h = ap rstrip (lstrip-Solid s h) ∙ rstrip-Solid s h

digit-Solid : (n : ℕ) → n < 10 → is_space (digit n) ≡ false
digit-Solid zero h = refl
digit-Solid (suc zero) h = refl
digit-Solid (suc (suc zero)) h = refl
digit-Solid (suc (suc (suc zero))) h = refl
digit-Solid (suc (suc (suc (suc zero)))) h = refl
digit-Solid (suc (suc (suc (suc (suc zero))))) h = refl
digit-Solid (suc (suc (suc (suc (suc (suc zero)))))) h = refl
digit-Solid (suc (suc (suc (suc (suc (suc (suc zero))))))) h = refl
digit-Solid (suc (suc (suc (suc (suc (suc (suc (suc zero)))))))) h = refl
digit-Solid (suc (suc (suc (suc (suc (suc (suc (suc (suc zero))))))))) h = refl
digit-Solid (suc (suc (suc (suc (suc (suc (suc (suc (suc (suc n)))))))))) h = absurd (omega arith)

pub show_digits-Free :
    (p : Char → Bool) (fuel n : ℕ) (s : String)
    → ((d : ℕ) → d < 10 → p (digit d) ≡ false)
    → Free p s
    → Free p (show_digits fuel n s)
unfolding show_digits
show_digits-Free p zero n s f h = h
show_digits-Free p (suc fuel) n s f h = elim (Bool-cases (ltb n 10)) [
  | inl one ↦ rw one (f n (ground arith), h)
  | inr more ↦ rw more (show_digits-Free p fuel (n / 10) _ f (f (n % 10) (omega arith), h))
]

-- A number is shown by digits and a minus.
pub show_int-Free :
    (p : Char → Bool) (z : ℤ)
    → ((d : ℕ) → d < 10 → p (digit d) ≡ false)
    → p "-" ≡ false
    → Free p (show_int z)
unfolding show_int
show_int-Free p (pos n) f m = show_digits-Free p (suc n) n "" f tt
show_int-Free p (negsuc n) f m = (m, show_digits-Free p (suc (suc n)) (suc n) "" f tt)

digits_done : (n : ℕ) → digits true n "" ≡ some n
unfolding digits
digits_done n = refl

negative : (s : String) → parse_signed (String.◌∷◌ "-" s) ≡ signed minus (digits false 0 s)
unfolding parse_signed
negative s = refl

abbrev Leads : String → Type 0
Leads String.[] = ⊥
Leads (String.◌∷◌ c s) = is_digit c ≡ true

digit-is_digit : (n : ℕ) → n < 10 → is_digit (digit n) ≡ true
digit-is_digit n h = ground (arith, code-digit n h)

show_digits-Leads : (fuel n : ℕ) (s : String) → n < fuel → Leads (show_digits fuel n s)
unfolding show_digits
show_digits-Leads zero n s h = absurd (omega arith)
show_digits-Leads (suc fuel) n s h = elim (Bool-cases (ltb n 10)) [
  | inl one ↦ rw one (digit-is_digit n (ground arith))
  | inr more ↦ rw more (show_digits-Leads fuel (n / 10) _ (ground arith))
]

parse_signed-Leads : (s : String) → Leads s → parse_signed s ≡ signed pos (digits false 0 s)
unfolding parse_signed
parse_signed-Leads String.[] h = absurd h
parse_signed-Leads (String.◌∷◌ c s) h = ground arith

-- `int(str(z))` is `z`.
pub parse_int-show_int : (z : ℤ) → parse_int (show_int z) ≡ some z
unfolding parse_int show_int
parse_int-show_int (pos n) =
    let shown = show_digits (suc n) n "" in
    ap parse_signed (strip-Solid shown (show_digits-Free is_space (suc n) n "" digit-Solid tt))
    ∙ parse_signed-Leads shown (show_digits-Leads (suc n) n "" (omega arith))
    ∙ ap (signed pos) (digits-show_digits (suc n) n false "" (omega arith) ∙ digits_done n)
parse_int-show_int (negsuc n) =
    let shown = show_digits (suc (suc n)) (suc n) "" in
    ap parse_signed (
      strip-Solid (String.◌∷◌ "-" shown)
        (refl, show_digits-Free is_space (suc (suc n)) (suc n) "" digit-Solid tt))
    ∙ negative shown
    ∙ ap (signed minus)
        (digits-show_digits (suc (suc n)) (suc n) false "" (omega arith) ∙ digits_done (suc n))
