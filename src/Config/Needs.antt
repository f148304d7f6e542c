-- ===== src/Config/Needs.antt =====
-- What a run of assignments to config.py's environment needs and keeps.
use xrandrw.Prelude.{
  String, Bool, true, not, ◌≡◌, ◌∙◌, Option, some, List, [], ◌∷◌, arith, ◌==◌, string_eq, ◌&&◌,
}
use xrandrw.Prelude.Partial.{◌>>=◌}
use xrandrw.Config.{Progress}
use xrandrw.Config.Steps.{Pred, Has, Same, Sets}

abbrev pub Needs : Type 1
Needs = List (String × Pred)

abbrev pub AllHave : Needs → Progress → Type 0
AllHave [] p = Unit
AllHave ((k, P) ∷ needs) p = Has k P p × AllHave needs p

pub record Meets (needs : Needs) (p : Progress) : Type 0 where
  pub values : AllHave needs p

-- The key is none of those.
abbrev pub is_fresh : String → Needs → Bool
is_fresh k [] = true
is_fresh k ((j, P) ∷ needs) = not (k == j) && is_fresh k needs

pub AllHave-Same :
    (needs : Needs) (k : String) (p p' : Progress)
    → Same k p p'
    → is_fresh k needs ≡ true
    → AllHave needs p
    → AllHave needs p'
AllHave-Same [] k p p' same f m = tt
AllHave-Same ((j, P) ∷ needs) k p p' same f (has, m) = (
  record { text = has.text; found = same j (ground arith) ∙ has.found; holds = has.holds },
  AllHave-Same needs k p p' same (ground arith) m,
)

pub Meets-Same :
    (needs : Needs) (k : String) (p p' : Progress)
    → Same k p p'
    → is_fresh k needs ≡ true
    → Meets needs p
    → Meets needs p'
Meets-Same needs k p p' same f m = record { values = AllHave-Same needs k p p' same f m.values }

pub Meets-cons :
    (k : String) (P : Pred) (needs : Needs) (p : Progress)
    → Has k P p
    → Meets needs p
    → Meets ((k, P) ∷ needs) p
Meets-cons k P needs p has m = record { values = (has, m.values) }

-- The run returns, and its environment has what is needed.
abbrev pub Returns : Needs → Option Progress → Type 0
Returns needs m = (p : Progress) × (m ≡ some p) × Meets needs p

-- One assignment, and what is left to do behind it.
pub advance :
    (k : String) (Q P : Pred) (f g : Progress → Option Progress) (todo finished final : Needs)
    (p : Progress)
    → Sets k Q P f
    → is_fresh k todo ≡ true
    → is_fresh k finished ≡ true
    → Meets ((k, Q) ∷ todo) p
    → Meets finished p
    → ((p' : Progress) → Meets todo p' → Meets ((k, P) ∷ finished) p' → Returns final (g p'))
    → Returns final (f p >>= g)
advance k Q P f g todo finished final p sets new fresh m d later =
    let (p', e, got, same) = sets p m.values.0 in
    let rest =
      later p' (Meets-Same todo k p p' same new (record { values = m.values.1 }))
        (Meets-cons k P finished p' got (Meets-Same finished k p p' same fresh d)) in
    (rest.0, rw e rest.1, rest.2)
