-- ===== src/Json.antt =====
-- The values that `json.loads` returns (xrandrw/dwmipc.py), and the tests that the callers make on
-- them. A float literal is not modelled: dwm-ipc writes integers only.
use xrandrw.Prelude.{
  String, ◌≡◌, refl, ◌↔◌, Bool, true, false, not, Option, none, some, List, [], ◌∷◌, arith, eq_iff,
  Eq, ◌==◌, if◌then◌else◌, string_eq,
}
use xrandrw.Prelude.Int.{ℤ, pos, int_eq, int_beq_iff}

mutual
  pub data Json : Type 0 where
    null : Json
    bool : Bool → Json
    int : ℤ → Json
    str : String → Json
    arr : Items → Json
    obj : Fields → Json

  pub data Items : Type 0 where
    nil : Items
    cons : Json → Items → Items

  pub data Fields : Type 0 where
    end : Fields
    field : String → Json → Fields → Fields

-- What an operation of the program may end in: a value, `DwmIpcUnavailable`, or another exception.
pub data Result {ℓ} (A : Type ℓ) : Type ℓ where
  ok : A → Result A
  unavailable : Result A
  raised : Result A

infixl 5 ◌>>=◌
abbrev pub ◌>>=◌ {ℓ κ} : {A : Type ℓ} {B : Type κ} → Result A → (A → Result B) → Result B
ok a >>= f = f a
unavailable >>= f = unavailable
raised >>= f = raised

-- A chain that returns a value has had one at each step.
pub >>=-ok {ℓ κ} :
    {A : Type ℓ} {B : Type κ} (m : Result A) (f : A → Result B) (b : B)
    → (m >>= f) ≡ ok b
    → (a : A) × (m ≡ ok a) × (f a ≡ ok b)
>>=-ok (ok a) f b h = (a, refl, h)
>>=-ok unavailable f b h = ground arith
>>=-ok raised f b h = ground arith

pub ok_inj {ℓ} : {A : Type ℓ} {a b : A} → ok a ≡ ok b → a ≡ b
ok_inj h = cc

abbrev pub items : Items → List Json
items nil = []
items (cons j js) = j ∷ items js

abbrev pub member : String → Fields → Option Json
member k end = none
member k (field j v fs) = let rest = member k fs in if j == k then some v else rest

-- `isinstance(v, int)`, which a bool passes too
abbrev pub as_int : Json → Option ℤ
as_int (int z) = some z
as_int (bool true) = some (pos 1)
as_int (bool false) = some (pos 0)
as_int _ = none

-- `bool(v)`
abbrev pub truthy : Json → Bool
truthy null = false
truthy (bool b) = b
truthy (int z) = not (z == pos 0)
truthy (str s) = not (s == "")
truthy (arr nil) = false
truthy (arr (cons _ _)) = true
truthy (obj end) = false
truthy (obj (field _ _ _)) = true

-- `v.get(k)`: `None` for a missing key, an AttributeError if `v` is no dict
abbrev pub get : String → Json → Result Json
get k (obj fs) = elim (member k fs) [ none ↦ ok null | some v ↦ ok v ]
get k _ = raised

-- `v[k]`: a KeyError for a missing key, a TypeError if `v` is no dict
abbrev pub index : String → Json → Result Json
index k (obj fs) = elim (member k fs) [ none ↦ raised | some v ↦ ok v ]
index k _ = raised

-- What `==` and `in` see of a value that is compared with a number or used as a key: a bool is the
-- number that it counts as, and no container equals a number, a text or `None`.
pub data Key : Type 0 where
  nothing : Key
  number : ℤ → Key
  text : String → Key
  container : Key

abbrev pub key : Json → Key
key null = nothing
key (bool true) = number (pos 1)
key (bool false) = number (pos 0)
key (int z) = number z
key (str s) = text s
key (arr _) = container
key (obj _) = container

abbrev key_beq : Key → Key → Bool
key_beq nothing nothing = true
key_beq (number a) (number b) = a == b
key_beq (text s) (text t) = s == t
key_beq container container = true
key_beq _ _ = false

pub key_beq_iff : (a b : Key) → (key_beq a b ≡ true) ↔ (a ≡ b)
key_beq_iff nothing nothing = (λ _. refl, λ _. refl)
key_beq_iff (number a) (number b) = ground (arith, int_beq_iff a b)
key_beq_iff (text s) (text t) = ground (arith, eq_iff s t)
key_beq_iff container container = (λ _. refl, λ _. refl)
key_beq_iff nothing _ = ground arith
key_beq_iff (number _) _ = ground arith
key_beq_iff (text _) _ = ground arith
key_beq_iff container _ = ground arith

instance abbrev pub key_eq : Eq Key
key_eq = record { beq = key_beq; beq_iff = key_beq_iff }
