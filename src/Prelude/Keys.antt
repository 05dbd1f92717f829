-- ===== src/Prelude/Keys.antt =====
-- Texts as keys: membership as a test, lists without repetition, association lists.
use mathlib.Core.Path.{◌≡◌, refl}
use mathlib.Core.Bool.{Bool, true, false, ◌||◌}
use mathlib.Core.List.{List, [], ◌∷◌, ◌++◌}
use mathlib.Core.Option.{Option, none, some}
use Prim.Native.String.{String}
use native.Mathlib.Omega.{arith}
use text.Mathlib.Text.{◌==◌ as str_eq}
use text.Mathlib.TextEquality.{eq_iff}
use xiaoai_agent.Prelude.Tests.{if◌then◌else◌}

abbrev pub contains : String → List String → Bool
contains x [] = false
contains x (y ∷ ys) = str_eq x y || contains x ys

-- No text stands twice in the list.
abbrev pub Distinct : List String → Type 0
Distinct [] = Unit {0}
Distinct (x ∷ xs) = (contains x xs ≡ false) × Distinct xs

module _ {ℓ} {V : Type ℓ} where
  abbrev pub keys : List (String × V) → List String
  keys [] = []
  keys ((k, v) ∷ m) = k ∷ keys m

  -- `HashMap::get`
  abbrev pub get : String → List (String × V) → Option V
  get k [] = none
  get k ((j, v) ∷ m) = if str_eq j k then some v else get k m

  abbrev pub without : String → List (String × V) → List (String × V)
  without k [] = []
  without k ((j, v) ∷ m) = let rest = without k m in if str_eq k j then rest else (j, v) ∷ rest

  -- `HashMap::insert`
  unfoldable pub insert : String → V → List (String × V) → List (String × V)
  insert k v m = (k, v) ∷ without k m

  pub without_absent :
      (k : String) (m : List (String × V)) → contains k (keys m) ≡ false → without k m ≡ m
  without_absent k [] h = refl
  without_absent k ((j, v) ∷ m) h = ground (arith, without_absent k m)

  pub insert_absent :
      (k : String) (v : V) (m : List (String × V))
      → contains k (keys m) ≡ false
      → insert k v m ≡ (k, v) ∷ m
  unfolding insert
  insert_absent k v m h = rw (without_absent k m h)

pub contains-append :
    (x : String) (xs ys : List String) → contains x (xs ++ ys) ≡ (contains x xs || contains x ys)
contains-append x [] ys = refl
contains-append x (y ∷ xs) ys = ground (arith, contains-append x xs ys)

pub Distinct-append_right : (xs ys : List String) → Distinct (xs ++ ys) → Distinct ys
Distinct-append_right [] ys h = h
Distinct-append_right (x ∷ xs) ys h = Distinct-append_right xs ys h.1

-- Every text of the first list stands in the second.
abbrev pub Within : List String → List String → Type 0
Within [] ys = Unit {0}
Within (x ∷ xs) ys = (contains x ys ≡ true) × Within xs ys

pub Within-cons : (x : String) (xs ys : List String) → Within xs ys → Within xs (x ∷ ys)
Within-cons x [] ys h = tt
Within-cons x (z ∷ xs) ys h = (ground arith, Within-cons x xs ys h.1)

pub Within-append_right : (xs ys zs : List String) → Within (xs ++ ys) zs → Within ys zs
Within-append_right [] ys zs h = h
Within-append_right (x ∷ xs) ys zs h = Within-append_right xs ys zs h.1

-- What is not in the larger list is not in the smaller one.
pub not-Within :
    (x : String) (xs ys : List String)
    → Within xs ys
    → contains x ys ≡ false
    → contains x xs ≡ false
not-Within x [] ys h n = refl
not-Within x (z ∷ xs) ys h n = ground (arith, eq_iff x z, not-Within x xs ys h.1 n)
