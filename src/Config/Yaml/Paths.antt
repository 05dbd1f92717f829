-- ===== src/Config/Yaml/Paths.antt =====
-- What `set_yaml` of xiaoai-agent/src/web/config_store.rs does at the paths of a value.
use xiaoai_agent.Prelude.{
  ◌≡◌, refl, sym, ap, ◌∙◌, Bool, true, false, List, [], ◌∷◌, Option, none, some, String, str_eq,
  eq_iff, eq_refl, if◌then◌else◌, arith, Bool-cases, inl, inr, Option-cases,
}
use xiaoai_agent.Config.Yaml.{
  Yaml, Entries, null, boolean, integer, float, string, sequence, mapping, no_entries, entry,
  get_entry, put_entry, entries_of, child_of, set_at, get_path,
}

get-put :
    (k j : String) (v : Yaml) (es : Entries)
    → get_entry j (put_entry k v es) ≡ (if str_eq k j then some v else get_entry j es)
unfolding get_entry put_entry
get-put k j v no_entries = refl
get-put k j v (entry i w es) = ground (arith, eq_iff k j, eq_iff i k, eq_iff i j, get-put k j v es)

-- Neither path leads through the other.
abbrev pub apart : List String → List String → Bool
apart [] q = false
apart (k ∷ p) [] = false
apart (k ∷ p) (j ∷ q) = if str_eq k j then apart p q else true

child_path : List String → Option Yaml → Option Yaml
unfolding get_path
child_path p none = none
child_path p (some y) = get_path p y

get_path-mapping :
    (k : String) (p : List String) (es : Entries)
    → get_path (k ∷ p) (mapping es) ≡ child_path p (get_entry k es)
unfolding get_path child_path
get_path-mapping k p es = refl

get_path-entries_of :
    (k : String) (p : List String) (y : Yaml)
    → get_path (k ∷ p) y ≡ child_path p (get_entry k (entries_of y))
unfolding get_path child_path get_entry
get_path-entries_of k p null = refl
get_path-entries_of k p (boolean b) = refl
get_path-entries_of k p (integer n) = refl
get_path-entries_of k p (float n) = refl
get_path-entries_of k p (string s) = refl
get_path-entries_of k p (sequence xs) = refl
get_path-entries_of k p (mapping es) = refl

-- A new parent has nothing at any path below it.
get_path-child_of :
    (p q : List String) (o : Option Yaml)
    → apart p q ≡ true
    → get_path q (child_of o) ≡ child_path q o
unfolding child_path get_path get_entry
get_path-child_of p q (some y) h = refl
get_path-child_of p (j ∷ q) none h = refl
get_path-child_of [] [] none h = ground arith
get_path-child_of (k ∷ p) [] none h = ground arith

set_at-last :
    (k : String) (v y : Yaml) {z : Yaml}
    → set_at (k ∷ []) v y ≡ some z
    → z ≡ mapping (put_entry k v (entries_of y))
unfolding set_at
set_at-last k v null h = ground arith
set_at-last k v (boolean b) h = ground arith
set_at-last k v (integer n) h = ground arith
set_at-last k v (float n) h = ground arith
set_at-last k v (string s) h = ground arith
set_at-last k v (sequence xs) h = ground arith
set_at-last k v (mapping es) h = ground arith

set_at-deep :
    (k j : String) (path : List String) (v y : Yaml) {z : Yaml}
    → set_at (k ∷ j ∷ path) v y ≡ some z
    → (child : Yaml) × (set_at (j ∷ path) v (child_of (get_entry k (entries_of y))) ≡ some child)
      × (z ≡ mapping (put_entry k child (entries_of y)))
unfolding set_at
set_at-deep k j path v y h =
    elim (Option-cases (set_at (j ∷ path) v (child_of (get_entry k (entries_of y))))) [
      | inl e ↦ ground arith
      | inr (child, e) ↦ (child, e, ground arith)
    ]

-- At an entry just put.
put-path :
    (k i : String) (q : List String) (v : Yaml) (es : Entries)
    → get_path (i ∷ q) (mapping (put_entry k v es))
      ≡ (if str_eq k i then get_path q v else child_path q (get_entry i es))
unfolding child_path
put-path k i q v es = ap (child_path q) (get-put k i v es) ∙ ground arith

-- The value is at its path.
pub set_at-get :
    (p : List String) (v y : Yaml) {z : Yaml} → set_at p v y ≡ some z → get_path p z ≡ some v
set_at-get [] v y h = unfold set_at in ground arith
set_at-get (k ∷ []) v y {z} h =
    ap (get_path (k ∷ [])) (set_at-last k v y h)
    ∙ put-path k k [] v (entries_of y)
    ∙ unfold get_path in ground (arith, eq_refl k)
set_at-get (k ∷ j ∷ path) v y {z} h =
    let (child, e, same) = set_at-deep k j path v y h in
    ap (get_path (k ∷ j ∷ path)) same
    ∙ put-path k k (j ∷ path) child (entries_of y)
    ∙ ground (arith, eq_refl k, set_at-get (j ∷ path) v (child_of (get_entry k (entries_of y))) e)

-- Nothing changes at a path that is apart.
pub set_at-apart :
    (p q : List String) (v y : Yaml) {z : Yaml}
    → apart p q ≡ true
    → set_at p v y ≡ some z
    → get_path q z ≡ get_path q y
set_at-apart [] q v y a h = ground arith
set_at-apart (k ∷ p) [] v y a h = ground arith
set_at-apart (k ∷ []) (i ∷ q) v y a h =
    ap (get_path (i ∷ q)) (set_at-last k v y h)
    ∙ put-path k i q v (entries_of y)
    ∙ ground arith
    ∙ sym (get_path-entries_of i q y)
set_at-apart (k ∷ j ∷ path) (i ∷ q) v y a h =
    let es = entries_of y in
    let (child, e, same) = set_at-deep k j path v y h in
    ap (get_path (i ∷ q)) same
    ∙ put-path k i q child es
    ∙ elim (Bool-cases (str_eq k i)) [
      | inr other ↦ rw other refl
      | inl here ↦
          let below : apart (j ∷ path) q ≡ true = ground arith in
          rw here (
            set_at-apart (j ∷ path) q v (child_of (get_entry k es)) below e
            ∙ get_path-child_of (j ∷ path) q (get_entry k es) below
            ∙ ap (λ x. child_path q (get_entry x es)) ((eq_iff k i).0 here))
    ]
    ∙ sym (get_path-entries_of i q y)
