-- ===== src/Config/Yaml.antt =====
-- The YAML values of xiaoai-agent/src/web/config_store.rs and `set_yaml`. Keys are texts, since the
-- store never looks for another key; a tag on a value is left out. A number is a whole number or the
-- 64-bit pattern of a floating-point number.
pub mod Paths
use xiaoai_agent.Prelude.{
  ℕ, Bool, true, false, List, [], ◌∷◌, Option, none, some, String, str_eq, if◌then◌else◌,
}

mutual
  pub data Yaml : Type 0 where
    null : Yaml
    boolean : Bool → Yaml
    integer float : ℕ → Yaml
    string : String → Yaml
    sequence : Items → Yaml
    mapping : Entries → Yaml

  pub data Items : Type 0 where
    no_items : Items
    item : Yaml → Items → Items

  -- The keys in the order of their insertion.
  pub data Entries : Type 0 where
    no_entries : Entries
    entry : String → Yaml → Entries → Entries

pub get_entry : String → Entries → Option Yaml
get_entry k no_entries = none
get_entry k (entry j v es) = if str_eq j k then some v else get_entry k es

-- `Mapping::insert` replaces the value in its place or appends.
pub put_entry : String → Yaml → Entries → Entries
put_entry k v no_entries = entry k v no_entries
put_entry k v (entry j w es) = if str_eq j k then entry j v es else entry j w (put_entry k v es)

-- A parent that is no mapping is replaced by an empty one.
abbrev pub entries_of : Yaml → Entries
entries_of (mapping es) = es
entries_of _ = no_entries

-- `entry(key).or_insert_with(..)`
abbrev pub child_of : Option Yaml → Yaml
child_of none = mapping no_entries
child_of (some y) = y

-- The walk of `set_yaml`; only the last parent has to be a mapping.
unfoldable pub set_at : List String → Yaml → Yaml → Option Yaml
unfolding put_entry get_entry
set_at [] v y = none
set_at (k ∷ []) v (mapping es) = some (mapping (put_entry k v es))
set_at (k ∷ []) v _ = none
set_at (k ∷ j ∷ path) v y =
    let es = entries_of y in
    elim (set_at (j ∷ path) v (child_of (get_entry k es))) [
      | none ↦ none
      | some child ↦ some (mapping (put_entry k child es))
    ]

unfoldable pub get_path : List String → Yaml → Option Yaml
unfolding get_entry
get_path [] y = some y
get_path (k ∷ path) (mapping es) = elim (get_entry k es) [ none ↦ none | some y ↦ get_path path y ]
get_path (k ∷ path) _ = none
