-- ===== src/Registry/Seeded.antt =====
-- What `seed_definitions` of backend/app/modules/module_registry/service.py leaves in the definitions.
use coreops_platform.Base.{
  ◌≡◌, refl, ap, ◌∙◌, String, Bool, true, false, not, ◌&&◌, none, some, List, [], ◌∷◌, find?,
  update_where, All, str_eq, str_eq_iff, Bool-cases, Option-cases, inl, inr,
}
use coreops_platform.Platform.{ModuleDefinition, Platform}
use coreops_platform.Platform.Guard.{get_definition}
use coreops_platform.Registry.Rows.{both}
use coreops_platform.Registry.Seed.{
  SeedItem, module_definitions, overwrite, definition_of, upsert_definition, upsert_each,
  seed_definitions,
}

-- The definition found for the code of the item has the mode and the requirements of the item.
pub record IsSeeded (q : Platform) (item : SeedItem) : Type 0 where
  pub definition : ModuleDefinition
  pub is_found : get_definition q item.code ≡ some definition
  pub mode : definition.default_mode ≡ item.default_mode
  pub required : definition.required ≡ item.required

abbrev has_code : String → ModuleDefinition → Bool
has_code code d = str_eq d.code code

find_overwritten :
    (item : SeedItem) (rows : List ModuleDefinition) (d : ModuleDefinition)
    → find? (has_code item.code) rows ≡ some d
    → find? (has_code item.code) (update_where (has_code item.code) (overwrite item) rows)
      ≡ some (overwrite item d)
find_overwritten item [] d h = cc
find_overwritten item (x ∷ rows) d h = elim (Bool-cases (str_eq x.code item.code)) [
  | inl t ↦
      let k : some x ≡ some d = rw t at h in
      let e : x ≡ d = cc in rw (t, t) (ap (λ y. some (overwrite item y)) e)
  | inr n ↦ rw (n, n) (find_overwritten item rows d (rw n at h))
]

find_elsewhere :
    (item : SeedItem) (code : String) (rows : List ModuleDefinition)
    → str_eq item.code code ≡ false
    → find? (has_code code) (update_where (has_code item.code) (overwrite item) rows)
      ≡ find? (has_code code) rows
find_elsewhere item code [] n = refl
find_elsewhere item code (x ∷ rows) n =
    let ih = find_elsewhere item code rows n in
    elim (Bool-cases (str_eq x.code item.code)) [
      | inl t ↦
          let e : x.code ≡ item.code = (str_eq_iff x.code item.code).0 t in
          let m : str_eq x.code code ≡ false = rw e n in rw (t, m) ih
      | inr f ↦ elim (Bool-cases (str_eq x.code code)) [
        | inl u ↦ rw (f, u) refl
        | inr v ↦ rw (f, v) ih
      ]
    ]

upsert_new :
    (item : SeedItem) (p : Platform)
    → get_definition p item.code ≡ none
    → upsert_definition item p ≡ record p { definitions = definition_of item ∷ p.definitions }
unfolding upsert_definition
upsert_new item p n = rw (upsert_definition, n) refl

upsert_known :
    (item : SeedItem) (p : Platform) (d : ModuleDefinition)
    → get_definition p item.code ≡ some d
    → upsert_definition item p
      ≡ record p { definitions = update_where (has_code item.code) (overwrite item) p.definitions }
unfolding upsert_definition
upsert_known item p d s = rw (upsert_definition, s) refl

upsert_definition-IsSeeded :
    (item : SeedItem) (p : Platform) → IsSeeded (upsert_definition item p) item
unfolding get_definition
upsert_definition-IsSeeded item p = elim (Option-cases (get_definition p item.code)) [
  | inl n ↦
      let t = (str_eq_iff item.code item.code).1 refl in
      record {
        definition = definition_of item;
        is_found = ap (λ q. get_definition q item.code) (upsert_new item p n) ∙ rw t refl;
        mode = refl;
        required = refl;
      }
  | inr (d, s) ↦ record {
    definition = overwrite item d;
    is_found =
        ap (λ q. get_definition q item.code) (upsert_known item p d s)
        ∙ find_overwritten item p.definitions d s;
    mode = refl;
    required = refl;
  }
]

upsert_definition_elsewhere :
    (item : SeedItem) (p : Platform) (code : String)
    → str_eq item.code code ≡ false
    → get_definition (upsert_definition item p) code ≡ get_definition p code
unfolding get_definition
upsert_definition_elsewhere item p code n = elim (Option-cases (get_definition p item.code)) [
  | inl s ↦ ap (λ q. get_definition q code) (upsert_new item p s) ∙ rw n refl
  | inr (d, s) ↦
      ap (λ q. get_definition q code) (upsert_known item p d s)
      ∙ find_elsewhere item code p.definitions n
]

-- No item of the list has the code.
abbrev is_fresh : String → List SeedItem → Bool
is_fresh code [] = true
is_fresh code (item ∷ items) = not (str_eq item.code code) && is_fresh code items

abbrev are_fresh : List SeedItem → Bool
are_fresh [] = true
are_fresh (item ∷ items) = is_fresh item.code items && are_fresh items

false_of : (b : Bool) → not b ≡ true → b ≡ false
false_of true h = cc
false_of false h = refl

upsert_each_elsewhere :
    (items : List SeedItem) (p : Platform) (code : String)
    → is_fresh code items ≡ true
    → get_definition (upsert_each items p) code ≡ get_definition p code
unfolding upsert_each
upsert_each_elsewhere [] p code h = refl
upsert_each_elsewhere (item ∷ items) p code h =
    let (n, g) = both (not (str_eq item.code code)) _ h in
    upsert_each_elsewhere items (upsert_definition item p) code g
    ∙ upsert_definition_elsewhere item p code (false_of _ n)

upsert_each-IsSeeded :
    (items : List SeedItem) (p : Platform)
    → are_fresh items ≡ true
    → All (IsSeeded (upsert_each items p)) items
unfolding upsert_each
upsert_each-IsSeeded [] p h = tt
upsert_each-IsSeeded (item ∷ items) p h =
    let (f, g) = both (is_fresh item.code items) _ h in
    let q = upsert_definition item p in
    let s = upsert_definition-IsSeeded item p in
    (
      record {
        definition = s.definition;
        is_found = upsert_each_elsewhere items q item.code f ∙ s.is_found;
        mode = s.mode;
        required = s.required;
      },
      upsert_each-IsSeeded items q g,
    )

-- Whatever definitions there were, after seed_definitions the definition found for each code of the
-- seed has the default mode and the required modules of the seed.
pub seed_definitions-IsSeeded :
    (p : Platform) → All (IsSeeded (seed_definitions p)) module_definitions
unfolding seed_definitions
seed_definitions-IsSeeded p = upsert_each-IsSeeded module_definitions p refl
