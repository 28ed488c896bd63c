-- ===== src/Job/Json.antt =====
-- JSON documents and the checks of ironqueue/src/job.rs on them. A number is opaque: no check looks
-- inside one. `chunks` stands for `serde_json::to_writer`: the lengths of the non-empty buffers that
-- it hands to its writer, in order.
pub mod Strings
use ironqueue.Common.{
  ℕ, suc, ◌+◌, ◌-◌, ◌≤◌, ◌<◌, min, max, ◌≡◌, refl, Bool, true, false, ◌||◌, Option, some, List, [],
  ◌∷◌, ◌++◌, All, All-append, ◌≢◌, arith, ltb, ◌==◌, if◌then◌else◌, Text, text_eq, contains_nul,
  Field, nests_too_deep, holds_nul, too_many_bytes, Result, ok, ◌>>◌, refuse,
}

mutual
  pub data Value : Type 0 where
    null : Value
    bool : Bool → Value
    num : ℕ → Value
    str : Text → Value
    obj : Fields → Value
    arr : Items → Value

  pub data Fields : Type 0 where
    entry : Text → Value → Fields → Fields
    end : Fields

  pub data Items : Type 0 where
    cons : Value → Items → Items
    nil : Items

unfoldable mutual
  pub json_contains_nul : Value → Bool
  json_contains_nul null = false
  json_contains_nul (bool b) = false
  json_contains_nul (num n) = false
  json_contains_nul (str s) = contains_nul s
  json_contains_nul (arr xs) = items_contain_nul xs
  json_contains_nul (obj fs) = fields_contain_nul fs

  items_contain_nul : Items → Bool
  items_contain_nul nil = false
  items_contain_nul (cons x xs) = json_contains_nul x || items_contain_nul xs

  fields_contain_nul : Fields → Bool
  fields_contain_nul end = false
  fields_contain_nul (entry k v fs) =
      contains_nul k || (json_contains_nul v || fields_contain_nul fs)

unfoldable mutual
  pub json_exceeds_depth : Value → ℕ → Bool
  json_exceeds_depth null budget = false
  json_exceeds_depth (bool b) budget = false
  json_exceeds_depth (num n) budget = false
  json_exceeds_depth (str s) budget = false
  json_exceeds_depth (arr xs) budget = budget == 0 || items_exceed_depth xs (budget - 1)
  json_exceeds_depth (obj fs) budget = budget == 0 || fields_exceed_depth fs (budget - 1)

  items_exceed_depth : Items → ℕ → Bool
  items_exceed_depth nil budget = false
  items_exceed_depth (cons x xs) budget =
      json_exceeds_depth x budget || items_exceed_depth xs budget

  fields_exceed_depth : Fields → ℕ → Bool
  fields_exceed_depth end budget = false
  fields_exceed_depth (entry k v fs) budget =
      json_exceeds_depth v budget || fields_exceed_depth fs budget

-- How many containers stand around the deepest value of a document, itself included.
mutual
  pub depth : Value → ℕ
  depth null = 0
  depth (bool b) = 0
  depth (num n) = 0
  depth (str s) = 0
  depth (arr xs) = suc (depth_items xs)
  depth (obj fs) = suc (depth_fields fs)

  depth_items : Items → ℕ
  depth_items nil = 0
  depth_items (cons x xs) = max (depth x) (depth_items xs)

  depth_fields : Fields → ℕ
  depth_fields end = 0
  depth_fields (entry k v fs) = max (depth v) (depth_fields fs)

abbrev pub max_json_depth : ℕ
max_json_depth = 127

abbrev pub max_json_document_bytes : ℕ
max_json_document_bytes = 1048576

-- `usize::MAX`.
abbrev max_usize : ℕ
max_usize = 18446744073709551615

-- The `Counter` writer: a saturating sum of the buffers' lengths.
count_bytes : ℕ → List ℕ → ℕ
count_bytes counted [] = counted
count_bytes counted (n ∷ ns) = count_bytes (min (counted + n) max_usize) ns

-- The `Budget` writer: refuses the first buffer past what is left.
unfoldable pub over_budget : ℕ → List ℕ → Bool
over_budget remaining [] = false
over_budget remaining (n ∷ ns) =
    let rest = over_budget (remaining - n) ns in if ltb remaining n then true else rest

module _ (chunks : Value → List ℕ) where
  unfoldable pub json_byte_len : Value → ℕ
  unfolding count_bytes
  json_byte_len value = count_bytes 0 (chunks value)

  unfoldable pub json_exceeds_bytes : Value → ℕ → Bool
  unfolding over_budget
  json_exceeds_bytes value max = over_budget max (chunks value)

  unfoldable pub validate_json_document : Field → Value → Result (Unit {0})
  validate_json_document field value = do
    refuse (json_exceeds_depth value max_json_depth) (nests_too_deep field)
    refuse (json_contains_nul value) (holds_nul field)
    refuse (json_exceeds_bytes value max_json_document_bytes) (too_many_bytes field)

mutual
  unfolding json_exceeds_depth items_exceed_depth fields_exceed_depth depth depth_items depth_fields

  exceeds-depth : (v : Value) (b : ℕ) → json_exceeds_depth v b ≡ ltb b (depth v)
  exceeds-depth null b = ground arith
  exceeds-depth (bool x) b = ground arith
  exceeds-depth (num n) b = ground arith
  exceeds-depth (str s) b = ground arith
  exceeds-depth (arr xs) b = ground (arith, items_exceed-depth xs (b - 1))
  exceeds-depth (obj fs) b = ground (arith, fields_exceed-depth fs (b - 1))

  items_exceed-depth : (xs : Items) (b : ℕ) → items_exceed_depth xs b ≡ ltb b (depth_items xs)
  items_exceed-depth nil b = ground arith
  items_exceed-depth (cons x xs) b = ground (arith, exceeds-depth x b, items_exceed-depth xs b)

  fields_exceed-depth : (fs : Fields) (b : ℕ) → fields_exceed_depth fs b ≡ ltb b (depth_fields fs)
  fields_exceed-depth end b = ground arith
  fields_exceed-depth (entry k v fs) b = ground (arith, exceeds-depth v b, fields_exceed-depth fs b)

abbrev pub total : List ℕ → ℕ
total [] = 0
total (n ∷ ns) = n + total ns

pub over_budget-total : (m : ℕ) (ns : List ℕ) → over_budget m ns ≡ ltb m (total ns)
unfolding over_budget
over_budget-total m [] = ground arith
over_budget-total m (n ∷ ns) = ground (arith, over_budget-total (m - n) ns)

count_bytes-total :
    (c : ℕ) (ns : List ℕ) → c ≤ max_usize → count_bytes c ns ≡ min (c + total ns) max_usize
unfolding count_bytes
count_bytes-total c [] h = omega arith
count_bytes-total c (n ∷ ns) h =
    omega (arith, count_bytes-total (min (c + n) max_usize) ns (omega arith))

-- The depth walk refuses exactly the documents with more containers around a value than the budget.
pub json_exceeds_depth-depth : (v : Value) (b : ℕ) → json_exceeds_depth v b ≡ ltb b (depth v)
json_exceeds_depth-depth v b = exceeds-depth v b

-- The budgeted writer and the counting writer agree on which documents are longer than a maximum
-- below `usize::MAX`.
pub json_exceeds_bytes-len :
    (chunks : Value → List ℕ) (v : Value) (m : ℕ)
    → m < max_usize
    → json_exceeds_bytes chunks v m ≡ ltb m (json_byte_len chunks v)
unfolding json_exceeds_bytes json_byte_len
json_exceeds_bytes-len chunks v m h =
    ground (arith, over_budget-total m (chunks v), count_bytes-total 0 (chunks v))

-- SQL's `result = '"..."'::jsonb` against a string document.
unfoldable pub is_string : Option Value → Text → Bool
is_string (some (str s)) t = text_eq s t
is_string _ t = false
