-- ===== src/Job/Json/Strings.antt =====
-- Which documents `validate_json_document` of ironqueue/src/job.rs accepts.
use ironqueue.Common.{
  ℕ, ◌≤◌, ◌≡◌, refl, ◌≢◌, false, List, [], ◌∷◌, ◌++◌, All, All-append, arith, Text, contains_nul,
  Field, ok,
}
use ironqueue.Job.Json.{
  Value, Fields, Items, null, bool, num, str, obj, arr, entry, end, cons, nil, json_contains_nul,
  items_contain_nul, fields_contain_nul, depth, max_json_depth, max_json_document_bytes, total,
  over_budget-total, json_exceeds_bytes, validate_json_document, json_exceeds_depth-depth,
}

-- Every string of a document, the keys of its objects included.
mutual
  pub strings : Value → List Text
  strings null = []
  strings (bool b) = []
  strings (num n) = []
  strings (str s) = s ∷ []
  strings (arr xs) = strings_of_items xs
  strings (obj fs) = strings_of_fields fs

  strings_of_items : Items → List Text
  strings_of_items nil = []
  strings_of_items (cons x xs) = strings x ++ strings_of_items xs

  strings_of_fields : Fields → List Text
  strings_of_fields end = []
  strings_of_fields (entry k v fs) = k ∷ strings v ++ strings_of_fields fs

-- A text without a zero byte.
abbrev pub Plain : Text → Type 0
Plain t = All (λ b. b ≢ 0) t

nul_free-Plain : (t : Text) → contains_nul t ≡ false → Plain t
unfolding contains_nul
nul_free-Plain [] h = tt
nul_free-Plain (c ∷ cs) h = (ground arith, nul_free-Plain cs (ground arith))

mutual
  unfolding json_contains_nul items_contain_nul fields_contain_nul strings strings_of_items
      strings_of_fields

  nul_free-strings : (v : Value) → json_contains_nul v ≡ false → All Plain (strings v)
  nul_free-strings null h = tt
  nul_free-strings (bool x) h = tt
  nul_free-strings (num n) h = tt
  nul_free-strings (str s) h = (nul_free-Plain s h, tt)
  nul_free-strings (arr xs) h = nul_free_items-strings xs h
  nul_free-strings (obj fs) h = nul_free_fields-strings fs h

  nul_free_items-strings :
      (xs : Items) → items_contain_nul xs ≡ false → All Plain (strings_of_items xs)
  nul_free_items-strings nil h = tt
  nul_free_items-strings (cons x xs) h =
      All-append Plain (strings x) (strings_of_items xs) (nul_free-strings x (ground arith))
        (nul_free_items-strings xs (ground arith))

  nul_free_fields-strings :
      (fs : Fields) → fields_contain_nul fs ≡ false → All Plain (strings_of_fields fs)
  nul_free_fields-strings end h = tt
  nul_free_fields-strings (entry k v fs) h = (
    nul_free-Plain k (ground arith),
    All-append Plain (strings v) (strings_of_fields fs) (nul_free-strings v (ground arith))
        (nul_free_fields-strings fs (ground arith)),
  )

-- An accepted document nests at most 127 containers, none of its strings, its keys included, holds a
-- zero byte, and the buffers of its encoding sum up to at most 1 MiB.
pub validate_json_document_sound :
    (chunks : Value → List ℕ) (f : Field) (v : Value)
    → validate_json_document chunks f v ≡ ok tt
    → (depth v ≤ max_json_depth)
      × All Plain (strings v)
      × (total (chunks v) ≤ max_json_document_bytes)
unfolding validate_json_document json_exceeds_bytes
validate_json_document_sound chunks f v h = (
  ground (arith, json_exceeds_depth-depth v max_json_depth),
  nul_free-strings v (ground arith),
  ground (arith, over_budget-total max_json_document_bytes (chunks v)),
)

All-split : (ts us : List Text) → All Plain (ts ++ us) → All Plain ts × All Plain us
All-split [] us h = (tt, h)
All-split (t ∷ ts) us h = let k = All-split ts us h.1 in ((h.0, k.0), k.1)

Plain-nul_free : (t : Text) → Plain t → contains_nul t ≡ false
unfolding contains_nul
Plain-nul_free [] h = refl
Plain-nul_free (c ∷ cs) h = ground (arith, h.0, Plain-nul_free cs h.1)

mutual
  unfolding json_contains_nul items_contain_nul fields_contain_nul strings strings_of_items
      strings_of_fields

  strings-nul_free : (v : Value) → All Plain (strings v) → json_contains_nul v ≡ false
  strings-nul_free null h = refl
  strings-nul_free (bool x) h = refl
  strings-nul_free (num n) h = refl
  strings-nul_free (str s) h = Plain-nul_free s h.0
  strings-nul_free (arr xs) h = items-nul_free xs h
  strings-nul_free (obj fs) h = fields-nul_free fs h

  items-nul_free : (xs : Items) → All Plain (strings_of_items xs) → items_contain_nul xs ≡ false
  items-nul_free nil h = refl
  items-nul_free (cons x xs) h =
      let k = All-split (strings x) (strings_of_items xs) h in
      ground (arith, strings-nul_free x k.0, items-nul_free xs k.1)

  fields-nul_free : (fs : Fields) → All Plain (strings_of_fields fs) → fields_contain_nul fs ≡ false
  fields-nul_free end h = refl
  fields-nul_free (entry k v fs) h =
      let q = All-split (strings v) (strings_of_fields fs) h.1 in
      ground (arith, Plain-nul_free k h.0, strings-nul_free v q.0, fields-nul_free fs q.1)

-- A document that nests at most 127 containers, whose strings and keys hold no zero byte, and whose
-- encoding has at most 1 MiB, is accepted.
pub validate_json_document_complete :
    (chunks : Value → List ℕ) (f : Field) (v : Value)
    → depth v ≤ max_json_depth
    → All Plain (strings v)
    → total (chunks v) ≤ max_json_document_bytes
    → validate_json_document chunks f v ≡ ok tt
unfolding validate_json_document json_exceeds_bytes
validate_json_document_complete chunks f v d p b = ground (
  arith,
  json_exceeds_depth-depth v max_json_depth,
  strings-nul_free v p,
  over_budget-total max_json_document_bytes (chunks v),
)
