-- ===== src/Job/Truncation.antt =====
-- Properties of stored errors: the byte limit, the character boundary, NUL, and reading back.
use ironqueue.Common.{
  ℕ, zero, suc, ◌+◌, ◌-◌, ◌≤◌, ◌<◌, ◌≡◌, refl, ◌⊎◌, inl, inr, true, false, some, [], ◌∷◌, ◌++◌,
  arith, leb, Bool-cases, length, length-append, take, length-take, Text, contains_nul,
}
use ironqueue.Job.Stored.{
  JobErrorKind, failed, timeout, aborted, panic, extract, decode, kind_str, JobError, colon,
  display, strip_prefix, from_stored, max_stored_error_bytes, truncation_marker, is_char_boundary,
  floor_boundary, truncate_owned_utf8, truncate_stored_error, replace_nul, new_error,
}

floor_boundary-le : (t : Text) (n : ℕ) → floor_boundary t n ≤ n
unfolding floor_boundary
floor_boundary-le t zero = omega arith
floor_boundary-le t (suc n) = ground (arith, floor_boundary-le t n)

floor_boundary-is : (t : Text) (n : ℕ) → is_char_boundary t (floor_boundary t n) ≡ true
unfolding floor_boundary is_char_boundary
floor_boundary-is t zero = ground arith
floor_boundary-is t (suc n) = elim (Bool-cases (is_char_boundary t (suc n))) [
  | inl e ↦ rw e e
  | inr e ↦ rw e (floor_boundary-is t n)
]

truncate_fitting : (t : Text) (m : ℕ) → length t ≤ m → truncate_owned_utf8 t m ≡ t
unfolding truncate_owned_utf8
truncate_fitting t m h = ground arith

truncate_cut :
    (t : Text) (m : ℕ)
    → 15 ≤ m
    → m < length t
    → (cut : ℕ) × (truncate_owned_utf8 t m ≡ take cut t ++ truncation_marker)
      × (is_char_boundary t cut ≡ true)
      × (cut + 15 ≤ m)
unfolding truncate_owned_utf8
truncate_cut t m h long = (
  floor_boundary t (m - 15),
  ground arith,
  floor_boundary-is t (m - 15),
  omega (arith, floor_boundary-le t (m - 15)),
)

-- For a limit of at least the marker's length: a truncated text fits the limit, and either it is the
-- text itself, which fits, or the text does not fit and it is cut at a character boundary and ends in
-- the marker.
pub truncate_owned_utf8_lem :
    (t : Text) (m : ℕ)
    → 15 ≤ m
    → (length (truncate_owned_utf8 t m) ≤ m)
      × (((length t ≤ m) × (truncate_owned_utf8 t m ≡ t))
          ⊎ ((m < length t)
              × ((cut : ℕ) × (truncate_owned_utf8 t m ≡ take cut t ++ truncation_marker)
                  × (is_char_boundary t cut ≡ true)
                  × (cut + 15 ≤ m))))
unfolding truncate_owned_utf8
truncate_owned_utf8_lem t m h = (
  ground (
    arith,
    floor_boundary-le t (m - 15),
    length-append (take (floor_boundary t (m - 15)) t) truncation_marker,
    length-take (floor_boundary t (m - 15)) t,
  ),
  elim (Bool-cases (leb (length t) m)) [
    | inl b ↦ inl (ground arith, truncate_fitting t m (ground arith))
    | inr b ↦ inr (ground arith, truncate_cut t m h (ground arith))
  ],
)

pub truncate_stored_error-short :
    (t : Text) → length (truncate_stored_error t) ≤ max_stored_error_bytes
unfolding truncate_stored_error
truncate_stored_error-short t = (truncate_owned_utf8_lem t max_stored_error_bytes (omega arith)).0

no_nul-append :
    (s t : Text) → contains_nul s ≡ false → contains_nul t ≡ false → contains_nul (s ++ t) ≡ false
unfolding contains_nul
no_nul-append [] t hs ht = ht
no_nul-append (c ∷ cs) t hs ht = ground (arith, no_nul-append cs t)

no_nul-take : (n : ℕ) (s : Text) → contains_nul s ≡ false → contains_nul (take n s) ≡ false
unfolding contains_nul
no_nul-take zero s h = refl
no_nul-take (suc n) [] h = refl
no_nul-take (suc n) (c ∷ cs) h = ground (arith, no_nul-take n cs)

no_nul-replace : (s : Text) → contains_nul (replace_nul s) ≡ false
unfolding contains_nul replace_nul
no_nul-replace [] = refl
no_nul-replace (c ∷ cs) = ground (arith, no_nul-replace cs)

no_nul-truncate :
    (s : Text) (m : ℕ) → contains_nul s ≡ false → contains_nul (truncate_owned_utf8 s m) ≡ false
unfolding truncate_owned_utf8
no_nul-truncate s m h = ground (
  arith,
  no_nul-append (take (floor_boundary s (m - 15)) s) truncation_marker,
  no_nul-take (floor_boundary s (m - 15)) s,
  marker_no_nul,
)
  where
    marker_no_nul : contains_nul truncation_marker ≡ false
    marker_no_nul = unfold contains_nul in refl

no_nul-kind : (k : JobErrorKind) → contains_nul (kind_str k) ≡ false
unfolding contains_nul kind_str
no_nul-kind failed = refl
no_nul-kind timeout = refl
no_nul-kind aborted = refl
no_nul-kind panic = refl
no_nul-kind extract = refl
no_nul-kind decode = refl

-- An error that a constructor made can be stored: it holds no NUL and, rendered, fits the column.
pub new_error-storable :
    (k : JobErrorKind) (text : Text)
    → (contains_nul (display (new_error k text)) ≡ false)
      × (length (display (new_error k text)) ≤ max_stored_error_bytes)
unfolding new_error display
new_error-storable k text = (
  no_nul-append (kind_str k) _ (no_nul-kind k) (
      no_nul-append colon _ (unfold contains_nul in refl)
        (no_nul-truncate (replace_nul text) _ (no_nul-replace text))),
  bounded k,
)
  where
    bounded : (k : JobErrorKind) → length (display (new_error k text)) ≤ max_stored_error_bytes
    bounded failed =
        omega (arith, (truncate_owned_utf8_lem (replace_nul text) 1048568 (omega arith)).0)
    bounded timeout =
        omega (arith, (truncate_owned_utf8_lem (replace_nul text) 1048567 (omega arith)).0)
    bounded aborted =
        omega (arith, (truncate_owned_utf8_lem (replace_nul text) 1048567 (omega arith)).0)
    bounded panic =
        omega (arith, (truncate_owned_utf8_lem (replace_nul text) 1048569 (omega arith)).0)
    bounded extract =
        omega (arith, (truncate_owned_utf8_lem (replace_nul text) 1048567 (omega arith)).0)
    bounded decode =
        omega (arith, (truncate_owned_utf8_lem (replace_nul text) 1048568 (omega arith)).0)

strip_prefix-append : (p t : Text) → strip_prefix p (p ++ t) ≡ some t
unfolding strip_prefix
strip_prefix-append [] t = refl
strip_prefix-append (c ∷ p) t = ground (arith, strip_prefix-append p t)

from_stored-display : (e : JobError) → from_stored (display e) ≡ e
unfolding from_stored display
from_stored-display e = go e.kind e.message
  where
    go :
        (k : JobErrorKind) (m : Text)
        → from_stored (display (record { kind = k; message = m }))
          ≡ record { kind = k; message = m }
    go failed m = refl
    go timeout m = refl
    go aborted m = refl
    go panic m = refl
    go extract m = refl
    go decode m = refl

-- What a worker stores for an error is read back as that error, also through the truncation of the
-- column: constructed errors are never cut there.
pub from_stored-stored :
    (k : JobErrorKind) (text : Text)
    → from_stored (truncate_stored_error (display (new_error k text))) ≡ new_error k text
unfolding truncate_stored_error
from_stored-stored k text =
    rw
      (truncate_fitting (display (new_error k text)) max_stored_error_bytes
        (new_error-storable k text).1)
      (from_stored-display (new_error k text))
