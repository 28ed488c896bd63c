-- ===== src/Job/Stored.antt =====
-- Errors as the `error` column stores them: `JobErrorKind`, `JobError` and the truncation of
-- ironqueue/src/job.rs.
use ironqueue.Common.{
  ℕ, zero, suc, ◌+◌, ◌-◌, Bool, true, false, not, ◌&&◌, ◌||◌, Option, none, some, List, [], ◌∷◌,
  ◌++◌, ltb, leb, ◌==◌, if◌then◌else◌, length, take, drop, Text, codes,
}

pub data JobErrorKind : Type 0 where
  failed timeout aborted panic extract decode : JobErrorKind

unfoldable pub kind_str : JobErrorKind → Text
kind_str failed = codes "failed"
kind_str timeout = codes "timeout"
kind_str aborted = codes "aborted"
kind_str panic = codes "panic"
kind_str extract = codes "extract"
kind_str decode = codes "decode"

abbrev all_kinds : List JobErrorKind
all_kinds = failed ∷ timeout ∷ aborted ∷ panic ∷ extract ∷ decode ∷ []

unfoldable pub kind_is_retryable : JobErrorKind → Bool
kind_is_retryable decode = false
kind_is_retryable extract = false
kind_is_retryable _ = true

pub record JobError : Type 0 where
  pub kind : JobErrorKind
  pub message : Text

abbrev pub colon : Text
colon = codes ": "

-- `Display`.
unfoldable pub display : JobError → Text
unfolding kind_str
display e = kind_str e.kind ++ (colon ++ e.message)

-- `str::strip_prefix`.
unfoldable pub strip_prefix : Text → Text → Option Text
strip_prefix [] text = some text
strip_prefix (p ∷ ps) [] = none
strip_prefix (p ∷ ps) (c ∷ cs) = let rest = strip_prefix ps cs in if p == c then rest else none

strip_colon : Option Text → Option Text
unfolding strip_prefix
strip_colon none = none
strip_colon (some text) = strip_prefix colon text

-- The loop of `from_stored`.
first_kind : List JobErrorKind → Text → JobError
unfolding strip_colon kind_str
first_kind [] text = record { kind = failed; message = text }
first_kind (k ∷ ks) text =
    let rest = first_kind ks text in
    elim (strip_colon (strip_prefix (kind_str k) text)) [
      | none ↦ rest
      | some message ↦ record { kind = k; message = message }
    ]

unfoldable pub from_stored : Text → JobError
unfolding first_kind
from_stored text = first_kind all_kinds text

abbrev pub max_stored_error_bytes : ℕ
max_stored_error_bytes = 1048576

-- "… [truncated]", whose first character has three bytes.
abbrev pub truncation_marker : Text
truncation_marker = 0xe2 ∷ 0x80 ∷ 0xa6 ∷ codes " [truncated]"

-- Whether a byte continues a UTF-8 character.
is_continuation : ℕ → Bool
is_continuation b = leb 128 b && ltb b 192

starts_character : Text → Bool
unfolding is_continuation
starts_character [] = true
starts_character (b ∷ bs) = not (is_continuation b)

-- `str::is_char_boundary`, for an index within the text.
unfoldable pub is_char_boundary : Text → ℕ → Bool
unfolding starts_character
is_char_boundary text index = index == 0 || starts_character (drop index text)

-- `while !text.is_char_boundary(end) { end -= 1 }`.
unfoldable pub floor_boundary : Text → ℕ → ℕ
unfolding is_char_boundary
floor_boundary text zero = zero
floor_boundary text (suc end) =
    let rest = floor_boundary text end in if is_char_boundary text (suc end) then suc end else rest

unfoldable pub truncate_owned_utf8 : Text → ℕ → Text
unfolding floor_boundary
truncate_owned_utf8 text max_bytes =
    if leb (length text) max_bytes
    then text
    else take (floor_boundary text (max_bytes - length truncation_marker)) text ++ truncation_marker

unfoldable pub truncate_stored_error : Text → Text
unfolding truncate_owned_utf8
truncate_stored_error text = truncate_owned_utf8 text max_stored_error_bytes

-- `message.replace('\0', "\u{fffd}")`.
unfoldable pub replace_nul : Text → Text
replace_nul [] = []
replace_nul (c ∷ cs) = if c == 0 then 0xef ∷ 0xbf ∷ 0xbd ∷ replace_nul cs else c ∷ replace_nul cs

unfoldable pub new_error : JobErrorKind → Text → JobError
unfolding replace_nul truncate_owned_utf8 kind_str
new_error kind text = record {
  kind = kind;
  message =
      truncate_owned_utf8 (replace_nul text)
        (max_stored_error_bytes - (length (kind_str kind) + 2));
}
