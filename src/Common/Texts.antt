-- ===== src/Common/Texts.antt =====
-- Text as the list of its UTF-8 bytes. A text literal here is ASCII.
use Prim.Native.Nat.{ℕ}
use Prim.Native.Char.{code}
use Prim.Native.String.{String}
use mathlib.Core.Path.{◌≡◌, refl, subst}
use mathlib.Core.Bool.{Bool, true, false, ◌&&◌}
use mathlib.Core.List.{List, [], ◌∷◌}
use mathlib.Core.Option.{Option, none, some}
use native.Mathlib.Omega.{arith}
use ironqueue.Common.Tests.{◌==◌}

abbrev pub Text : Type 0
Text = List ℕ

abbrev pub codes : String → Text
codes String.[] = []
codes (String.◌∷◌ c s) = code c ∷ codes s

unfoldable pub text_eq : Text → Text → Bool
text_eq [] [] = true
text_eq [] (y ∷ ys) = false
text_eq (x ∷ xs) [] = false
text_eq (x ∷ xs) (y ∷ ys) = x == y && text_eq xs ys

pub text_eq→eq : (s t : Text) → text_eq s t ≡ true → s ≡ t
unfolding text_eq
text_eq→eq [] [] h = refl
text_eq→eq [] (y ∷ ys) h = ground arith
text_eq→eq (x ∷ xs) [] h = ground arith
text_eq→eq (x ∷ xs) (y ∷ ys) h = ground (arith, text_eq→eq xs ys)

pub text_eq_refl : (s : Text) → text_eq s s ≡ true
unfolding text_eq
text_eq_refl [] = refl
text_eq_refl (x ∷ xs) = ground (arith, text_eq_refl xs)

pub text_eq_swap : (s t : Text) → text_eq s t ≡ true → text_eq t s ≡ true
text_eq_swap s t h = subst (λ u. text_eq u s ≡ true) (text_eq→eq s t h) (text_eq_refl s)

-- SQL's `column = value` on a nullable text column: NULL is not equal to anything.
unfoldable pub is_text : Option Text → Text → Bool
is_text none t = false
is_text (some s) t = text_eq s t

-- Whether two nullable keys are both present and equal.
unfoldable pub same_key : Option Text → Option Text → Bool
same_key (some s) (some t) = text_eq s t
same_key _ _ = false

-- Whether a text holds the NUL character.
unfoldable pub contains_nul : Text → Bool
contains_nul [] = false
contains_nul (c ∷ cs) = let rest = contains_nul cs in elim (c == 0) [ true ↦ true | false ↦ rest ]
