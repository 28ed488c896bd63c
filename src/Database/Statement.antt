-- ===== src/Database/Statement.antt =====
-- What one SQL statement does to a table: each row is kept, rewritten or removed. The table is a
-- list of rows.
use ironqueue.Common.{◌≡◌, refl, List, [], ◌∷◌, arith, All}

pub data Fate {ℓ} (A : Type ℓ) : Type ℓ where
  keep remove : Fate A
  write : A → Fate A

module _ {ℓ} {A : Type ℓ} where
  unfoldable pub settle : Fate A → A → List A → List A
  settle keep r rest = r ∷ rest
  settle remove r rest = rest
  settle (write r') r rest = r' ∷ rest

  -- The table after the statement.
  unfoldable pub apply : (A → Fate A) → List A → List A
  unfolding settle
  apply fate [] = []
  apply fate (r ∷ rs) = settle (fate r) r (apply fate rs)

  unfoldable pub written_by : Fate A → List A → List A
  written_by (write r') rest = r' ∷ rest
  written_by _ rest = rest

  -- `RETURNING` of an update: the new rows.
  unfoldable pub written : (A → Fate A) → List A → List A
  unfolding written_by
  written fate [] = []
  written fate (r ∷ rs) = written_by (fate r) (written fate rs)

  unfoldable pub removed_by : Fate A → A → List A → List A
  removed_by remove r rest = r ∷ rest
  removed_by _ r rest = rest

  -- `RETURNING` of a delete: the old rows.
  unfoldable pub removed : (A → Fate A) → List A → List A
  unfolding removed_by
  removed fate [] = []
  removed fate (r ∷ rs) = removed_by (fate r) r (removed fate rs)

  settle-All {κ} :
      (P : A → Type κ) (f : Fate A) (r : A) (rest : List A)
      → P r
      → ((r' : A) → f ≡ write r' → P r')
      → All P rest
      → All P (settle f r rest)
  unfolding settle
  settle-All P keep r rest h new hs = (h, hs)
  settle-All P remove r rest h new hs = hs
  settle-All P (write r') r rest h new hs = (new r' refl, hs)

  -- A property of single rows survives a statement that keeps it on each row it writes.
  pub apply-All {κ} :
      (P : A → Type κ) (fate : A → Fate A)
      → ((r r' : A) → P r → fate r ≡ write r' → P r')
      → (rs : List A) → All P rs
      → All P (apply fate rs)
  unfolding apply
  apply-All P fate keeps [] h = h
  apply-All P fate keeps (r ∷ rs) h =
      settle-All P (fate r) r (apply fate rs) h.0 (λ r' e. keeps r r' h.0 e)
        (apply-All P fate keeps rs h.1)

  written_by-All {μ} :
      (Q : A → Type μ) (f : Fate A) (rest : List A)
      → ((r' : A) → f ≡ write r' → Q r')
      → All Q rest
      → All Q (written_by f rest)
  unfolding written_by
  written_by-All Q keep rest new hs = hs
  written_by-All Q remove rest new hs = hs
  written_by-All Q (write r') rest new hs = (new r' refl, hs)

  pub written-All {κ μ} :
      (P : A → Type κ) (Q : A → Type μ) (fate : A → Fate A)
      → ((r r' : A) → P r → fate r ≡ write r' → Q r')
      → (rs : List A) → All P rs
      → All Q (written fate rs)
  unfolding written
  written-All P Q fate makes [] h = tt
  written-All P Q fate makes (r ∷ rs) h =
      written_by-All Q (fate r) (written fate rs) (λ r' e. makes r r' h.0 e)
        (written-All P Q fate makes rs h.1)

  pub apply-keep : (rs : List A) → apply (λ r. keep) rs ≡ rs
  unfolding apply settle
  apply-keep [] = refl
  apply-keep (r ∷ rs) = ground (arith, apply-keep rs)
