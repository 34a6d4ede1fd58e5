-- ===== src/Sdk/Ranking/Ordered.antt =====
-- The order of `RankByLearning`, told by what is known of each source.
use mathlib.Core.List.{Perm}
use mathlib.Core.List.Perm
use relkit.Prelude.{ℕ, suc, ◌<◌, ◌≤◌, ◌≡◌, true, false, List, [], ◌∷◌, map, Str, In, ◌<ℤ◌}
use relkit.Sdk.State.{UpdateState}
use relkit.Sdk.Ranking.{Ranked, is_last, speed, failures_of}

-- Why one source may stand before another: it alone had the last success; or neither or both had,
-- and it was faster; or it was as fast, and failed less often; or all is the same, and it stood
-- before the other.
pub data MayPrecede {ℓ} {A : Type ℓ} (s : UpdateState) (a b : Ranked A) : Type ℓ where
  last_success : is_last s a.key ≡ true → is_last s b.key ≡ false → MayPrecede s a b
  faster : is_last s a.key ≡ is_last s b.key → speed s b.key <ℤ speed s a.key → MayPrecede s a b
  fewer_failures :
      is_last s a.key ≡ is_last s b.key
      → speed s a.key ≡ speed s b.key
      → failures_of s a.key < failures_of s b.key
      → MayPrecede s a b
  stood_before :
      is_last s a.key ≡ is_last s b.key
      → speed s a.key ≡ speed s b.key
      → failures_of s a.key ≡ failures_of s b.key
      → a.index ≤ b.index
      → MayPrecede s a b

-- The sources with their keys and their places in the list, counted from a number.
pub data Numbered {ℓ} {A : Type ℓ} (key_of : A → Str) : ℕ → List A → List (Ranked A) → Type ℓ where
  no_more : {i : ℕ} → Numbered key_of i [] []
  one_more :
      {i : ℕ} {x : A} {xs : List A} {rs : List (Ranked A)}
      → Numbered key_of (suc i) xs rs
      → Numbered key_of i (x ∷ xs) (record { index = i; key = key_of x; item = x } ∷ rs)

module _ {ℓ} {A : Type ℓ} (s : UpdateState) where
  abbrev pub IsOrdered : List (Ranked A) → Type ℓ
  IsOrdered [] = Unit
  IsOrdered (a ∷ rest) = ((b : Ranked A) → In b rest → MayPrecede s a b) × IsOrdered rest

  pub record IsRanking (key_of : A → Str) (xs result : List A) : Type ℓ where
    pub ranked : List (Ranked A)
    pub items : map (λ r. r.item) ranked ≡ result
    pub sources : List (Ranked A)
    pub numbered : Numbered key_of 0 xs sources
    pub all_there : Perm ranked sources
    pub ordered : IsOrdered ranked
