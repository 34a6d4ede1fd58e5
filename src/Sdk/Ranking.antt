-- ===== src/Sdk/Ranking.antt =====
-- internal/sdk/preference.go: sources in the order in which past attempts recommend them.
pub mod Laws
pub mod Ordered
use relkit.Prelude.{
  ℕ, zero, suc, ◌+◌, Bool, true, false, not, Option, none, some, List, [], ◌∷◌, map, ℤ, pos, negsuc,
  Str, str, ◌==◌, ltb_ℤ, eqb_ℤ, if◌then◌else◌, ltb, eqb_ℕ, ◌++◌,
}
use relkit.Prelude.Dicts.{lookup}
use relkit.Prelude.Sorting.{sort_by}
use relkit.Sdk.State.{UpdateState, SourceStat}

pub record Ranked {ℓ} (A : Type ℓ) : Type ℓ where
  pub index : ℕ
  pub key : Str
  pub item : A

-- The historical speed of a source, -1 where there is none.
unfoldable pub speed : UpdateState → Str → ℤ
speed s key = elim (lookup key s.source_stats) [
  | none ↦ negsuc 0
  | some stat ↦ elim stat.last_bytes_per_second [ none ↦ negsuc 0 | some bps ↦ bps ]
]

unfoldable pub failures_of : UpdateState → Str → ℕ
failures_of s key = elim (lookup key s.source_stats) [
  | none ↦ 0
  | some stat ↦ stat.consecutive_failures
]

unfoldable pub is_last : UpdateState → Str → Bool
is_last s key = s.last_successful_source_key == key

-- The stages of the comparison of `RankByLearning`: each hands a tie to the next.
by_failures : ℕ → ℕ → ℕ → ℕ → Bool
by_failures fails_a index_a fails_b index_b =
    if eqb_ℕ fails_a fails_b then ltb index_a index_b else ltb fails_a fails_b

by_speed : ℤ → ℤ → Bool → Bool
by_speed speed_a speed_b tie = if eqb_ℤ speed_a speed_b then tie else ltb_ℤ speed_b speed_a

by_last : Bool → Bool → Bool → Bool
by_last true true tie = tie
by_last true false tie = true
by_last false true tie = false
by_last false false tie = tie

module _ {ℓ} {A : Type ℓ} where
  unfoldable pub ranks_before : UpdateState → Ranked A → Ranked A → Bool
  unfolding by_last by_speed by_failures
  ranks_before s a b = by_last (is_last s a.key) (is_last s b.key) (
      by_speed (speed s a.key) (speed s b.key)
        (by_failures (failures_of s a.key) a.index (failures_of s b.key) b.index))

  unfoldable pub indexed : ℕ → (A → Str) → List A → List (Ranked A)
  indexed i key_of [] = []
  indexed i key_of (x ∷ xs) =
      record { index = i; key = key_of x; item = x } ∷ indexed (suc i) key_of xs

  -- With one item or none there is nothing to sort.
  unfoldable pub rank_by_learning : UpdateState → (A → Str) → List A → List A
  unfolding indexed
  rank_by_learning s key_of [] = []
  rank_by_learning s key_of (x ∷ []) = x ∷ []
  rank_by_learning s key_of (x ∷ y ∷ rest) =
      map (λ r. r.item) (sort_by (ranks_before s) (indexed 0 key_of (x ∷ y ∷ rest)))

unfoldable pub rank_url_strings : UpdateState → List Str → List Str
rank_url_strings s urls = rank_by_learning s (λ url. url) urls

-- `DirectoryServiceKey`.
unfoldable pub directory_service_key : Str → Str
directory_service_key id = str "service:" ++ id
