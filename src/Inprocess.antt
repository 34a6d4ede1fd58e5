-- ===== src/Inprocess.antt =====
-- internal/inprocess/updater.go: how a client checks for an update. The network and the clock are
-- functions of the number of calls made so far; what a check remembers is threaded through.
pub mod Sources
pub mod Target
pub mod Check
pub mod Notice
pub mod Force
pub mod Triples
pub mod Kept
pub mod Offers
pub mod Answers
pub mod Notices
pub mod Checked
pub mod Exact
pub mod Distinct
use relkit.Prelude.{
  ℕ, zero, suc, ◌+◌, Bool, true, false, not, Option, none, some, List, [], ◌∷◌, ◌++◌, map, ℤ, pos,
  Str, str, ◌==◌, if◌then◌else◌, any, eqb_ℕ,
}
use relkit.Prelude.Dicts.{Dict}
use relkit.Rup.{VersionNode, Manifest, Artifact, StrMap}
use relkit.Wire.{Wire}
use relkit.Sdk.State.{UpdateState, Policy}

-- What answers a request, and the time, after so many calls.
pub record Net : Type 0 where
  pub fetch : ℕ → Str → Option Str
  pub now : ℕ → ℤ
  -- the Unix time as text, for `bustCache`
  pub stamp : ℕ → Str

pub record RecoveryHelp : Type 0 where
  pub message : Str
  pub links : List (Str × Str)

-- `Updater`, with its collaborators. `state` and `StateStore` are the `World` below.
pub record Updater : Type 0 where
  pub wire : Wire
  pub net : Net
  pub product : Str
  pub channel : Str
  pub current_code : ℤ
  pub index_urls : List Str
  pub entry_urls : List Str
  pub fallback_urls : List Str
  pub trusted_keys : Dict Str
  pub client_selectors : StrMap
  pub apply_preference : Option (List Str)
  pub policy : Policy
  pub recovery : Option RecoveryHelp

-- The remembered state, and how many calls were made.
pub record World : Type 0 where
  pub memory : UpdateState
  pub calls : ℕ

abbrev pub M {ℓ} : Type ℓ → Type ℓ
M A = World → A × World

infixl 5 ◌>>=◌ ◌>>◌
unfoldable pub ◌>>=◌ {ℓ κ} : {A : Type ℓ} {B : Type κ} → M A → (A → M B) → M B
◌>>=◌ m f w = let (a, w') = m w in f a w'

abbrev pub ◌>>◌ {ℓ κ} : {A : Type ℓ} {B : Type κ} → M A → M B → M B
m >> n = m >>= λ _. n

unfoldable pub pure {ℓ} : {A : Type ℓ} → A → M A
pure a w = (a, w)

-- Reads the remembered state.
unfoldable pub remembered : M UpdateState
remembered w = (w.memory, w)

-- A method of the state that is given the time.
unfoldable pub update : Net → (ℤ → UpdateState → UpdateState) → M (Unit {0})
update net f w = (tt, record w { memory = f (net.now w.calls) w.memory })

-- `u.fetcher().GetBytes`
unfoldable pub get_bytes : Net → Str → M (Option Str)
get_bytes net url w = (net.fetch w.calls url, record w { calls = suc w.calls })

unfoldable pub has_query : Str → Bool
has_query url = any (λ c. eqb_ℕ c b'?') url

-- `bustCache`
unfoldable pub bust_cache : Str → Str → Str
unfolding has_query
bust_cache url stamp = url ++ (if has_query url then str "&" else str "?") ++ str "t=" ++ stamp

unfoldable pub get_fresh : Net → Str → M (Option Str)
unfolding get_bytes bust_cache
get_fresh net url w = get_bytes net (bust_cache url (net.stamp w.calls)) w

-- Why a target's manifest could not be used.
pub data TargetError : Type 0 where
  no_manifest_urls not_fetched digest_mismatch size_mismatch bad_manifest : TargetError
  identity_mismatch no_artifact all_mirrors_failed : TargetError

-- Why a source was given up.
pub data Reason : Type 0 where
  fetch_failed bad_envelope not_verified mismatch older bad_document no_services : Reason
  target_failed : TargetError → Reason

-- An entry of `attempts`.
pub data Attempt : Type 0 where
  gave_up : Str → Reason → Attempt
  product_required keys_required : Attempt

pub record PriorReleaseNotes : Type 0 where
  pub version : Str
  pub code : ℤ
  pub notes : Str
  pub notes_url : Str

pub record UpdateAvailable : Type 0 where
  pub target : VersionNode
  pub manifest : Manifest
  pub artifact : Artifact
  pub mandatory : Bool
  pub remaining_hops : ℕ
  pub sequence : ℤ
  pub prior_release_notes : List PriorReleaseNotes

pub record FallbackRequired : Type 0 where
  pub manual_url : Str
  pub message : Str
  pub mandatory : Bool
  pub sequence : ℤ
  pub min_code : ℤ
  pub max_code : ℤ

-- `CheckResult`; the error is its text.
pub record CheckResult : Type 0 where
  pub up_to_date : Bool
  pub current_is_yanked : Bool
  pub available : Option UpdateAvailable
  pub fallback : Option FallbackRequired
  pub recovery : Option RecoveryHelp
  pub throttled : Bool
  pub next_allowed_at : Option ℤ
  pub sequence : ℤ
  pub attempts : List Attempt
  pub error : Option Str

abbrev pub empty_result : CheckResult
empty_result = record {
  up_to_date = false;
  current_is_yanked = false;
  available = none;
  fallback = none;
  recovery = none;
  throttled = false;
  next_allowed_at = none;
  sequence = pos 0;
  attempts = [];
  error = none;
}
