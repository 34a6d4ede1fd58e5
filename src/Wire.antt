-- ===== src/Wire.antt =====
-- What the program takes from Go's `crypto/ed25519`, `crypto/sha256` and the protobuf runtime: the
-- functions that it calls, as one parameter. The readers are `rupv2.UnmarshalIndex` and its
-- siblings, which only call `proto.Unmarshal`.
use relkit.Prelude.{Bool, true, Option, List, Str, ◌≡◌}
use relkit.Rup.{Index, Fallback, UpdateDirectory, Manifest}

pub record Signature : Type 0 where
  pub key_id : Str
  pub alg : Str
  pub sig : Str

pub record Envelope : Type 0 where
  pub schema : Str
  pub payload : Str
  pub signatures : List (Option Signature)

pub record Wire : Type 0 where
  -- `ed25519.Verify(publicKey, message, sig)`
  pub verify : Str → Str → Str → Bool
  -- `ed25519.Sign` with the key of a seed, and the public half of that key
  pub sign : Str → Str → Str
  pub public_key : Str → Str
  -- the hexadecimal SHA-256 digest
  pub sha256_hex : Str → Str
  pub unmarshal_envelope : Str → Option Envelope
  pub unmarshal_index : Str → Option Index
  pub unmarshal_fallback : Str → Option Fallback
  pub unmarshal_directory : Str → Option UpdateDirectory
  pub unmarshal_manifest : Str → Option Manifest
  -- `proto.Marshal`
  pub marshal_index : Index → Str
  pub marshal_directory : UpdateDirectory → Str

-- A signature that `sign` makes with a seed is one that `verify` accepts with its public key.
pub record IsFaithful (w : Wire) : Type 0 where
  pub verify-sign :
      (seed message : Str) → w.verify (w.public_key seed) message (w.sign seed message) ≡ true
