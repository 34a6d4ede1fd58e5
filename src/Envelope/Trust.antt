-- ===== src/Envelope/Trust.antt =====
-- What an opened envelope proves, and that what is sealed can be opened.
use relkit.Prelude.{
  ◌≢◌, ◌≡◌, refl, ap, subst, true, Option, none, some, List, [], ◌∷◌, map, Str, ◌==◌, ==-refl,
  eq_iff, arith, In, here, there, inl, inr, Bool-cases, Option-cases, false≢true,
}
use relkit.Prelude.Dicts.{Dict, lookup}
use relkit.Prelude.Results.{Result, ok, err}
use relkit.Rup.{Fallback, Index}
use relkit.Wire.{Wire, Envelope, Signature, IsFaithful}
use relkit.Envelope.{
  checked_fallback, fallback_schema, open_fallback_envelope, copied, OpenError, unexpected_document,
  envelope_schema, index_schema, ed25519, vouches, vouched, verified_payload,
  verified_envelope_payload, open_envelope, Signer, signature_of, seal_payload, normalize_index,
  seal, checked_index,
}

-- A trusted key verifies one of the envelope's signatures over its payload.
pub record IsTrusted (w : Wire) (trusted : Dict Str) (env : Envelope) : Type 0 where
  pub schema : env.schema ≡ envelope_schema
  pub entry : Signature
  pub listed : In (some entry) env.signatures
  pub alg : entry.alg ≡ ed25519
  pub key : Str
  pub known : lookup entry.key_id trusted ≡ some key
  pub verified : w.verify key env.payload entry.sig ≡ true

vouched-In :
    (w : Wire) (payload : Str) (trusted : Dict Str) (l : List (Option Signature))
    → vouched w payload trusted l ≡ true
    → (entry : Signature) × In (some entry) l × (vouches w payload trusted entry ≡ true)
unfolding vouched
vouched-In w payload trusted [] e = absurd (false≢true e)
vouched-In w payload trusted (none ∷ l) e =
    let (s, i, v) = vouched-In w payload trusted l e in (s, there i, v)
vouched-In w payload trusted (some s ∷ l) e = elim (Bool-cases (vouches w payload trusted s)) [
  | inl v ↦ (s, here refl, v)
  | inr n ↦ let (t, i, v) = vouched-In w payload trusted l (rw n at e) in (t, there i, v)
]

vouches-key :
    (w : Wire) (payload : Str) (trusted : Dict Str) (s : Signature)
    → vouches w payload trusted s ≡ true
    → (s.alg ≡ ed25519)
      × (k : Str) × (lookup s.key_id trusted ≡ some k)
      × (w.verify k payload s.sig ≡ true)
unfolding vouches
vouches-key w payload trusted s e = elim (Bool-cases (s.alg == ed25519)) [
  | inl a ↦ elim (Option-cases (lookup s.key_id trusted)) [
    | inl n ↦ absurd (false≢true (rw (a, n, vouches) at e))
    | inr (k, l) ↦ ((eq_iff s.alg ed25519).0 a, k, l, rw (a, l, vouches) at e)
  ]
  | inr n ↦ absurd (false≢true (rw n at e))
]

copied-some : (p : Str) {q : Str} → copied p ≡ some q → q ≡ p
unfolding copied
copied-some [] e = cc
copied-some (b ∷ p) e = cc

copied-kept : (p : Str) → p ≢ [] → copied p ≡ some p
unfolding copied
copied-kept [] n = absurd (n refl)
copied-kept (b ∷ p) n = refl

pub verified-payload :
    (w : Wire) (env : Envelope) (trusted : Dict Str) {payload : Str}
    → verified_payload w (some env) trusted ≡ some payload
    → (payload ≡ env.payload) × IsTrusted w trusted env
unfolding verified_payload
verified-payload w env trusted {payload} e = elim (Bool-cases (env.schema == envelope_schema)) [
  | inl s ↦ elim (Bool-cases (vouched w env.payload trusted env.signatures)) [
    | inl v ↦
        let (entry, i, c) = vouched-In w env.payload trusted env.signatures v in
        let (a, k, l, q) = vouches-key w env.payload trusted entry c in
        (
          copied-some env.payload (rw (s, v) at e),
          record {
            schema = (eq_iff env.schema envelope_schema).0 s;
            entry = entry;
            listed = i;
            alg = a;
            key = k;
            known = l;
            verified = q;
          },
        )
    | inr n ↦ absurd (none_ne (rw (s, n) at e))
  ]
  | inr n ↦ absurd (none_ne (rw n at e))
]
  where
    none_ne : none ≡ some payload → ⊥
    none_ne q = cc

checked_index-ok :
    (o : Option Index) {index : Index}
    → checked_index o ≡ ok index
    → (o ≡ some index) × (index.schema ≡ index_schema)
checked_index-ok none q = cc
checked_index-ok (some i) {index} q = elim (Bool-cases (i.schema == index_schema)) [
  | inl s ↦
      let same : ok i ≡ ok index = rw s at q in
      let eq : i ≡ index = cc in
      (
        ap some eq,
        subst (λ (z : Index). z.schema ≡ index_schema) eq ((eq_iff i.schema index_schema).0 s),
      )
  | inr n ↦ let no : err unexpected_document ≡ ok index = rw n at q in cc
]

pub payload-ok :
    (w : Wire) (env : Envelope) (trusted : Dict Str) {payload : Str}
    → verified_envelope_payload w (some env) trusted ≡ ok payload
    → verified_payload w (some env) trusted ≡ some payload
unfolding verified_envelope_payload
payload-ok w env trusted e = elim (Option-cases (verified_payload w (some env) trusted)) [
  | inl n ↦ ground (arith, n)
  | inr (p, s) ↦ ground (arith, s)
]

-- If `OpenEnvelope` returns an index, the envelope has the envelope's schema and an ed25519
-- signature that the trusted key of its id verifies over the payload, the payload reads as that
-- index, and the index has the index's schema.
pub open_envelope-IsTrusted :
    (w : Wire) (env : Envelope) (trusted : Dict Str) {index : Index}
    → open_envelope w (some env) trusted ≡ ok index
    → IsTrusted w trusted env
      × (w.unmarshal_index env.payload ≡ some index)
      × (index.schema ≡ index_schema)
open_envelope-IsTrusted w env trusted {index} e =
    go (verified_envelope_payload w (some env) trusted) refl
  where
    go :
        (r : Result OpenError Str)
        → verified_envelope_payload w (some env) trusted ≡ r
        → IsTrusted w trusted env
          × (w.unmarshal_index env.payload ≡ some index)
          × (index.schema ≡ index_schema)
    go (err x) p =
        let no : err x ≡ ok index = unfold open_envelope in (rw (p, open_envelope) at e) in cc
    go (ok payload) p =
        let (same, t) = verified-payload w env trusted (payload-ok w env trusted p) in
        let (u, s) =
          checked_index-ok (w.unmarshal_index payload) {index = index}
            (unfold open_envelope in (rw (p, open_envelope) at e)) in
        (t, subst (λ z. w.unmarshal_index z ≡ some index) same u, s)

checked_fallback-ok :
    (o : Option Fallback) {doc : Fallback} → checked_fallback o ≡ ok doc → o ≡ some doc
checked_fallback-ok none q = cc
checked_fallback-ok (some i) {doc} q = elim (Bool-cases (i.schema == fallback_schema)) [
  | inl s ↦ let same : ok i ≡ ok doc = rw s at q in cc
  | inr n ↦ let no : err unexpected_document ≡ ok doc = rw n at q in cc
]

-- If `OpenFallbackEnvelope` returns a document, the envelope is signed by a trusted key, and its
-- payload reads as that document.
pub open_fallback-IsTrusted :
    (w : Wire) (env : Envelope) (trusted : Dict Str) {doc : Fallback}
    → open_fallback_envelope w (some env) trusted ≡ ok doc
    → IsTrusted w trusted env × (w.unmarshal_fallback env.payload ≡ some doc)
open_fallback-IsTrusted w env trusted {doc} e =
    go (verified_envelope_payload w (some env) trusted) refl
  where
    go :
        (r : Result OpenError Str)
        → verified_envelope_payload w (some env) trusted ≡ r
        → IsTrusted w trusted env × (w.unmarshal_fallback env.payload ≡ some doc)
    go (err x) p =
        let no : err x ≡ ok doc =
          unfold open_fallback_envelope in (rw (p, open_fallback_envelope) at e) in
        cc
    go (ok payload) p =
        let (same, t) = verified-payload w env trusted (payload-ok w env trusted p) in
        let u =
          checked_fallback-ok (w.unmarshal_fallback payload) {doc = doc}
            (unfold open_fallback_envelope in (rw (p, open_fallback_envelope) at e)) in
        (t, subst (λ z. w.unmarshal_fallback z ≡ some doc) same u)

signer_vouches :
    (w : Wire) (payload : Str) (signer : Signer) (more : List Signer) (trusted : Dict Str)
    → IsFaithful w
    → lookup signer.key_id trusted ≡ some (w.public_key signer.seed)
    → vouched w payload trusted (map (signature_of w payload) (signer ∷ more)) ≡ true
unfolding vouched signature_of
signer_vouches w payload signer more trusted f known =
    ground (arith, ==-refl ed25519, known, f.verify-sign signer.seed payload)

sealed_payload :
    (w : Wire) (payload : Str) (signer : Signer) (more : List Signer) (trusted : Dict Str)
    → IsFaithful w
    → payload ≢ []
    → lookup signer.key_id trusted ≡ some (w.public_key signer.seed)
    → verified_envelope_payload w (some (seal_payload w payload (signer ∷ more))) trusted
      ≡ ok payload
unfolding verified_envelope_payload verified_payload seal_payload
sealed_payload w payload signer more trusted f some_bytes known = ground (
  arith,
  copied-kept payload some_bytes,
  ==-refl envelope_schema,
  signer_vouches w payload signer more trusted f known,
)

opens :
    (w : Wire) (index : Index) (signer : Signer) (more : List Signer) (trusted : Dict Str)
    → IsFaithful w
    → w.marshal_index (normalize_index index) ≢ []
    → w.unmarshal_index (w.marshal_index (normalize_index index)) ≡ some (normalize_index index)
    → lookup signer.key_id trusted ≡ some (w.public_key signer.seed)
    → open_envelope w
        (some (seal_payload w (w.marshal_index (normalize_index index)) (signer ∷ more)))
        trusted
      ≡ ok (normalize_index index)
unfolding open_envelope
opens w index signer more trusted f some_bytes back known =
    rw
      (
        sealed_payload w (w.marshal_index (normalize_index index)) signer more trusted f some_bytes
            known,
        open_envelope,
      )
      (rw (back) (unfold normalize_index in rw (==-refl index_schema)))

-- If signatures verify with the key that made them, the bytes of an index are not empty and read
-- back as that index, and the first signer's public key is trusted under its id, then
-- `OpenEnvelope` returns from what `Seal` makes of the index that index, with the index's schema.
pub open_envelope-seal :
    (w : Wire) (index : Index) (signer : Signer) (more : List Signer) (trusted : Dict Str)
    {env : Envelope}
    → IsFaithful w
    → w.marshal_index (normalize_index index) ≢ []
    → w.unmarshal_index (w.marshal_index (normalize_index index)) ≡ some (normalize_index index)
    → lookup signer.key_id trusted ≡ some (w.public_key signer.seed)
    → seal w index (signer ∷ more) ≡ some env
    → open_envelope w (some env) trusted ≡ ok (normalize_index index)
open_envelope-seal w index signer more trusted {env} f some_bytes back known sealed =
    let same : seal_payload w (w.marshal_index (normalize_index index)) (signer ∷ more) ≡ env =
      unfold seal in cc in
    subst (λ z. open_envelope w (some z) trusted ≡ ok (normalize_index index)) same
      (opens w index signer more trusted f some_bytes back known)
