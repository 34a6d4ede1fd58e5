-- ===== src/Envelope/Directories.antt =====
-- What an opened directory proves.
use relkit.Prelude.{
  ap, ◌≡◌, refl, subst, Bool-cases, Option, none, some, Str, ◌==◌, eq_iff, inl, inr,
}
use relkit.Prelude.Dicts.{Dict}
use relkit.Prelude.Results.{Result, ok, err}
use relkit.Rup.{UpdateDirectory}
use relkit.Wire.{Wire, Envelope}
use relkit.Envelope.{
  OpenError, checked_directory, directory_schema, unexpected_document, open_directory_envelope,
  verified_envelope_payload,
}
use relkit.Envelope.Trust.{IsTrusted, verified-payload, payload-ok}

checked_directory-ok :
    (o : Option UpdateDirectory) {doc : UpdateDirectory}
    → checked_directory o ≡ ok doc
    → (o ≡ some doc) × (doc.schema ≡ directory_schema)
checked_directory-ok none q = cc
checked_directory-ok (some i) {doc} q = elim (Bool-cases (i.schema == directory_schema)) [
  | inl s ↦
      let same : ok i ≡ ok doc = rw s at q in
      let eq : i ≡ doc = cc in
      (
        ap some eq,
        subst (λ (z : UpdateDirectory). z.schema ≡ directory_schema) eq
            ((eq_iff i.schema directory_schema).0 s),
      )
  | inr n ↦ let no : err unexpected_document ≡ ok doc = rw n at q in cc
]

-- If `OpenDirectoryEnvelope` returns a document, the envelope is signed by a trusted key, its
-- payload reads as that document, and the document has the directory's schema.
pub open_directory-IsTrusted :
    (w : Wire) (env : Envelope) (trusted : Dict Str) {doc : UpdateDirectory}
    → open_directory_envelope w (some env) trusted ≡ ok doc
    → IsTrusted w trusted env
      × (w.unmarshal_directory env.payload ≡ some doc)
      × (doc.schema ≡ directory_schema)
open_directory-IsTrusted w env trusted {doc} e =
    go (verified_envelope_payload w (some env) trusted) refl
  where
    go :
        (r : Result OpenError Str)
        → verified_envelope_payload w (some env) trusted ≡ r
        → IsTrusted w trusted env
          × (w.unmarshal_directory env.payload ≡ some doc)
          × (doc.schema ≡ directory_schema)
    go (err x) p =
        let no : err x ≡ ok doc =
          unfold open_directory_envelope in (rw (p, open_directory_envelope) at e) in
        cc
    go (ok payload) p =
        let (same, t) = verified-payload w env trusted (payload-ok w env trusted p) in
        let (u, s) =
          checked_directory-ok (w.unmarshal_directory payload) {doc = doc}
            (unfold open_directory_envelope in (rw (p, open_directory_envelope) at e)) in
        (t, subst (λ z. w.unmarshal_directory z ≡ some doc) same u, s)
