-- ===== src/Directory/Sequences.antt =====
-- The sequence that `readBaseSequence` returns.
use relkit.Prelude.{
  ◌⊎◌, Bool, true, false, not, Option, none, some, List, [], ◌∷◌, ℤ, pos, ◌≤ℤ◌, Str, ◌==◌, ◌≡◌,
  refl, sym, ◌∙◌, ap, subst, inl, inr, In, here, there, In-cons, if◌then◌else◌, any-false, eq_iff,
  arith,
}
use relkit.Prelude.Results.{Result, ok, err}
use relkit.Prelude.Dicts.{Dict}
use relkit.Rup.{UpdateDirectory}
use relkit.Wire.{Envelope}
use relkit.Envelope.{OpenError}
use relkit.Publish.{Backend, backends_agree, bytes_of}
use relkit.Directory.{
  DirectoryError, Setup, higher, of_product, read_envelope, read_directory, read_sequences, agreed,
  read_base_sequence, other_product,
}
use relkit.Directory.Base.{
  err_is_ok, ok_inj, HoldsDirectory, WasAtMost, nothing, listed, IsTaken, at_zero, from_one,
  higher-least, higher-seen, higher-or, read_directory-HoldsDirectory,
}

-- What is known of the base: no backend has a higher sequence, the base is that of one of them where
-- there is any, and all had the same bytes.
pub record IsBase (s : Setup) (trusted : Dict Str) (backends : List Backend) (base : ℤ)
    : Type 0 where
  pub at_most : (b : Backend) → In b backends → WasAtMost s trusted base b.stored
  pub taken : IsTaken s trusted backends base
  pub same_bytes :
      (b c : Backend) → In b backends → In c backends → bytes_of b.stored ≡ bytes_of c.stored

module _ (s : Setup) (trusted : Dict Str) where
  of_product-some :
      (r : Result OpenError UpdateDirectory) → ◌≡◌ (of_product s.product r) (ok none) → ⊥
  unfolding of_product
  of_product-some (err x) e = absurd (err_is_ok e)
  of_product-some (ok d) e = go (d.product == s.product) e
    where
      go :
          (b : Bool)
          → ◌≡◌ {A = Result DirectoryError (Option UpdateDirectory)}
              (if b then ok (some d) else err other_product)
              (ok none)
          → ⊥
      go true p = some_is_none (ok_inj p)
        where
          some_is_none : ◌≡◌ {A = Option UpdateDirectory} (some d) none → ⊥
          some_is_none q = cc
      go false p = err_is_ok p

  read_directory-none :
      (stored : Result (Unit {0}) (Option Str))
      → read_directory s trusted stored ≡ ok none
      → stored ≡ ok none
  unfolding read_directory read_envelope
  read_directory-none (err x) e = absurd (err_is_ok e)
  read_directory-none (ok none) e = refl
  read_directory-none (ok (some raw)) e = absurd (go (s.wire.unmarshal_envelope raw) e)
    where
      go : (o : Option Envelope) → read_envelope s trusted o ≡ ok none → ⊥
      go none p = err_is_ok p
      go (some env) p = of_product-some _ p

  read_directory-WasAtMost :
      (stored : Result (Unit {0}) (Option Str)) (doc : Option UpdateDirectory) (base top : ℤ)
      → read_directory s trusted stored ≡ ok doc
      → higher base doc ≤ℤ top
      → WasAtMost s trusted top stored
  read_directory-WasAtMost stored none base top e h = nothing (read_directory-none stored e)
  read_directory-WasAtMost stored (some d) base top e h =
      listed d (read_directory-HoldsDirectory s trusted stored d e)
        (ground (arith, higher-seen base d))

  -- The result of a loop from `base` over these backends.
  record IsTop (base top : ℤ) (backends : List Backend) : Type 0 where
    least : base ≤ℤ top
    at_most : (b : Backend) → In b backends → WasAtMost s trusted top b.stored
    taken :
        (base ≡ top)
        ⊎ ((b : Backend) × (doc : UpdateDirectory) × In b backends
            × HoldsDirectory s trusted b.stored doc
            × (doc.directory_sequence ≡ top))

  taken-before :
      (base top : ℤ) (c : Backend) (rest : List Backend) (doc : Option UpdateDirectory)
      → read_directory s trusted c.stored ≡ ok doc
      → IsTop (higher base doc) top rest
      → (base ≡ top)
        ⊎ ((b : Backend) × (d : UpdateDirectory) × In b (c ∷ rest)
            × HoldsDirectory s trusted b.stored d
            × (d.directory_sequence ≡ top))
  unfolding higher
  taken-before base top c rest doc e h = elim h.taken [
    | inl q ↦ here_or doc e q
    | inr (b, d, i, holds, q) ↦ inr (b, d, there i, holds, q)
  ]
    where
      here_or :
          (doc : Option UpdateDirectory)
          → read_directory s trusted c.stored ≡ ok doc
          → higher base doc ≡ top
          → (base ≡ top)
            ⊎ ((b : Backend) × (d : UpdateDirectory) × In b (c ∷ rest)
                × HoldsDirectory s trusted b.stored d
                × (d.directory_sequence ≡ top))
      here_or none e q = inl q
      here_or (some d) e q = elim (higher-or base d) [
        | inl same ↦ inl (sym same ∙ q)
        | inr up ↦
            inr (c, d, here refl, read_directory-HoldsDirectory s trusted c.stored d e, up ∙ q)
      ]

  read_sequences-IsTop :
      (base top : ℤ) (backends : List Backend)
      → read_sequences s trusted base backends ≡ ok top
      → IsTop base top backends
  unfolding read_sequences
  read_sequences-IsTop base top [] e = record {
    least = subst (λ z. base ≤ℤ z) (ok_inj e) (ground arith);
    at_most = λ b i. elim i [ ];
    taken = inl (ok_inj e);
  }
  read_sequences-IsTop base top (c ∷ rest) e =
      go (λ lower p. read_sequences-IsTop lower top rest p) (read_directory s trusted c.stored) refl
        e
    where
      go :
          ((lower : ℤ) → read_sequences s trusted lower rest ≡ ok top → IsTop lower top rest)
          → (r : Result DirectoryError (Option UpdateDirectory))
          → read_directory s trusted c.stored ≡ r
          → ◌≡◌ {A = Result DirectoryError ℤ}
              (elim r [ err x ↦ err x | ok doc ↦ read_sequences s trusted (higher base doc) rest ])
              (ok top)
          → IsTop base top (c ∷ rest)
      go ih (err x) q p = absurd (err_is_ok p)
      go ih (ok doc) q p =
          let h = ih (higher base doc) p in
          record {
            least = ground (arith, higher-least base doc, h.least);
            at_most = λ b i. elim (In-cons i) [
              | inl same ↦
                  subst (λ (z : Backend). WasAtMost s trusted top z.stored) (sym same)
                    (read_directory-WasAtMost c.stored doc base top q h.least)
              | inr j ↦ h.at_most b j
            ];
            taken = taken-before base top c rest doc q h;
          }

  agreed-both :
      (b : Bool) (r : Result DirectoryError ℤ) (base : ℤ)
      → agreed b r ≡ ok base
      → (b ≡ true) × (r ≡ ok base)
  unfolding agreed
  agreed-both b (err x) base e = absurd (err_is_ok e)
  agreed-both true (ok n) base e = (refl, e)
  agreed-both false (ok n) base e = absurd (err_is_ok e)

  agree-first :
      (first : Backend) (rest : List Backend)
      → backends_agree (first ∷ rest) ≡ true
      → (b : Backend) → In b (first ∷ rest)
      → bytes_of first.stored ≡ bytes_of b.stored
  unfolding backends_agree
  agree-first first rest e b i = elim (In-cons i) [
    | inl same ↦ ap (λ (z : Backend). bytes_of z.stored) (sym same)
    | inr j ↦
        let apart =
          any-false (λ (c : Backend). not (bytes_of first.stored == bytes_of c.stored)) rest
            (ground arith) j in
        (eq_iff (bytes_of first.stored) (bytes_of b.stored)).0 (ground arith)
  ]

  agree-same :
      (backends : List Backend)
      → backends_agree backends ≡ true
      → (b c : Backend) → In b backends
      → In c backends
      → bytes_of b.stored ≡ bytes_of c.stored
  agree-same [] e b c i j = elim i [ ]
  agree-same (first ∷ rest) e b c i j =
      sym (agree-first first rest e b i) ∙ agree-first first rest e c j

  pub read_base_sequence-IsBase :
      (backends : List Backend) (base : ℤ)
      → read_base_sequence s trusted backends ≡ ok base
      → IsBase s trusted backends base
  unfolding read_base_sequence
  read_base_sequence-IsBase backends base e =
      let (same, read) = agreed-both (backends_agree backends) _ base e in
      let h = read_sequences-IsTop (pos 0) base backends read in
      record {
        at_most = h.at_most;
        taken = elim h.taken [
          | inl q ↦ at_zero (sym q)
          | inr (b, doc, i, holds, q) ↦ from_one b doc i holds q
        ];
        same_bytes = agree-same backends same;
      }
