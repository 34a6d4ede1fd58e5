-- ===== src/Directory/Base.antt =====
-- What is known once the targets are opened and the directories that they have are read.
use relkit.Prelude.{
  ◌⊎◌, Bool, true, false, Option, none, some, List, [], ◌∷◌, ℤ, pos, ◌≤ℤ◌, Str, ◌==◌, ◌≡◌, refl, ap,
  subst, inl, inr, In, Bool-cases, if◌then◌else◌, eq_iff, arith, ltb_ℤ,
}
use relkit.Prelude.Results.{Result, ok, err}
use relkit.Prelude.Dicts.{Dict}
use relkit.Rup.{UpdateDirectory}
use relkit.Wire.{Envelope}
use relkit.Envelope.{OpenError, directory_schema}
use relkit.Envelope.Trust.{IsTrusted}
use relkit.Envelope.Directories.{open_directory-IsTrusted}
use relkit.Publish.{Backend}
use relkit.Directory.{
  DirectoryError, Setup, higher, open_target, open_targets, of_product, read_envelope,
  read_directory, read_only,
}

-- What `Get` returned is a directory of the product that a trusted key signed.
pub record HoldsDirectory (s : Setup) (trusted : Dict Str) (stored : Result (Unit {0}) (Option Str))
    (doc : UpdateDirectory) : Type 0 where
  pub raw : Str
  pub has_raw : stored ≡ ok (some raw)
  pub env : Envelope
  pub reads : s.wire.unmarshal_envelope raw ≡ some env
  pub trusted_env : IsTrusted s.wire trusted env
  pub payload : s.wire.unmarshal_directory env.payload ≡ some doc
  pub schema : doc.schema ≡ directory_schema
  pub product : doc.product ≡ s.product

-- It is nothing, or such a directory whose sequence is at most this.
pub data WasAtMost (s : Setup) (trusted : Dict Str) (base : ℤ)
    (stored : Result (Unit {0}) (Option Str)) : Type 0 where
  nothing : stored ≡ ok none → WasAtMost s trusted base stored
  listed :
      (doc : UpdateDirectory)
      → HoldsDirectory s trusted stored doc
      → doc.directory_sequence ≤ℤ base
      → WasAtMost s trusted base stored

-- The sequence is 0, or that of a directory that a backend has.
pub data IsTaken (s : Setup) (trusted : Dict Str) (backends : List Backend) (base : ℤ)
    : Type 0 where
  at_zero : base ≡ pos 0 → IsTaken s trusted backends base
  from_one :
      (b : Backend) (doc : UpdateDirectory)
      → In b backends
      → HoldsDirectory s trusted b.stored doc
      → doc.directory_sequence ≡ base
      → IsTaken s trusted backends base

-- Each name stands for a backend that takes pointers.
pub data Opened (s : Setup) : List Str → List Backend → Type 0 where
  no_more : Opened s [] []
  one_more :
      {name : Str} {b : Backend} {names : List Str} {backends : List Backend}
      → s.create name ≡ some b
      → b.writable ≡ true
      → Opened s names backends
      → Opened s (name ∷ names) (b ∷ backends)

pub err_is_ok :
    {A : Type 0} {x : DirectoryError} {y : A} → ◌≡◌ {A = Result DirectoryError A} (err x) (ok y) → ⊥
err_is_ok p = cc

pub ok_inj : {A : Type 0} {x y : A} → ◌≡◌ {A = Result DirectoryError A} (ok x) (ok y) → x ≡ y
ok_inj p = cc

pub open_targets-Opened :
    (s : Setup) (names : List Str) (backends : List Backend)
    → open_targets s names ≡ ok backends
    → Opened s names backends
unfolding open_targets open_target
open_targets-Opened s [] backends e = subst (Opened s []) (ok_inj e) no_more
open_targets-Opened s (name ∷ names) backends e =
    go (s.create name) (open_targets s names) refl (open_targets-Opened s names) e
  where
    kept :
        (b : Backend) (opened : List Backend) (takes : Bool)
        → s.create name ≡ some b
        → Opened s names opened
        → b.writable ≡ takes
        → ◌≡◌ {A = Result DirectoryError (List Backend)}
            (if takes then ok (b ∷ opened) else err read_only)
            (ok backends)
        → Opened s (name ∷ names) backends
    kept b opened true c o w q = subst (Opened s (name ∷ names)) (ok_inj q) (one_more c w o)
    kept b opened false c o w q = absurd (err_is_ok q)

    failed :
        (takes : Bool) (x : DirectoryError)
        → ◌≡◌ {A = Result DirectoryError (List Backend)}
            (if takes then err x else err read_only)
            (ok backends)
        → ⊥
    failed true x q = err_is_ok q
    failed false x q = err_is_ok q

    go :
        (o : Option Backend) (r : Result DirectoryError (List Backend))
        → s.create name ≡ o
        → ((opened : List Backend) → r ≡ ok opened → Opened s names opened)
        → open_target o r ≡ ok backends
        → Opened s (name ∷ names) backends
    go none r c ih q = absurd (err_is_ok q)
    go (some b) (err x) c ih q = absurd (failed b.writable x q)
    go (some b) (ok opened) c ih q = kept b opened b.writable c (ih opened refl) refl q

pub higher-least : (base : ℤ) (doc : Option UpdateDirectory) → base ≤ℤ higher base doc
unfolding higher
higher-least base none = ground arith
higher-least base (some doc) = ground arith

pub higher-seen :
    (base : ℤ) (doc : UpdateDirectory) → doc.directory_sequence ≤ℤ higher base (some doc)
unfolding higher
higher-seen base doc = ground arith

pub higher-or :
    (base : ℤ) (doc : UpdateDirectory)
    → (higher base (some doc) ≡ base) ⊎ (doc.directory_sequence ≡ higher base (some doc))
unfolding higher
higher-or base doc = elim (Bool-cases (ltb_ℤ base doc.directory_sequence)) [
  | inl e ↦ inr (rw e refl)
  | inr e ↦ inl (rw e refl)
]

module _ (s : Setup) (trusted : Dict Str) where
  of_product-ok :
      (r : Result OpenError UpdateDirectory) (doc : UpdateDirectory)
      → of_product s.product r ≡ ok (some doc)
      → (r ≡ ok doc) × (doc.product ≡ s.product)
  unfolding of_product
  of_product-ok (err x) doc e = absurd (err_is_ok e)
  of_product-ok (ok d) doc e = elim (Bool-cases (d.product == s.product)) [
    | inl q ↦
        let same : d ≡ doc = some_inj (ok_inj (rw q at e)) in
        (
          ap ok same,
          subst (λ (z : UpdateDirectory). z.product ≡ s.product) same
              ((eq_iff d.product s.product).0 q),
        )
    | inr q ↦ absurd (err_is_ok (rw q at e))
  ]
    where
      some_inj :
          {a b : UpdateDirectory} → ◌≡◌ {A = Option UpdateDirectory} (some a) (some b) → a ≡ b
      some_inj p = cc

  pub read_directory-HoldsDirectory :
      (stored : Result (Unit {0}) (Option Str)) (doc : UpdateDirectory)
      → read_directory s trusted stored ≡ ok (some doc)
      → HoldsDirectory s trusted stored doc
  unfolding read_directory read_envelope
  read_directory-HoldsDirectory (err x) doc e = absurd (err_is_ok e)
  read_directory-HoldsDirectory (ok none) doc e = absurd (none_is_some (ok_inj e))
    where
      none_is_some : ◌≡◌ {A = Option UpdateDirectory} none (some doc) → ⊥
      none_is_some p = cc
  read_directory-HoldsDirectory (ok (some raw)) doc e = go (s.wire.unmarshal_envelope raw) refl e
    where
      go :
          (o : Option Envelope)
          → s.wire.unmarshal_envelope raw ≡ o
          → read_envelope s trusted o ≡ ok (some doc)
          → HoldsDirectory s trusted (ok (some raw)) doc
      go none q p = absurd (err_is_ok p)
      go (some env) q p =
          let (opened, product) = of_product-ok _ doc p in
          let (t, u, schema) = open_directory-IsTrusted s.wire env trusted opened in
          record {
            raw = raw;
            has_raw = refl;
            env = env;
            reads = q;
            trusted_env = t;
            payload = u;
            schema = schema;
            product = product;
          }
