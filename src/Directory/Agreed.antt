-- ===== src/Directory/Agreed.antt =====
-- What the backends hold after the directory of a product was replaced.
use relkit.Prelude.{
  Bool, true, false, not, Option, none, some, List, [], ◌∷◌, map, ℤ, Str, ◌≡◌, refl, ap, subst, inl,
  inr, In, In-cons, if◌then◌else◌, is_empty,
}
use relkit.Prelude.Results.{Result, ok, err}
use relkit.Rup.{UpdateDirectory}
use relkit.Wire.{Envelope}
use relkit.Envelope.{Signer, seal_directory}
use relkit.Publish.{Backend, trusted_keys}
use relkit.Publish.Others.{Follows, next_sequence-Follows}
use relkit.Directory.Base.{err_is_ok, ok_inj, Opened, open_targets-Opened}
use relkit.Directory.Sequences.{IsBase, read_base_sequence-IsBase}
use relkit.Directory.{
  validate_services, chosen_services, no_targets, bad_service, no_services, no_product, signers_for,
  set_with_keys, set_opened, set_directory, show_or_write, new_directory, ServiceInput,
  read_base_sequence, seal_and_write, publish, clients_can_open, rejected, Outcome, written,
  Written, write_all, put_step, put_all, DirectoryError, Setup, SetOptions, open_targets,
  chosen_targets,
}

-- All of these hold the same bytes.
abbrev pub Holds : Str → List Backend → Type 0
Holds bytes backends = (b : Backend) → In b backends → b.stored ≡ ok (some bytes)

-- What is so once `Set` has written a document.
pub record IsAgreed (s : Setup) (opts : SetOptions) (doc : UpdateDirectory) (after : List Backend)
    : Type 0 where
  pub opened : List Backend
  pub were_opened : Opened s (chosen_targets s opts) opened
  pub signers : List Signer
  pub has_keys : s.signers ≡ some signers
  pub base : ℤ
  pub before : IsBase s (trusted_keys s.wire s.trusted signers) opened base
  pub goes_on : Follows base doc.directory_sequence
  pub product : doc.product ≡ s.product
  pub same_names : map (λ b. b.backend_name) after ≡ map (λ b. b.backend_name) opened
  pub env : Envelope
  pub sealed : seal_directory s.wire doc signers ≡ some env
  pub holds : Holds (s.marshal_envelope env) after

some_is_none : {x : DirectoryError} → ◌≡◌ {A = Option DirectoryError} (some x) none → ⊥
some_is_none p = cc

-- Writing
record IsWritten (bytes : Str) (backends after : List Backend) : Type 0 where
  names : map (λ b. b.backend_name) after ≡ map (λ b. b.backend_name) backends
  held : Holds bytes after

put_step-IsWritten :
    (bytes : Str) (committed : Bool) (c : Backend) (rest : List Backend) (later : Written)
    (takes : Bool)
    → (later.0 ≡ none → IsWritten bytes rest later.1)
    → (put_step bytes committed c rest later takes).0 ≡ none
    → IsWritten bytes (c ∷ rest) (put_step bytes committed c rest later takes).1
unfolding put_step
put_step-IsWritten bytes committed c rest later false h e = absurd (some_is_none e)
put_step-IsWritten bytes committed c rest later true h e = record {
  names = ap (λ ns. c.backend_name ∷ ns) (h e).names;
  held = λ b i. elim (In-cons i) [ inl same ↦ ap (λ x. x.stored) same | inr j ↦ (h e).held b j ];
}

put_all-IsWritten :
    (bytes : Str) (committed : Bool) (backends : List Backend)
    → (put_all bytes committed backends).0 ≡ none
    → IsWritten bytes backends (put_all bytes committed backends).1
unfolding put_all
put_all-IsWritten bytes committed [] e = record { names = refl; held = λ b i. elim i [ ] }
put_all-IsWritten bytes committed (c ∷ rest) e =
    put_step-IsWritten bytes committed c rest (put_all bytes true rest) c.accepts
      (λ q. put_all-IsWritten bytes true rest q) e

-- What was sealed and written.
record IsSealed (s : Setup) (doc new : UpdateDirectory) (o : Option Envelope)
    (backends after : List Backend) : Type 0 where
  env : Envelope
  was_made : o ≡ some env
  same_doc : new ≡ doc
  is_written : IsWritten (s.marshal_envelope env) backends after

-- The whole of it, from the last step back.
write_all-IsWritten :
    (s : Setup) (doc new : UpdateDirectory) (env : Envelope) (backends : List Backend)
    → (write_all s new env backends).0 ≡ ok doc
    → (new ≡ doc) × IsWritten (s.marshal_envelope env) backends (write_all s new env backends).1
unfolding write_all written
write_all-IsWritten s doc new env backends e = go (clients_can_open s env) e
  where
    done :
        (r : Written)
        → (r.0 ≡ none → IsWritten (s.marshal_envelope env) backends r.1)
        → written new r.0 ≡ ok doc
        → (new ≡ doc) × IsWritten (s.marshal_envelope env) backends r.1
    done (none, after) h p = (written_same p, h refl)
      where
        written_same : written new none ≡ ok doc → new ≡ doc
        written_same p = ok_inj p
    done (some x, after) h p = absurd (err_is_ok p)

    go :
        (b : Bool)
        → (if◌then◌else◌ {A = Outcome} b
            (
              written new (put_all (s.marshal_envelope env) false backends).0,
              (put_all (s.marshal_envelope env) false backends).1,
            )
            (err rejected, backends)).0
          ≡ ok doc
        → (new ≡ doc)
          × IsWritten
              (s.marshal_envelope env)
              backends
              (if◌then◌else◌ {A = Outcome} b
                (
                  written new (put_all (s.marshal_envelope env) false backends).0,
                  (put_all (s.marshal_envelope env) false backends).1,
                )
                (err rejected, backends)).1
    go true p =
        done (put_all (s.marshal_envelope env) false backends)
          (put_all-IsWritten (s.marshal_envelope env) false backends) p
    go false p = absurd (err_is_ok p)

seal_and_write-IsSealed :
    (s : Setup) (doc new : UpdateDirectory) (o : Option Envelope) (backends : List Backend)
    → (seal_and_write s new o backends).0 ≡ ok doc
    → IsSealed s doc new o backends (seal_and_write s new o backends).1
unfolding seal_and_write
seal_and_write-IsSealed s doc new none backends e = absurd (err_is_ok e)
seal_and_write-IsSealed s doc new (some env) backends e =
    let (same, w) = write_all-IsWritten s doc new env backends e in
    record { env = env; was_made = refl; same_doc = same; is_written = w }

module _ (s : Setup) (opts : SetOptions) (now : Str) (doc : UpdateDirectory) where
  new-Follows :
      (services : List ServiceInput) (base : ℤ)
      → Follows base (new_directory s opts now services base).directory_sequence
        × ((new_directory s opts now services base).product ≡ s.product)
  unfolding new_directory
  new-Follows services base = (next_sequence-Follows base, refl)

  shown-IsAgreed :
      (signers : List Signer) (backends : List Backend) (base : ℤ) (services : List ServiceInput)
      (dry : Bool)
      → open_targets s (chosen_targets s opts) ≡ ok backends
      → read_base_sequence s (trusted_keys s.wire s.trusted signers) backends ≡ ok base
      → dry ≡ false
      → s.signers ≡ some signers
      → (show_or_write s (new_directory s opts now services base) signers backends dry).0 ≡ ok doc
      → IsAgreed s opts doc
          (show_or_write s (new_directory s opts now services base) signers backends dry).1
  unfolding show_or_write
  shown-IsAgreed signers backends base services true o q f k e = absurd (true_is_false f)
    where
      true_is_false : true ≡ false → ⊥
      true_is_false p = cc
  shown-IsAgreed signers backends base services false o q f k e =
      let new = new_directory s opts now services base in
      let w = seal_and_write-IsSealed s doc new (seal_directory s.wire new signers) backends e in
      record {
        opened = backends;
        were_opened = open_targets-Opened s (chosen_targets s opts) backends o;
        signers = signers;
        has_keys = k;
        base = base;
        before =
            read_base_sequence-IsBase s (trusted_keys s.wire s.trusted signers) backends base q;
        goes_on =
            subst (λ (d : UpdateDirectory). Follows base d.directory_sequence) w.same_doc
              (new-Follows services base).0;
        product =
            subst (λ (d : UpdateDirectory). d.product ≡ s.product) w.same_doc
              (new-Follows services base).1;
        same_names = w.is_written.names;
        env = w.env;
        sealed = subst (λ d. seal_directory s.wire d signers ≡ some w.env) w.same_doc w.was_made;
        holds = w.is_written.held;
      }

  published-IsAgreed :
      (services : List ServiceInput) (signers : List Signer) (backends : List Backend)
      (r : Result DirectoryError ℤ)
      → open_targets s (chosen_targets s opts) ≡ ok backends
      → read_base_sequence s (trusted_keys s.wire s.trusted signers) backends ≡ r
      → opts.dry_run ≡ false
      → s.signers ≡ some signers
      → (publish s opts now services signers backends r).0 ≡ ok doc
      → IsAgreed s opts doc (publish s opts now services signers backends r).1
  unfolding publish
  published-IsAgreed services signers backends (err x) o q f k e = absurd (err_is_ok e)
  published-IsAgreed services signers backends (ok base) o q f k e =
      shown-IsAgreed signers backends base services opts.dry_run o q f k e

  keyed-IsAgreed :
      (services : List ServiceInput) (backends : List Backend) (o : Option (List Signer))
      → open_targets s (chosen_targets s opts) ≡ ok backends
      → opts.dry_run ≡ false
      → signers_for s opts.dry_run ≡ o
      → (set_with_keys s opts now services backends o).0 ≡ ok doc
      → IsAgreed s opts doc (set_with_keys s opts now services backends o).1
  unfolding set_with_keys signers_for
  keyed-IsAgreed services backends none o f k e = absurd (err_is_ok e)
  keyed-IsAgreed services backends (some signers) o f k e =
      published-IsAgreed services signers backends _ o refl f
        (subst (λ b. signers_for s b ≡ some signers) f k) e

  opened-IsAgreed :
      (services : List ServiceInput) (r : Result DirectoryError (List Backend))
      → open_targets s (chosen_targets s opts) ≡ r
      → opts.dry_run ≡ false
      → (set_opened s opts now services r).0 ≡ ok doc
      → IsAgreed s opts doc (set_opened s opts now services r).1
  unfolding set_opened
  opened-IsAgreed services (err x) q f e = absurd (err_is_ok e)
  opened-IsAgreed services (ok backends) q f e =
      keyed-IsAgreed services backends (signers_for s opts.dry_run) q f refl e

  -- If a `Set` that is not a dry run succeeds, then each target's name stands for a backend that
  -- takes pointers; what these backends had before was the same bytes, and each had nothing or a
  -- directory of the product that a trusted key signed, whose sequence is at most a base, the
  -- highest of them or 0; the new sequence is above the base, unless that is the greatest 64-bit
  -- integer, where the new one is 1000, or an integer beyond 64 bits; and afterwards the same
  -- backends all hold the bytes of the envelope in which the new document, which is for the
  -- product, is sealed.
  pub set_directory-IsAgreed :
      opts.dry_run ≡ false
      → (set_directory s opts now).0 ≡ ok doc
      → IsAgreed s opts doc (set_directory s opts now).1
  unfolding set_directory
  set_directory-IsAgreed f e =
      go (is_empty s.product) (is_empty (chosen_services s opts))
        (not (validate_services s [] (chosen_services s opts))) (is_empty (chosen_targets s opts))
        (set_opened s opts now (chosen_services s opts) (open_targets s (chosen_targets s opts)))
        (opened-IsAgreed (chosen_services s opts) (open_targets s (chosen_targets s opts)) refl f) e
    where
      outcome : Bool → Bool → Bool → Bool → Outcome → Outcome
      outcome a b c d rest =
          if a
          then (err no_product, [])
          else if b
          then (err no_services, [])
          else if c
          then (err bad_service, [])
          else if d
          then (err no_targets, [])
          else rest

      go :
          (a b c d : Bool) (rest : Outcome)
          → (rest.0 ≡ ok doc → IsAgreed s opts doc rest.1)
          → (outcome a b c d rest).0 ≡ ok doc
          → IsAgreed s opts doc (outcome a b c d rest).1
      go true b c d rest h p = absurd (err_is_ok p)
      go false true c d rest h p = absurd (err_is_ok p)
      go false false true d rest h p = absurd (err_is_ok p)
      go false false false true rest h p = absurd (err_is_ok p)
      go false false false false rest h p = h p
