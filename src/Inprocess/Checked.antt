-- ===== src/Inprocess/Checked.antt =====
-- `CheckForce` as a whole: what it offers, what it tells, and what it remembers.
use relkit.Prelude.{
  ◌≡◌, refl, sym, subst, ℤ, ◌≤ℤ◌, Bool, true, false, not, ◌&&◌, Bool-cases, inl, inr, Option, none,
  some, Option-cases, List, ◌++◌, Str, false≢true,
}
use relkit.Rup.{Index}
use relkit.Sdk.State.{UpdateState}
use relkit.Sdk.State.Marks.{AtLeast, AtLeast-refl, AtLeast-trans}
use relkit.Inprocess.{
  World, Updater, Attempt, CheckResult, UpdateAvailable, FallbackRequired, update,
}
use relkit.Inprocess.Force.{
  by_error, not_due, due, stamp_check, only_notice, without_update, conclusion, check_now,
  check_force,
}
use relkit.Inprocess.Triples.{Triple, Marks, Marks-refl, Marks-trans, triple_bind, triple_pure}
use relkit.Inprocess.Answers.{IsOffer, IsCurrent, IsAnswer, check_index-IsAnswer}
use relkit.Inprocess.Notices.{IsNotice, Notified, check_fallback-Notified}

-- The result of a check and the state after it, for a client that remembered `start`.
record IsChecked (u : Updater) (start : UpdateState) (r : CheckResult) (s : UpdateState)
    : Type 0 where
  marks : Marks start s
  offer :
      (a : UpdateAvailable)
      → r.available ≡ some a
      → IsOffer u start a × AtLeast s.last_seen_sequence (some a.sequence)
  current :
      r.up_to_date ≡ true
      → (index : Index) × IsCurrent u start index × (r.sequence ≡ index.sequence)
  notice :
      (n : FallbackRequired) → r.fallback ≡ some n → IsNotice u start.last_seen_fallback_sequence n

no_offer : {a : UpdateAvailable} → none ≡ some a → ⊥
no_offer q = cc

no_notice : {n : FallbackRequired} → none ≡ some n → ⊥
no_notice q = cc

-- The facts that the parts of a check leave to its conclusion.
record Ready (u : Updater) (start : UpdateState) (normal : CheckResult)
    (notice : Option FallbackRequired) (s : UpdateState) : Type 0 where
  marks : Marks start s
  offer :
      (a : UpdateAvailable)
      → normal.available ≡ some a
      → IsOffer u start a × AtLeast s.last_seen_sequence (some a.sequence)
  current :
      normal.up_to_date ≡ true
      → (index : Index) × IsCurrent u start index × (normal.sequence ≡ index.sequence)
  notices :
      (n : FallbackRequired) → notice ≡ some n → IsNotice u start.last_seen_fallback_sequence n
  silent : normal.fallback ≡ none

as_is :
    (u : Updater) (start : UpdateState) (normal : CheckResult) (notice : Option FallbackRequired)
    (s : UpdateState)
    → Ready u start normal notice s
    → IsChecked u start normal s
as_is u start normal notice s h = record {
  marks = h.marks;
  offer = h.offer;
  current = h.current;
  notice = λ n e. absurd (no_notice (rw h.silent at e));
}

without-IsChecked :
    (u : Updater) (start : UpdateState) (normal : CheckResult) (notice : Option FallbackRequired)
    (s : UpdateState)
    → Ready u start normal notice s
    → IsChecked u start (without_update u normal notice).1 s
unfolding without_update by_error
without-IsChecked u start normal (some n) s h =
    unfold only_notice in
    record {
      marks = h.marks;
      offer = λ a e. absurd (no_offer e);
      current = λ e. absurd (false≢true e);
      notice = λ m e. h.notices m e;
    }
without-IsChecked u start normal none s h = settle normal.up_to_date normal.error
  where
    helped : IsChecked u start (record normal { recovery = u.recovery }) s
    helped = record {
      marks = h.marks;
      offer = h.offer;
      current = h.current;
      notice = λ n e. absurd (no_notice (rw h.silent at e));
    }

    settle :
        (fresh : Bool) (error : Option Str) → IsChecked u start (by_error u normal fresh error).1 s
    settle true error = as_is u start normal none s h
    settle false none = as_is u start normal none s h
    settle false (some message) = helped

conclusion-IsChecked :
    (u : Updater) (start : UpdateState) (normal : CheckResult) (notice : Option FallbackRequired)
    (s : UpdateState)
    → Ready u start normal notice s
    → IsChecked u start (conclusion u normal notice).1 s
unfolding conclusion
conclusion-IsChecked u start normal notice s h = elim (Option-cases normal.available) [
  | inl e ↦ rw (e, conclusion) (without-IsChecked u start normal notice s h)
  | inr (a, e) ↦
      rw (e, conclusion)
        (record { marks = h.marks; offer = h.offer; current = h.current; notice = h.notices })
]

stamp-Marks : (text : Str) (now : ℤ) (s : UpdateState) → Marks s (stamp_check text now s)
unfolding stamp_check
stamp-Marks text now s = record {
  index = AtLeast-refl s.last_seen_sequence;
  fallback = AtLeast-refl s.last_seen_fallback_sequence;
  directory = AtLeast-refl s.last_seen_directory_sequence;
  skips = refl;
}

-- A result stays right while the marks rise.
IsChecked-later :
    (u : Updater) (start : UpdateState) (r : CheckResult) (s t : UpdateState)
    → Marks s t
    → IsChecked u start r s
    → IsChecked u start r t
IsChecked-later u start r s t m h = record {
  marks = Marks-trans start s t h.marks m;
  offer = λ a e.
      let (o, k) = h.offer a e in
      (o, AtLeast-trans t.last_seen_sequence s.last_seen_sequence (some a.sequence) m.index k);
  current = h.current;
  notice = h.notice;
}

ready :
    (u : Updater) (start : UpdateState) (normal : CheckResult)
    (answer : Option FallbackRequired × List Attempt) (s t : UpdateState)
    → IsAnswer u start normal s
    → Marks s t
    → Notified u start answer t
    → Ready u start (record normal { attempts = normal.attempts ++ answer.1 }) answer.0 t
ready u start normal answer s t h m n = record {
  marks = n.marks;
  offer = λ a e.
      let (o, k) = h.offer a e in
      (o, AtLeast-trans t.last_seen_sequence s.last_seen_sequence (some a.sequence) m.index k);
  current = h.current;
  notices = n.notice;
  silent = h.silent;
}

check_now-IsChecked :
    (u : Updater) (start : UpdateState) → Triple (Marks start) (check_now u) (IsChecked u start)
unfolding check_now stamp_check update
check_now-IsChecked u start = triple_bind (check_index-IsAnswer u start) (λ normal.
    triple_bind
      {mid = λ answer s.
        Ready u start (record normal { attempts = normal.attempts ++ answer.1 }) answer.0 s}
      (record {
        runs = λ w h.
            ready u start normal _ w.memory _ h
              ((check_fallback-Notified u w.memory).runs w (Marks-refl w.memory)).marks
              ((check_fallback-Notified u start).runs w h.marks);
      })
      (λ answer.
        let normal' = record normal { attempts = normal.attempts ++ answer.1 } in
        let result = conclusion u normal' answer.0 in
        triple_bind {mid = λ _ s. IsChecked u start result.1 s}
          (record {
            runs = λ w h.
                IsChecked-later u start result.1 w.memory _ (stamp-Marks result.0 _ w.memory)
                  (conclusion-IsChecked u start normal' answer.0 w.memory h);
          })
          (λ _. triple_pure result.1 (λ s h. h))))

throttled-IsChecked : (u : Updater) (s : UpdateState) → IsChecked u s (not_due u s) s
unfolding not_due
throttled-IsChecked u s = record {
  marks = Marks-refl s;
  offer = λ a e. absurd (no_offer e);
  current = λ e. absurd (false≢true e);
  notice = λ n e. absurd (no_notice e);
}

check_force-IsChecked :
    (u : Updater) (force : Bool) (w : World)
    → IsChecked u w.memory (check_force u force w).0 (check_force u force w).1.memory
unfolding check_force
check_force-IsChecked u force w = elim (Bool-cases (not force && not (due u w))) [
  | inl e ↦ rw e (throttled-IsChecked u w.memory)
  | inr e ↦ rw e ((check_now-IsChecked u w.memory).runs w (Marks-refl w.memory))
]

-- If a check offers an update to a client, whatever the network answers, the update comes from an
-- index for the client's product and channel that a trusted key signed and that is not older than
-- the last sequence seen; its target is the first node of the upgrade path, so a legal hop, which
-- the user did not skip unless it is mandatory; and the manifest has the digest and the size that
-- the target names, is for that product, version and code, and the artifact is the choice from
-- it.
pub check_force-IsOffer :
    (u : Updater) (force : Bool) (w : World) (a : UpdateAvailable)
    → (check_force u force w).0.available ≡ some a
    → IsOffer u w.memory a
check_force-IsOffer u force w a e = ((check_force-IsChecked u force w).offer a e).0

-- A check never lowers the last sequence, fallback sequence or directory sequence that was seen,
-- and never changes the skip list, whatever the network answers.
pub check_force-Marks :
    (u : Updater) (force : Bool) (w : World) → Marks w.memory (check_force u force w).1.memory
check_force-Marks u force w = (check_force-IsChecked u force w).marks

-- If a check tells of a required manual update, the notice is copied from a rule of a fallback
-- document of this product that a trusted key signed and that is not older than the last one
-- seen, and the rule covers the client's code and selectors.
pub check_force-IsNotice :
    (u : Updater) (force : Bool) (w : World) (n : FallbackRequired)
    → (check_force u force w).0.fallback ≡ some n
    → IsNotice u w.memory.last_seen_fallback_sequence n
check_force-IsNotice u force w n e = (check_force-IsChecked u force w).notice n e

-- If one check offers an update, and a later check, with any configuration, from a state whose
-- last sequence seen is not below what the first check left, offers one too, the sequence of the
-- later index is not below that of the earlier one. The skip list and the other marks may have
-- changed.
pub offers_in_order :
    (u v : Updater) (force again : Bool) (w w' : World) (a b : UpdateAvailable)
    → AtLeast w'.memory.last_seen_sequence (check_force u force w).1.memory.last_seen_sequence
    → (check_force u force w).0.available ≡ some a
    → (check_force v again w').0.available ≡ some b
    → a.sequence ≤ℤ b.sequence
offers_in_order u v force again w w' a b m e f =
    let old = ((check_force-IsChecked u force w).offer a e).1 in
    let offer = check_force-IsOffer v again w' b f in
    let kept =
      AtLeast-trans w'.memory.last_seen_sequence (check_force u force w).1.memory.last_seen_sequence
        (some a.sequence) m old in
    subst (λ n. a.sequence ≤ℤ n) (sym offer.sequence)
      (AtLeast-trans (some offer.index.sequence) w'.memory.last_seen_sequence (some a.sequence)
        offer.opened.fresh kept)
