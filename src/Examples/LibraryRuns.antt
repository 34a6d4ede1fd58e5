-- ===== src/Examples/LibraryRuns.antt =====
-- Requests to a library of two versions, the second of which is active.
use relkit.Prelude.{
  ap, ◌≡◌, refl, sym, ◌∙◌, true, false, Option, none, some, List, [], ◌∷◌, ℤ, pos, Str, str, In,
  here, there, ne_of_==,
}
use relkit.Library.{VersionMeta, Entry, Tree, path_of}
use relkit.Library.Changes.{gone}
use relkit.Library.Coherence.{IsSound}
use relkit.Library.Steps.{delete, switch, rollback, Request, serve_all, serve_all-IsSound}

abbrev meta_of : ℤ → VersionMeta
meta_of code = record { code = code; version = []; executable = []; bundle = [] }

abbrev one : Entry
one = record { name = str "a"; is_dir = true; meta = some (meta_of (pos 1)) }

abbrev two : Entry
two = record { name = str "b"; is_dir = true; meta = some (meta_of (pos 2)) }

abbrev install : Tree
install = record {
  active = some (record {
    code = pos 2;
    version = [];
    path = str "versions/b";
    executable = [];
    bundle = [];
    previous = str "versions/a";
  });
  entries = one ∷ two ∷ [];
}

two_ne_one : path_of one ≡ path_of two → ⊥
unfolding path_of relkit.Prelude.◌==◌
two_ne_one = ne_of_== (str "versions/a") (str "versions/b") refl

code_of_two :
    (e : Entry)
    → In e (one ∷ two ∷ [])
    → path_of e ≡ path_of two
    → (m : VersionMeta) → e.meta ≡ some m
    → m.code ≡ pos 2
code_of_two e (here q) p m h = absurd (two_ne_one (rw q at p))
code_of_two e (there (here q)) p m h =
    let same : some (meta_of (pos 2)) ≡ some m = rw q at h in code_eq same
  where
    code_eq : some (meta_of (pos 2)) ≡ some m → m.code ≡ pos 2
    code_eq s = let t : meta_of (pos 2) ≡ m = cc in sym (ap (λ (z : VersionMeta). z.code) t)
code_of_two e (there (there i)) p m h = elim i [ ]

same_entry :
    (e f : Entry) → In e (one ∷ two ∷ []) → In f (one ∷ two ∷ []) → path_of e ≡ path_of f → e ≡ f
same_entry e f (here q) (here r) p = q ∙ sym r
same_entry e f (here q) (there (here r)) p = absurd (two_ne_one (rw (q, r) at p))
same_entry e f (there (here q)) (here r) p = absurd (two_ne_one (sym (rw (q, r) at p)))
same_entry e f (there (here q)) (there (here r)) p = q ∙ sym r
same_entry e f (there (there i)) j p = elim i [ ]
same_entry e f (here q) (there (there j)) p = elim j [ ]
same_entry e f (there (here q)) (there (there j)) p = elim j [ ]

two_path : path_of two ≡ str "versions/b"
unfolding path_of
two_path = refl

are_dirs : (e : Entry) → In e (one ∷ two ∷ []) → e.is_dir ≡ true
are_dirs e (here q) = ap (λ (z : Entry). z.is_dir) q
are_dirs e (there (here q)) = ap (λ (z : Entry). z.is_dir) q
are_dirs e (there (there i)) = elim i [ ]

install-IsSound : IsSound install
install-IsSound = record {
  present = (two, there (here refl), two_path, refl);
  agrees = λ e i p. code_of_two e i (p ∙ sym two_path);
  previous = λ e i p. are_dirs e i;
  once = same_entry;
}

abbrev requests : List Request
requests =
    rollback true
    ∷ delete gone (pos 2) []
    ∷ switch true (pos 1)
    ∷ switch false (pos 1)
    ∷ delete gone (pos 1) []
    ∷ []

serve_all-IsSound_example : IsSound (serve_all requests install)
serve_all-IsSound_example = serve_all-IsSound requests install install-IsSound
