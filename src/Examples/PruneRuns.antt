-- ===== src/Examples/PruneRuns.antt =====
-- Three versions with room for two: the oldest goes, unless it runs.
use relkit.Prelude.{
  ◌≡◌, refl, true, false, Option, none, some, List, [], ◌∷◌, ℤ, pos, Str, str, In, here, there,
}
use relkit.Library.{ActivePointer, VersionMeta, Entry, Tree}
use relkit.Library.Changes.{gone}
use relkit.Library.Prune.{Pruning, prune_versions, is_hidden}
use relkit.Library.Pruned.{running, prune_versions-keeps}

abbrev version : Str → ℤ → Entry
version name code = record {
  name = name;
  is_dir = true;
  meta = some (record { code = code; version = []; executable = []; bundle = [] });
}

abbrev pointer : ActivePointer
pointer = record {
  code = pos 3;
  version = [];
  path = str "versions/c";
  executable = [];
  bundle = [];
  previous = str "versions/b";
}

abbrev install : Tree
install = record {
  active = some pointer;
  entries = version (str "a") (pos 1) ∷ version (str "b") (pos 2) ∷ version (str "c") (pos 3) ∷ [];
}

abbrev pruning : List Str → Pruning
pruning used = record {
  current = pointer;
  retain = pos 2;
  reserved = [];
  extra_keep = [];
  in_use = used;
}

oldest_goes :
    (prune_versions (pruning []) (λ name. gone) install).entries
    ≡ version (str "b") (pos 2) ∷ version (str "c") (pos 3) ∷ []
unfolding prune_versions relkit.Library.Prune.to_prune is_hidden relkit.Prelude.Text.has_prefix
    relkit.Prelude.Sets.contains relkit.Library.Prune.kept_paths relkit.Library.Prune.fill
    relkit.Library.Prune.newest_first relkit.Prelude.Sorting.sort_by relkit.Library.Prune.is_item
    relkit.Library.Prune.installed_code relkit.Library.Prune.code_with relkit.Library.Prune.retained
    relkit.Library.Prune.add_reserved relkit.Library.Prune.is_reserved_code
    relkit.Library.Prune.named_paths relkit.Library.Prune.add_path relkit.Prelude.◌==◌
    relkit.Prelude.Sets.add_key relkit.Library.path_of relkit.Library.Prune.is_movable
oldest_goes = refl

a_is_plain : is_hidden (version (str "a") (pos 1)) ≡ false
unfolding is_hidden relkit.Prelude.Text.has_prefix
a_is_plain = refl

prune_versions-keeps_example :
    In
      (version (str "a") (pos 1))
      (prune_versions (pruning (str "a" ∷ [])) (λ name. gone) install).entries
prune_versions-keeps_example =
    prune_versions-keeps (pruning (str "a" ∷ [])) (λ name. gone) install (version (str "a") (pos 1))
      (here refl) a_is_plain (running (here refl))
