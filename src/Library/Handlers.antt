-- ===== src/Library/Handlers.antt =====
-- The handlers of internal/updater/library.go: what a host asks, and the event it is answered with.
use relkit.Prelude.{
  Bool, Option, none, some, List, [], ℤ, pos, Str, ◌==◌, eqb_ℤ, leb_ℤ, if◌then◌else◌,
}
use relkit.Prelude.Results.{ok, err}
use relkit.Library.{Tree, InstalledList, list_installed}
use relkit.Library.Changes.{
  LibraryError, Changed, Trashing, delete_installed, switch_active, rollback_active,
}

-- The error codes of the events, with what they say.
pub data Failure : Type 0 where
  install_root_required code_required layout_unsupported occupied : Failure
  selector_no_match rollback_rejected delete_refused : LibraryError → Failure

pub data Event : Type 0 where
  failed : Failure → Event
  installed : InstalledList → Event
  done : Event

-- The install root, whether it is a LIBRARY, and whether `acquireApplyLock` succeeds.
pub record Install : Type 0 where
  pub root : Str
  pub is_library : Bool
  pub lock_free : Bool

unfoldable pub handle_list_installed : Install → Tree → Event
handle_list_installed i t =
    if i.root == [] then failed install_root_required else installed (list_installed t)

-- The event of a change under the lock.
unfoldable pub answered : (LibraryError → Failure) → Changed → Event × Tree
answered failure (err e, t) = (failed (failure e), t)
answered failure (ok _, t) = (done, t)

unfoldable pub locked : Install → (LibraryError → Failure) → Changed → Tree → Event × Tree
locked i failure changed t = if i.lock_free then answered failure changed else (failed occupied, t)

unfoldable pub handle_switch_active : Install → Bool → Option ℤ → Tree → Event × Tree
handle_switch_active i writes none t =
    (failed (if i.root == [] then install_root_required else code_required), t)
handle_switch_active i writes (some code) t =
    if i.root == []
    then (failed install_root_required, t)
    else if eqb_ℤ code (pos 0)
    then (failed code_required, t)
    else locked i selector_no_match (switch_active writes code t) t

unfoldable pub handle_rollback : Install → Bool → Tree → Event × Tree
handle_rollback i writes t =
    if i.root == []
    then (failed install_root_required, t)
    else locked i rollback_rejected (rollback_active writes t) t

unfoldable pub handle_delete_installed :
    Install → Trashing → Option (ℤ × List ℤ) → Tree → Event × Tree
handle_delete_installed i trashing op t =
    if i.root == []
    then (failed install_root_required, t)
    else if i.is_library
    then elim op [
      | none ↦ (failed code_required, t)
      | some (code, used) ↦
          if leb_ℤ code (pos 0)
          then (failed code_required, t)
          else locked i delete_refused (delete_installed trashing code used t) t
    ]
    else (failed layout_unsupported, t)
