-- ===== src/Sites/Calls.antt =====
-- Any sequence of calls on the store of internal/store/store.go.
use flow_proxy.Prelude.{ℕ, ◌≡◌, Bool, false, List, [], ◌∷◌, Text, is_empty}
use flow_proxy.Sites.Config.{Site}
use flow_proxy.Sites.Checks.{SiteLib}
use flow_proxy.Sites.Store.{
  set_enabled, delete_site, create_site, update_site, replace_all, load_all, load_blob, Blob,
  absent, unreadable, holds,
}
use flow_proxy.Sites.Separate.{IsSeparate}

-- A call with the time at which it runs and whether the blob can be saved then.
pub data StoreCall : Type 0 where
  create_call : ℕ → Bool → Site → StoreCall
  update_call : ℕ → Bool → Text → Site → StoreCall
  switch_call : ℕ → Bool → Text → Bool → StoreCall
  delete_call : Bool → Text → StoreCall
  replace_call : Bool → List Site → StoreCall
  reload_call : ℕ → Blob → StoreCall

module _ {Ip Cidr : Type 0} (lib : SiteLib Ip Cidr) where
  abbrev pub perform : StoreCall → List Site → List Site
  unfolding create_site update_site set_enabled delete_site replace_all load_blob
  perform (create_call now saves item) sites = (create_site lib now saves item sites).1
  perform (update_call now saves id patch) sites = (update_site lib now saves id patch sites).1
  perform (switch_call now saves id enabled) sites = (set_enabled now saves id enabled sites).1
  perform (delete_call saves id) sites = (delete_site saves id sites).1
  perform (replace_call saves items) sites = (replace_all saves items sites).1
  perform (reload_call now blob) sites = (load_blob lib now blob sites).1

  -- A site is created under an id, and the lists that are taken over as a whole, from a caller or a
  -- blob, are free of clashes.
  abbrev pub IsFit : StoreCall → Type 0
  IsFit (create_call now saves item) = is_empty item.id ≡ false
  IsFit (update_call now saves id patch) = Unit {0}
  IsFit (switch_call now saves id enabled) = Unit {0}
  IsFit (delete_call saves id) = Unit {0}
  IsFit (replace_call saves items) = IsSeparate items
  IsFit (reload_call now absent) = Unit {0}
  IsFit (reload_call now unreadable) = Unit {0}
  IsFit (reload_call now (holds parsed)) = IsSeparate (load_all lib now parsed).1

  unfoldable pub run_store : List StoreCall → List Site → List Site
  unfolding perform
  run_store [] sites = sites
  run_store (call ∷ calls) sites = run_store calls (perform call sites)
