-- ===== src/Evict/Refetched.antt =====
-- What may happen to the index of src/evict.rs while `reconcile_missing` looks at the disk.
use git_cache_proxy.Base.{
  ℕ, Bytes, bytes_eq_refl, [], Bool, true, false, is_some, mem, ◌≡◌, ◌≢◌, ap, arith,
}
use git_cache_proxy.FilePath.{path_join}
use git_cache_proxy.Lru.{LruCache, lookup}
use git_cache_proxy.Evict.{State, record_blob, mark_changed, reconcile_missing}
use git_cache_proxy.Evict.Reconcile.{reconcile_exactly}
use git_cache_proxy.System.Tracked.{is_tracked, tracked-mark, dirty-mark}

module _ (lru : LruCache) where
  open lru use {entries}

  -- During a sweep that came back, for a name that was tracked, whose path was gone, and that was not
  -- pending: if a pull marks it in the meantime, it stays tracked; but if a download records it as an
  -- object of any size in the meantime, it leaves the index.
  pub sweep_meanwhile :
      (gone : Bytes → Bool) (i : State lru) (k : Bytes) (size : ℕ)
      → is_tracked lru k i ≡ true
      → gone (path_join i.cache_root k) ≡ true
      → mem k i.dirty ≡ false
      → (is_tracked lru k (reconcile_missing lru gone true (mark_changed lru k) i) ≡ true)
        × (is_tracked lru k (reconcile_missing lru gone true (record_blob lru k size) i) ≡ false)
  sweep_meanwhile gone i k size t g clean =
      let some_entry : entries i.cache ≢ [] = λ e.
        let nothing : is_tracked lru k i ≡ false =
          unfold lookup in ap (λ l. is_some (lookup k l)) e in
        absurd (cc (t, nothing)) in
      let clean_after : mem k (record_blob lru k size i).dirty ≡ false =
        unfold record_blob in clean in
      (
        ground (
          arith,
          reconcile_exactly lru gone (mark_changed lru k) i k some_entry,
          dirty-mark lru k k i,
          tracked-mark lru k k i,
          bytes_eq_refl k,
        ),
        ground (
          arith,
          reconcile_exactly lru gone (record_blob lru k size) i k some_entry,
          t,
          g,
          clean_after,
        ),
      )
