-- ===== src/Lru/ListCache.antt =====
-- The interface of `Lru` met by a list: its laws can hold, and runs of the index can be evaluated.
use git_cache_proxy.Base.{ℕ, Bytes, bytes_eq_iff, List, [], ◌∷◌, ◌≡◌, refl, none, length, arith}
use git_cache_proxy.Lru.{Entry, LruCache, lookup, without, assign, promote, last?, init, Distinct}
use git_cache_proxy.Lru.Entries.{lookup-without, Distinct-without, Distinct-assign, Distinct-init}

abbrev pub Kept : Type 0
Kept = (l : List Entry) × Distinct l

keep_absent : (k : Bytes) (l : List Entry) → lookup k (without k l) ≡ none
keep_absent k l = ground (arith, lookup-without k k l, bytes_eq_iff k k)

pub promote-Distinct : (k : Bytes) (l : List Entry) → Distinct l → Distinct (promote k l)
unfolding promote
promote-Distinct k l h = ground (arith, keep_absent k l, Distinct-without k l h)

pub put-Distinct :
    (k : Bytes) (v : ℕ) (l : List Entry) → Distinct l → Distinct ((k, v) ∷ without k l)
put-Distinct k v l h = (keep_absent k l, Distinct-without k l h)

abbrev pub list_cache : LruCache
list_cache = record {
  Cache = Kept;
  entries = λ c. c.0;
  unbounded = ([], tt);
  get = λ c k. (lookup k c.0, (promote k c.0, promote-Distinct k c.0 c.1));
  put = λ c k v. (lookup k c.0, ((k, v) ∷ without k c.0, put-Distinct k v c.0 c.1));
  peek = λ c k. lookup k c.0;
  write_peeked = λ c k v. (assign k v c.0, Distinct-assign k v c.0 c.1);
  pop = λ c k. (lookup k c.0, (without k c.0, Distinct-without k c.0 c.1));
  pop_lru = λ c. (last? c.0, (init c.0, Distinct-init c.0 c.1));
  len = λ c. length c.0;
  entries-Distinct = λ c. c.1;
  entries-unbounded = refl;
  get_value = λ c k. refl;
  entries-get = λ c k. refl;
  put_value = λ c k v. refl;
  entries-put = λ c k v. refl;
  peek_value = λ c k. refl;
  entries-write_peeked = λ c k v. refl;
  pop_value = λ c k. refl;
  entries-pop = λ c k. refl;
  pop_lru_value = λ c. refl;
  entries-pop_lru = λ c. refl;
  len-entries = λ c. refl;
}
