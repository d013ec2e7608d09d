-- ===== src/Lru.antt =====
-- What src/evict.rs uses of the `lru` crate: an unbounded `LruCache<String, u64>`. The crate is not
-- part of the repository, so the cache is an interface: its operations, and its documented
-- behaviour as laws over the entries in the order that `iter` gives, most recently used first.
pub mod Entries
pub mod ListCache
use git_cache_proxy.Base.{
  ℕ, ◌+◌, Bytes, List, [], ◌∷◌, ◌++◌, ◌≡◌, Option, none, some, bytes_eq, if◌then◌else◌, length,
}

abbrev pub Entry : Type 0
Entry = Bytes × ℕ

unfoldable pub lookup : Bytes → List Entry → Option ℕ
lookup k [] = none
lookup k ((j, v) ∷ l) = if bytes_eq j k then some v else lookup k l

unfoldable pub without : Bytes → List Entry → List Entry
without k [] = []
without k ((j, v) ∷ l) = let rest = without k l in if bytes_eq j k then rest else (j, v) ∷ rest

unfoldable pub assign : Bytes → ℕ → List Entry → List Entry
assign k w [] = []
assign k w ((j, v) ∷ l) =
    let rest = assign k w l in if bytes_eq j k then (j, w) ∷ rest else (j, v) ∷ rest

-- Moves an entry that is there to the front.
unfoldable pub promote : Bytes → List Entry → List Entry
promote k l = elim (lookup k l) [ none ↦ l | some v ↦ (k, v) ∷ without k l ]

abbrev pub last? {ℓ} : {A : Type ℓ} → List A → Option A
last? [] = none
last? (x ∷ []) = some x
last? (x ∷ y ∷ l) = last? (y ∷ l)

abbrev pub init {ℓ} : {A : Type ℓ} → List A → List A
init [] = []
init (x ∷ []) = []
init (x ∷ y ∷ l) = x ∷ init (y ∷ l)

-- No key stands twice.
abbrev pub Distinct : List Entry → Type 0
Distinct [] = Unit
Distinct ((k, v) ∷ l) = (lookup k l ≡ none) × Distinct l

pub record LruCache : Type 1 where
  pub Cache : Type 0
  pub entries : Cache → List Entry
  pub unbounded : Cache
  pub get : Cache → Bytes → Option ℕ × Cache
  pub put : Cache → Bytes → ℕ → Option ℕ × Cache
  pub peek : Cache → Bytes → Option ℕ
  -- a write through `peek_mut`
  pub write_peeked : Cache → Bytes → ℕ → Cache
  pub pop : Cache → Bytes → Option ℕ × Cache
  pub pop_lru : Cache → Option Entry × Cache
  pub len : Cache → ℕ
  pub entries-Distinct : (c : Cache) → Distinct (entries c)
  pub entries-unbounded : entries unbounded ≡ []
  pub get_value : (c : Cache) (k : Bytes) → (get c k).0 ≡ lookup k (entries c)
  pub entries-get : (c : Cache) (k : Bytes) → entries (get c k).1 ≡ promote k (entries c)
  pub put_value : (c : Cache) (k : Bytes) (v : ℕ) → (put c k v).0 ≡ lookup k (entries c)
  pub entries-put :
      (c : Cache) (k : Bytes) (v : ℕ) → entries (put c k v).1 ≡ (k, v) ∷ without k (entries c)
  pub peek_value : (c : Cache) (k : Bytes) → peek c k ≡ lookup k (entries c)
  pub entries-write_peeked :
      (c : Cache) (k : Bytes) (v : ℕ) → entries (write_peeked c k v) ≡ assign k v (entries c)
  pub pop_value : (c : Cache) (k : Bytes) → (pop c k).0 ≡ lookup k (entries c)
  pub entries-pop : (c : Cache) (k : Bytes) → entries (pop c k).1 ≡ without k (entries c)
  pub pop_lru_value : (c : Cache) → (pop_lru c).0 ≡ last? (entries c)
  pub entries-pop_lru : (c : Cache) → entries (pop_lru c).1 ≡ init (entries c)
  pub len-entries : (c : Cache) → len c ≡ length (entries c)
