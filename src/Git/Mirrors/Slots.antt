-- ===== src/Git/Mirrors/Slots.antt =====
-- The slots and the mirrors of `GitCache` in src/git.rs as maps.
use git_cache_proxy.Base.{
  ℕ, Bytes, bytes_eq, bytes_eq_iff, bytes_eq_refl, List, [], ◌∷◌, true, false, ◌&&◌, Option, some,
  if◌then◌else◌, mem, ◌≡◌, arith, is_some,
}
use git_cache_proxy.Git.Mirrors.{GitCache, find_slot, set_slot, slot, last, stamp, remove_mirror}

find-set_slot :
    (k j : Bytes) (w : Option ℕ) (l : List (Bytes × Option ℕ))
    → find_slot j (set_slot k w l)
      ≡ (if bytes_eq k j && is_some (find_slot j l) then some w else find_slot j l)
unfolding find_slot set_slot
find-set_slot k j w [] = ground arith
find-set_slot k j w ((i, v) ∷ l) =
    ground (arith, find-set_slot k j w l, bytes_eq_iff i k, bytes_eq_iff i j, bytes_eq_iff k j)

-- After a request for `k` made its slot, the slot of `k` is there and no stamp has changed.
pub last-slot : (k j : Bytes) (g : GitCache) → last j (slot k g) ≡ last j g
unfolding last slot find_slot
last-slot k j g = ground (arith, bytes_eq_iff k j)

pub slot-found : (k : Bytes) (g : GitCache) → is_some (find_slot k (slot k g).slots) ≡ true
unfolding slot find_slot
slot-found k g = ground (arith, bytes_eq_refl k)

pub last-stamp :
    (k j : Bytes) (t : ℕ) (g : GitCache)
    → is_some (find_slot k g.slots) ≡ true
    → last j (stamp k t g) ≡ (if bytes_eq k j then some t else last j g)
unfolding last stamp
last-stamp k j t g h = ground (arith, h, find-set_slot k j (some t) g.slots, bytes_eq_iff k j)

pub mem-remove_mirror :
    (d e : Bytes) (l : List Bytes)
    → mem e (remove_mirror d l) ≡ (if bytes_eq d e then false else mem e l)
unfolding remove_mirror
mem-remove_mirror d e [] = ground arith
mem-remove_mirror d e (x ∷ l) =
    ground (arith, mem-remove_mirror d e l, bytes_eq_iff x d, bytes_eq_iff x e, bytes_eq_iff d e)
