-- ===== src/Lfs/Downloads/Invariant.antt =====
-- What holds in every state that the calls of src/lfs.rs reach together.
use git_cache_proxy.Base.{
  ℕ, suc, ◌<◌, ◌≤◌, u64_mod, Bytes, Bool, true, some, ◌≡◌, ◌≢◌, sym, ap, ◌∙◌, subst, arith, inl,
  inr,
}
use git_cache_proxy.Repo.{lfs_object_path, valid_lfs_oid}
use git_cache_proxy.Lfs.{LfsConfig, Upstream, remove_file, tmp_path, sha256_hex}
use git_cache_proxy.Lfs.Files.{find-remove_file, tmp-ne-object}
use git_cache_proxy.Lfs.Downloads.{
  Files, ask, ask_slot, Pc, locked, number_of, System, place, Step, acquire, proceed, evict, Reach,
  initial, after, quiet,
}
use git_cache_proxy.Lfs.Downloads.Apart.{tmp_in_files, object_in_files, find-remove_other}
use git_cache_proxy.Lfs.Downloads.Locks.{place-cases}
use git_cache_proxy.Lfs.Downloads.Moves.{Good, Checked, Facts, Facts-Move}

module _ (up : Upstream) (cfg : LfsConfig) where
  -- The file of an object, if there is one, has the content that its name says.
  abbrev pub AllGood : Files → Type 0
  AllGood f =
      (o c : Bytes)
      → valid_lfs_oid o ≡ true
      → object_in_files cfg o f ≡ some c
      → sha256_hex up c ≡ o

  module _ (oid : ℕ → Bytes) (well : (i : ℕ) → valid_lfs_oid (oid i) ≡ true) where
    -- After at most `n` steps: the objects are good; a number in use was given out, and to one call;
    -- and a call that is about to move its file has one with the right hash.
    pub record Inv (n : ℕ) (s : System) : Type 0 where
      pub few : s.counter ≤ n
      pub good : AllGood s.files
      pub given : (i m : ℕ) → number_of (s.pc i) ≡ some m → m < s.counter
      pub unique : (i j m : ℕ) → number_of (s.pc i) ≡ some m → number_of (s.pc j) ≡ some m → i ≡ j
      pub sound : (i : ℕ) → Checked up cfg (oid i) s.files (s.pc i)

    Inv-quiet : (f : Files) → AllGood f → Inv 0 (quiet f)
    Inv-quiet f h = record {
      few = omega arith;
      good = h;
      given = λ i m e. absurd (cc e);
      unique = λ i j m e. absurd (cc e);
      sound = λ i m e. absurd (cc e);
    }

    Inv-evict :
        (n : ℕ) (s : System) (k : Bytes)
        → valid_lfs_oid k ≡ true
        → Inv n s
        → Inv (suc n) (record s { files = remove_file (lfs_object_path cfg.cache_root k) s.files })
    Inv-evict n s k v h = record {
      few = omega (arith, h.few);
      good = λ o c w e. h.good o c w (
          ground (
            arith,
            e,
            find-remove_file (lfs_object_path cfg.cache_root k) (lfs_object_path cfg.cache_root o)
                s.files,
          ));
      given = h.given;
      unique = h.unique;
      sound = λ i m e.
          let (c, there, hash) = h.sound i m e in
          (
            c,
            find-remove_other cfg (lfs_object_path cfg.cache_root k) (tmp_path cfg m) s.files
                  (λ same. tmp-ne-object cfg m k v (sym same))
                ∙ there,
            hash,
          );
    }

    Inv-ask : (n i : ℕ) (s : System) → Inv n s → Inv (suc n) (ask oid i s)
    unfolding ask
    Inv-ask n i s h = record {
      few = omega (arith, h.few);
      good = h.good;
      given = h.given;
      unique = h.unique;
      sound = h.sound;
    }

    Inv-acquire :
        (n i l : ℕ) (s : System)
        → Inv n s
        → Inv (suc n) (record s { held = place s.held l true; pc = place s.pc i locked })
    Inv-acquire n i l s h = record {
      few = omega (arith, h.few);
      good = h.good;
      given = λ j m e. elim (place-cases s.pc i j locked) [
        | inl (same, at) ↦ absurd (cc (e, at))
        | inr (d, at) ↦ h.given j m (ap number_of (sym at) ∙ e)
      ];
      unique = λ j k m e e'. elim (place-cases s.pc i j locked) [
        | inl (same, at) ↦ absurd (cc (e, at))
        | inr (d, at) ↦ elim (place-cases s.pc i k locked) [
          | inl (same, at') ↦ absurd (cc (e', at'))
          | inr (d', at') ↦ h.unique j k m (ap number_of (sym at) ∙ e) (ap number_of (sym at') ∙ e')
        ]
      ];
      sound = λ j m e. elim (place-cases s.pc i j locked) [
        | inl (same, at) ↦ absurd (cc (e, at))
        | inr (d, at) ↦ h.sound j m (sym at ∙ e)
      ];
    }

    -- No move makes the number of another call its own.
    number-apart :
        (n i j m : ℕ) (s : System) {g : Files} {l : ℕ} {q : Pc}
        → Facts up cfg (oid i) s.files s.counter (s.pc i) g l q
        → Inv n s
        → i ≢ j
        → number_of (s.pc j) ≡ some m
        → number_of q ≢ some m
    number-apart n i j m s fact h d e e' = elim (fact.fresh m e') [
      | inl old ↦ d (h.unique i j m old e)
      | inr (new, _) ↦ absurd (omega (arith, new, h.given j m e))
    ]

    Inv-proceed :
        (n i : ℕ) (s : System) (g : Files) (l : ℕ) (q : Pc) (held : ℕ → Bool)
        → suc n < u64_mod
        → Facts up cfg (oid i) s.files s.counter (s.pc i) g l q
        → Inv n s
        → Inv (suc n) (record s { files = g; counter = l; held = held; pc = place s.pc i q })
    Inv-proceed n i s g l q held room fact h = record {
      few = omega (arith, h.few, fact.grows.1);
      good = λ o c w e. elim (fact.objects o w) [
        | inl same ↦ h.good o c w (sym same ∙ e)
        | inr (is, (d, there, hash)) ↦ ap (sha256_hex up) (cc (e, there)) ∙ (hash ∙ sym is)
      ];
      given = λ j m e. elim (place-cases s.pc i j q) [
        | inl (same, at) ↦ elim (fact.fresh m (ap number_of (sym at) ∙ e)) [
          | inl old ↦ omega (arith, h.given i m old, fact.grows.0)
          | inr (new, next) ↦ omega (arith, new, next)
        ]
        | inr (d, at) ↦ omega (arith, h.given j m (ap number_of (sym at) ∙ e), fact.grows.0)
      ];
      unique = λ j k m a b. elim (place-cases s.pc i j q) [
        | inl (same, at) ↦ elim (place-cases s.pc i k q) [
          | inl (same', at') ↦ sym same ∙ same'
          | inr (d, at') ↦ absurd (
              number-apart n i k m s fact h d (ap number_of (sym at') ∙ b)
                (ap number_of (sym at) ∙ a))
        ]
        | inr (d, at) ↦ elim (place-cases s.pc i k q) [
          | inl (same, at') ↦ absurd (
              number-apart n i j m s fact h d (ap number_of (sym at) ∙ a)
                (ap number_of (sym at') ∙ b))
          | inr (d', at') ↦ h.unique j k m (ap number_of (sym at) ∙ a) (ap number_of (sym at') ∙ b)
        ]
      ];
      sound = λ j m e. elim (place-cases s.pc i j q) [
        | inl (same, at) ↦
            subst (λ o. Good up cfg o (tmp_in_files cfg m g)) (ap oid same)
              (fact.checked m (sym at ∙ e))
        | inr (d, at) ↦
            let was = sym at ∙ e in
            let owned : number_of (s.pc j) ≡ some m = ap number_of was in
            let (c, there, hash) = h.sound j m was in
            let kept =
              fact.others m (omega (arith, h.given j m owned, h.few, room))
                (λ e'. d (h.unique i j m e' owned)) (number-apart n i j m s fact h d owned) in
            (c, kept ∙ there, hash)
      ];
    }

    Inv-step :
        (n : ℕ) (s t : System) → suc n < u64_mod → Step up cfg oid s t → Inv n s → Inv (suc n) t
    Inv-step n s _ room (ask_slot i w o) h = Inv-ask n i s h
    Inv-step n s _ room (acquire i l w mine free) h = Inv-acquire n i l s h
    Inv-step n s _ room (proceed i {f = f} {k = k} {p = p} mv) h =
        Inv-proceed n i s f k p _ room
          (Facts-Move up cfg (oid i) (well i) (omega (arith, h.few, room))
            (λ m e. omega (arith, h.given i m e, h.few, room)) (h.sound i) mv)
          h
    Inv-step n s _ room (evict k v) h = Inv-evict n s k v h

    pub Inv-reach :
        (f : Files) (n : ℕ) (s : System)
        → AllGood f
        → n < u64_mod
        → Reach up cfg oid (quiet f) n s
        → Inv n s
    Inv-reach f _ s good room initial = Inv-quiet f good
    Inv-reach f _ s good room (after {n = n} {s = r} before last) =
        Inv-step n r s room last (Inv-reach f n r good (omega (arith, room)) before)
