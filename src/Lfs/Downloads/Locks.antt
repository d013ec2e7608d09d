-- ===== src/Lfs/Downloads/Locks.antt =====
-- The locks of src/lfs.rs (lines 132 to 134 and 279 to 286): one for each object, from the map `slots`.
use git_cache_proxy.Base.{
  ℕ, Bytes, bytes_eq, bytes_eq_iff, bytes_eq_refl, List, Bool, true, false, Option, none, some,
  ◌==◌, ◌≡◌, ◌≢◌, ◌⊎◌, refl, sym, ap, ◌∙◌, arith, inl, inr, Bool-cases, Option-cases,
}
use git_cache_proxy.Lfs.{LfsConfig, Upstream}
use git_cache_proxy.Lfs.Downloads.{
  Files, Pc, waiting, locked, holds, System, place, slot_at, or_insert, get_slot, ask, give_up,
  Move, hit, hit_locked, cancelled, no_action, number, no_answer, create, append, broken, torn,
  flush, unreadable, wrong_hash, dropped, right_hash, not_moved, rename, Step, ask_slot, acquire,
  proceed, evict, Reach, initial, after, quiet,
}

-- An entry is the one that was placed, with its new value, or another, with its old one.
pub place-cases {ℓ} :
    {A : Type ℓ}
    → (f : ℕ → A) (i j : ℕ) (p : A)
    → ((i ≡ j) × (place f i p j ≡ p)) ⊎ ((i ≢ j) × (place f i p j ≡ f j))
place-cases f i j p = elim (Bool-cases (i == j)) [
  | inl e ↦ inl (ground (arith, e), rw e refl)
  | inr e ↦ inr (ground (arith, e), rw e refl)
]

-- A call takes its lock before it moves: no move of it takes one.
Move-holds :
    (up : Upstream) (cfg : LfsConfig) (oid : Bytes) {f g : Files} {k l : ℕ} {p q : Pc}
    → Move up cfg oid f k p g l q
    → holds q ≡ true
    → holds p ≡ true
Move-holds up cfg oid (hit e) h = absurd (cc h)
Move-holds up cfg oid (hit_locked e) h = refl
Move-holds up cfg oid cancelled h = absurd (cc h)
Move-holds up cfg oid no_action h = refl
Move-holds up cfg oid number h = refl
Move-holds up cfg oid no_answer h = refl
Move-holds up cfg oid create h = refl
Move-holds up cfg oid (append chunk e) h = refl
Move-holds up cfg oid broken h = refl
Move-holds up cfg oid (torn left) h = refl
Move-holds up cfg oid flush h = refl
Move-holds up cfg oid unreadable h = refl
Move-holds up cfg oid (wrong_hash e d) h = refl
Move-holds up cfg oid (dropped b) h = refl
Move-holds up cfg oid (right_hash e d) h = refl
Move-holds up cfg oid not_moved h = refl
Move-holds up cfg oid (rename e) h = refl

-- What the map has for an object once a call got its lock, and what it had before.
pub record Asked (oid : Bytes) (old : List (Bytes × ℕ)) (n : ℕ) (l : ℕ) (new : List (Bytes × ℕ))
    : Type 0 where
  pub mine : slot_at oid new ≡ some l
  pub kept : (o : Bytes) (m : ℕ) → slot_at o old ≡ some m → slot_at o new ≡ some m

get_slot-Asked :
    (oid : Bytes) (slots : List (Bytes × ℕ)) (n : ℕ)
    → let r = get_slot oid slots n in Asked oid slots n r.0 r.1
unfolding get_slot or_insert slot_at
get_slot-Asked oid slots n = elim (Option-cases (slot_at oid slots)) [
  | inl e ↦ rw e (record {
    mine = rw (bytes_eq_refl oid) refl;
    kept = λ o m there. elim (Bool-cases (bytes_eq oid o)) [
      | inl same ↦
          let equal : oid ≡ o = (bytes_eq_iff oid o).0 same in absurd (cc (e, there, equal))
      | inr d ↦ rw d there
    ];
  })
  | inr (l, e) ↦ rw e (record { mine = e; kept = λ o m there. there })
]

module _ (oid : ℕ → Bytes) where
  -- The lock that a call got is the lock of its object in the map; a call that holds a lock got one; it
  -- is taken then; and by one call.
  pub record Locks (s : System) : Type 0 where
    pub slotted : (i l : ℕ) → s.got i ≡ some l → slot_at (oid i) s.slots ≡ some l
    pub owned : (i : ℕ) → holds (s.pc i) ≡ true → (l : ℕ) × (s.got i ≡ some l)
    pub taken : (i l : ℕ) → s.got i ≡ some l → holds (s.pc i) ≡ true → s.held l ≡ true
    pub alone :
        (i j l : ℕ)
        → s.got i ≡ some l
        → s.got j ≡ some l
        → holds (s.pc i) ≡ true
        → holds (s.pc j) ≡ true
        → i ≡ j

  Locks-quiet : (f : Files) → Locks (quiet f)
  Locks-quiet f = record {
    slotted = λ i l e. absurd (cc e);
    owned = λ i e. absurd (cc e);
    taken = λ i l e. absurd (cc e);
    alone = λ i j l e. absurd (cc e);
  }

  -- A call that waits holds nothing, so what it got can change.
  got-other :
      (s : System) (i j : ℕ) (o : Option ℕ)
      → s.pc i ≡ waiting
      → holds (s.pc j) ≡ true
      → place s.got i o j ≡ s.got j
  got-other s i j o w h = elim (place-cases s.got i j o) [
    | inl (same, at) ↦
        let idle : holds (s.pc j) ≡ false = ap holds (ap s.pc (sym same) ∙ w) in
        absurd (cc (idle, h))
    | inr (d, at) ↦ at
  ]

  Locks-ask : (s : System) (i : ℕ) → s.pc i ≡ waiting → Locks s → Locks (ask oid i s)
  unfolding ask
  Locks-ask s i w h =
      let r = get_slot (oid i) s.slots s.locks in
      let a = get_slot-Asked (oid i) s.slots s.locks in
      record {
        slotted = λ j l e. elim (place-cases s.got i j (some r.0)) [
          | inl (same, at) ↦ ap (λ k. slot_at (oid k) r.1) (sym same) ∙ (a.mine ∙ (sym at ∙ e))
          | inr (d, at) ↦ a.kept (oid j) l (h.slotted j l (sym at ∙ e))
        ];
        owned = λ j e. let (l, is) = h.owned j e in (l, got-other s i j (some r.0) w e ∙ is);
        taken = λ j l e on. h.taken j l (sym (got-other s i j (some r.0) w on) ∙ e) on;
        alone = λ j k l e e' on on'.
            h.alone j k l (sym (got-other s i j (some r.0) w on) ∙ e)
              (sym (got-other s i k (some r.0) w on') ∙ e') on on';
      }

  Locks-acquire :
      (s : System) (i l : ℕ)
      → s.got i ≡ some l
      → s.held l ≡ false
      → Locks s
      → Locks (record s { held = place s.held l true; pc = place s.pc i locked })
  Locks-acquire s i l mine free h = record {
    slotted = h.slotted;
    owned = λ j e. elim (place-cases s.pc i j locked) [
      | inl (same, at) ↦ (l, ap s.got (sym same) ∙ mine)
      | inr (d, at) ↦ h.owned j (ap holds (sym at) ∙ e)
    ];
    taken = λ j m e on. elim (place-cases s.held l m true) [
      | inl (same, at) ↦ at
      | inr (d, at) ↦ elim (place-cases s.pc i j locked) [
        | inl (same, at') ↦ absurd (d (ground (arith, sym mine ∙ (ap s.got same ∙ e))))
        | inr (d', at') ↦ at ∙ h.taken j m e (ap holds (sym at') ∙ on)
      ]
    ];
    alone = λ j k m e e' on on'. elim (place-cases s.pc i j locked) [
      | inl (same, at) ↦ elim (place-cases s.pc i k locked) [
        | inl (same', at') ↦ sym same ∙ same'
        | inr (d, at') ↦
            let both = h.taken k m e' (ap holds (sym at') ∙ on') in
            let lock : l ≡ m = ground (arith, sym mine ∙ (ap s.got same ∙ e)) in
            absurd (cc (both, free, lock))
      ]
      | inr (d, at) ↦ elim (place-cases s.pc i k locked) [
        | inl (same', at') ↦
            let both = h.taken j m e (ap holds (sym at) ∙ on) in
            let lock : l ≡ m = ground (arith, sym mine ∙ (ap s.got same' ∙ e')) in
            absurd (cc (both, free, lock))
        | inr (d', at') ↦ h.alone j k m e e' (ap holds (sym at) ∙ on) (ap holds (sym at') ∙ on')
      ]
    ];
  }

  -- A lock is given up only by a call that held it.
  give_up-kept :
      (b c : Bool) (o : Option ℕ) (held : ℕ → Bool) (l : ℕ)
      → held l ≡ true
      → (c ≡ true) ⊎ ((b ≡ true → o ≢ some l))
      → give_up b c o held l ≡ true
  unfolding give_up
  give_up-kept true true o held l e h = e
  give_up-kept true false none held l e h = e
  give_up-kept false c o held l e h = e
  give_up-kept true false (some m) held l e h = elim (place-cases held m l false) [
    | inl (same, at) ↦ elim h [ inl is ↦ absurd (cc is) | inr d ↦ absurd (d refl (ap some same)) ]
    | inr (d, at) ↦ at ∙ e
  ]

  Locks-proceed :
      (s : System) (i : ℕ) (g : Files) (k : ℕ) (q : Pc)
      → (holds q ≡ true → holds (s.pc i) ≡ true)
      → Locks s
      → Locks (record s {
        files = g;
        counter = k;
        held = give_up (holds (s.pc i)) (holds q) (s.got i) s.held;
        pc = place s.pc i q;
      })
  Locks-proceed s i g k q back h =
      let was : (j : ℕ) → holds (place s.pc i q j) ≡ true → holds (s.pc j) ≡ true = λ j on.
        elim (place-cases s.pc i j q) [
          | inl (same, at) ↦ ap (λ x. holds (s.pc x)) (sym same) ∙ back (ap holds (sym at) ∙ on)
          | inr (d, at) ↦ ap holds (sym at) ∙ on
        ] in
      record {
        slotted = h.slotted;
        owned = λ j on. h.owned j (was j on);
        taken = λ j l e on.
            give_up-kept (holds (s.pc i)) (holds q) (s.got i) s.held l (h.taken j l e (was j on))
              (elim (place-cases s.pc i j q) [
                | inl (same, at) ↦ inl (ap holds (sym at) ∙ on)
                | inr (d, at) ↦ inr (λ on' e'. d (h.alone i j l e' e on' (was j on)))
              ]);
        alone = λ j m l e e' on on'. h.alone j m l e e' (was j on) (was m on');
      }

  module _ (up : Upstream) (cfg : LfsConfig) where
    Locks-step : (s t : System) → Step up cfg oid s t → Locks s → Locks t
    Locks-step s _ (ask_slot i w o) h = Locks-ask s i w h
    Locks-step s _ (acquire i l w mine free) h = Locks-acquire s i l mine free h
    Locks-step s _ (proceed i {f = f} {k = k} {p = p} mv) h =
        Locks-proceed s i f k p (Move-holds up cfg (oid i) mv) h
    Locks-step s _ (evict k v) h = record {
      slotted = h.slotted;
      owned = h.owned;
      taken = h.taken;
      alone = h.alone;
    }

    pub Locks-reach : (f : Files) (n : ℕ) (s : System) → Reach up cfg oid (quiet f) n s → Locks s
    Locks-reach f _ s initial = Locks-quiet f
    Locks-reach f _ s (after {n = n} {s = r} before last) =
        Locks-step r s last (Locks-reach f n r before)
