-- ===== src/Dispatcher/Alone.antt =====
-- What the locks of internal/core/services/dispatcher.go are for, in every reachable state.
use eggy.Prelude.{
  ℕ, ◌+◌, ◌-◌, ◌≤◌, ◌≡◌, ◌↔◌, inl, inr, refl, sym, ap, ◌∙◌, String, true, false, none, some, List,
  [], ◌∷◌, ◌++◌, ◌==◌, ==_iff, arith, str_eq, eq_iff, eq_refl, All, Bool-cases, Option-cases,
}
use eggy.Prelude.Dict.{get, remove, get-remove}
use eggy.Dispatcher.Locks.{
  Locks, waiting, handling, unlocked, Handling, refer_lock, drop_lock, LockState, LockReach,
  no_locks, refers, locks_mu, unlocks_mu, drops,
}
use eggy.Dispatcher.Counts.{one_if, calls_for, handling_for, Fits, LocksInv, All-before}
use eggy.Dispatcher.Kept.{
  some_eq, apart_locks, calls_for-insert, handling_for-insert, unknown_calls, known-LocksInv,
  made-LocksInv, moved-LocksInv,
}

refer_lock-LocksInv :
    (s : LockState) (id : String)
    → LocksInv s
    → LocksInv (record {
      table = (refer_lock s.table id).1;
      calls = record { id = id; lock = (refer_lock s.table id).0; phase = waiting } ∷ s.calls;
    })
unfolding refer_lock
refer_lock-LocksInv s id i = elim (Option-cases (get s.table.locks id)) [
  | inl unknown ↦ rw (refer_lock, unknown) (made-LocksInv s id i unknown)
  | inr (n, known) ↦ rw (refer_lock, known) (known-LocksInv s id n i known)
]

-- The calls that are left when none is for the identifier keep their locks.
removed_held :
    (table : Locks) (id : String) (l : List Handling)
    → calls_for id l ≡ 0
    → All (λ c. get table.locks c.id ≡ some c.lock) l
    → All (λ c. get (remove table.locks id) c.id ≡ some c.lock) l
unfolding calls_for
removed_held table id [] none_for h = tt
removed_held table id (c ∷ l) none_for h =
    let differ : str_eq id c.id ≡ false =
      ground (arith, none_for, eq_iff id c.id, eq_iff c.id id) in
    (
      get-remove table.locks id c.id ∙ rw differ h.0,
      removed_held table id l (ground (arith, none_for)) h.1,
    )

module _ (table : Locks) (before after : List Handling) (id : String) (n : ℕ)
    (i : LocksInv (record {
      table = table;
      calls = before ++ record { id = id; lock = n; phase = unlocked } ∷ after;
    })) where
  abbrev was : Handling
  was = record { id = id; lock = n; phase = unlocked }

  here :
      (get table.locks id ≡ some n)
      × All (λ c. get table.locks c.id ≡ some c.lock) (before ++ after)
  here = All-before (λ c. get table.locks c.id ≡ some c.lock) before after was i.held

  -- What is left of an identifier's own count, and of the locks of the others.
  own_left : (table.heap n).references ≡ 1 + calls_for id (before ++ after)
  own_left =
      ground (arith, (i.fits id n here.0).counted, calls_for-insert id before after was, eq_refl id)

  other_Fits :
      (t : Locks) (other : String) (m : ℕ)
      → str_eq id other ≡ false
      → get table.locks other ≡ some m
      → t.heap m ≡ table.heap m
      → t.fresh ≡ table.fresh
      → Fits t (before ++ after) other m
  other_Fits t other m differ found there fresh =
      let f = i.fits other m found in
      record {
        made = omega (arith, f.made, fresh);
        counted = ground (arith, f.counted, there, differ, calls_for-insert other before after was);
        needed = ground (arith, f.needed, there);
        locked =
            ground (arith, f.locked, there, differ, handling_for-insert other before after was);
      }

  drop_last :
      ((table.heap n).references - 1 == 0) ≡ true
      → LocksInv (record { table = drop_lock table id n; calls = before ++ after })
  unfolding drop_lock
  drop_last last =
      rw (drop_lock, last)
        (record {
          held = removed_held table id (before ++ after) (ground (arith, last, own_left)) here.1;
          fits = λ other m found.
              let (differ, was_there) = kept other m found in
              let apart = apart_locks _ id other n m i here.0 was_there differ in
              other_Fits _ other m differ was_there (rw apart refl) refl;
          apart = λ a b m first second. i.apart a b m (kept a m first).1 (kept b m second).1;
        })
    where
      kept :
          (other : String) (m : ℕ)
          → get (remove table.locks id) other ≡ some m
          → (str_eq id other ≡ false) × (get table.locks other ≡ some m)
      kept other m found = elim (Bool-cases (str_eq id other)) [
        | inl same ↦ absurd (ground (arith, found, same, get-remove table.locks id other))
        | inr differ ↦ (differ, sym (get-remove table.locks id other ∙ rw differ refl) ∙ found)
      ]

  drop_more :
      ((table.heap n).references - 1 == 0) ≡ false
      → LocksInv (record { table = drop_lock table id n; calls = before ++ after })
  unfolding drop_lock
  drop_more more =
      rw (drop_lock, more)
        (record {
          held = here.1;
          fits = λ other m found. elim (Bool-cases (str_eq id other)) [
            | inr differ ↦
                let apart = apart_locks _ id other n m i here.0 found differ in
                other_Fits _ other m differ found (rw apart refl) refl
            | inl same ↦
                let f = i.fits other m found in
                let equal : n ≡ m =
                  some_eq n m (
                    sym here.0
                    ∙ (ap (λ k. get table.locks k) ((eq_iff id other).0 same) ∙ found)) in
                let hit : (n == m) ≡ true = (==_iff n m).1 equal in
                let there = ap (λ k. table.heap k) equal in
                let mine = ap (λ k. calls_for k (before ++ after)) ((eq_iff id other).0 same) in
                record {
                  made = f.made;
                  counted = ground (arith, hit, own_left, mine);
                  needed = ground (arith, hit, more);
                  locked = ground (
                    arith,
                    hit,
                    same,
                    f.locked,
                    there,
                    handling_for-insert other before after was,
                  );
                }
          ];
          apart = i.apart;
        })

  dropped-LocksInv : LocksInv (record { table = drop_lock table id n; calls = before ++ after })
  dropped-LocksInv = elim (Bool-cases ((table.heap n).references - 1 == 0)) [
    | inl last ↦ drop_last last
    | inr more ↦ drop_more more
  ]

-- A call that handles its event has locked the mutex.
handling_locked :
    (table : Locks) (before after : List Handling) (id : String) (n : ℕ)
    → LocksInv (record {
      table = table;
      calls = before ++ record { id = id; lock = n; phase = handling } ∷ after;
    })
    → one_if (table.heap n).mu + 0 ≡ 0 + 1
handling_locked table before after id n i =
    let was : Handling = record { id = id; lock = n; phase = handling } in
    let here = All-before (λ c. get table.locks c.id ≡ some c.lock) before after was i.held in
    ground (arith, (i.fits id n here.0).locked, handling_for-insert id before after was, eq_refl id)

LockReach-LocksInv : (s : LockState) → LockReach s → LocksInv s
unfolding get
LockReach-LocksInv s (no_locks heap) = record {
  held = tt;
  fits = λ id n found. absurd (ground (arith, found));
  apart = λ a b n first second. absurd (ground (arith, first));
}
LockReach-LocksInv s (refers t id r) = refer_lock-LocksInv t id (LockReach-LocksInv t r)
LockReach-LocksInv s (locks_mu table before after id n free r) =
    moved-LocksInv table before after id n waiting handling true (ground (arith, free))
      (LockReach-LocksInv _ r)
LockReach-LocksInv s (unlocks_mu table before after id n r) =
    let i = LockReach-LocksInv _ r in
    moved-LocksInv table before after id n handling unlocked false
      (handling_locked table before after id n i) i
LockReach-LocksInv s (drops table before after id n r) =
    dropped-LocksInv table before after id n (LockReach-LocksInv _ r)

-- In every state that calls of `Handle` can bring about, at most one call for an identifier is between
-- the locking and the unlocking of its mutex, and so between the checks, the handler and the record of
-- the event; and the map has a lock for an identifier exactly when some call for it is under way.
pub handled_alone :
    (s : LockState) (id : String)
    → LockReach s
    → (handling_for id s.calls ≤ 1) × ((get s.table.locks id ≡ none) ↔ (calls_for id s.calls ≡ 0))
handled_alone s id r = elim (Option-cases (get s.table.locks id)) [
  | inl unknown ↦
      let none_for = unknown_calls s id s.calls unknown i.held in
      (omega (arith, none_for), ((λ _. none_for.0), (λ _. unknown)))
  | inr (n, known) ↦
      let f = i.fits id n known in
      (
        ground (arith, f.locked),
        (
          (λ unknown. absurd (ground (arith, unknown, known))),
          (λ none_for. absurd (ground (arith, none_for, f.counted, f.needed))),
        ),
      )
]
  where
    i : LocksInv s
    i = LockReach-LocksInv s r
