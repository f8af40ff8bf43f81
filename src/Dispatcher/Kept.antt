-- ===== src/Dispatcher/Kept.antt =====
-- Each critical section of `lockEvent` in internal/core/services/dispatcher.go keeps what holds of the locks.
use eggy.Prelude.{
  ℕ, ◌+◌, ◌≡◌, ◌≢◌, inl, inr, refl, sym, ap, ◌∙◌, String, Bool, true, false, none, some, List, [],
  ◌∷◌, ◌++◌, ◌==◌, ==_iff, arith, str_eq, eq_iff, eq_refl, if◌then◌else◌, All, Bool-cases,
}
use eggy.Prelude.Dict.{get, put, get-put}
use eggy.Dispatcher.Locks.{Locks, Phase, waiting, Handling, set_lock, set_mu, LockState}
use eggy.Dispatcher.Counts.{
  is_handling, one_if, calls_for, handling_for, LocksInv, calls_for-append, handling_for-append,
  All-before, All-insert, All-map,
}

pub some_eq : (a b : ℕ) → some a ≡ some b → a ≡ b
some_eq a b h = ap (λ o. elim o [ none ↦ a | some n ↦ n ]) h

-- The locks of two identifiers differ.
pub apart_locks :
    (s : LockState) (a b : String) (n m : ℕ)
    → LocksInv s
    → get s.table.locks a ≡ some n
    → get s.table.locks b ≡ some m
    → str_eq a b ≡ false
    → (n == m) ≡ false
apart_locks s a b n m i first second differ = elim (Bool-cases (n == m)) [
  | inr apart ↦ apart
  | inl same ↦ absurd (
      ground (
        arith,
        differ,
        eq_iff a b,
        i.apart a b n first (second ∙ ap some (sym ((==_iff n m).0 same))),
      ))
]

pub calls_for-insert :
    (id : String) (l m : List Handling) (c : Handling)
    → calls_for id (l ++ c ∷ m) ≡ (if str_eq c.id id then 1 else 0) + calls_for id (l ++ m)
unfolding calls_for
calls_for-insert id l m c = omega (arith, calls_for-append id l (c ∷ m), calls_for-append id l m)

pub handling_for-insert :
    (id : String) (l m : List Handling) (c : Handling)
    → handling_for id (l ++ c ∷ m)
      ≡ (if str_eq c.id id then is_handling c.phase else 0) + handling_for id (l ++ m)
unfolding handling_for
handling_for-insert id l m c =
    omega (arith, handling_for-append id l (c ∷ m), handling_for-append id l m)

-- A call more for an identifier whose lock is in the map.
pub known-LocksInv :
    (s : LockState) (id : String) (n : ℕ)
    → LocksInv s
    → get s.table.locks id ≡ some n
    → LocksInv (record {
      table = record (s.table) {
        heap =
            set_lock s.table.heap n
              (record (s.table.heap n) { references = (s.table.heap n).references + 1 });
      };
      calls = record { id = id; lock = n; phase = waiting } ∷ s.calls;
    })
unfolding calls_for handling_for
known-LocksInv s id n i known = record {
  held = (known, i.held);
  fits = λ other m found. elim (Bool-cases (str_eq id other)) [
    | inl same ↦
        let equal : n ≡ m =
          some_eq n m
            (sym known ∙ (ap (λ k. get s.table.locks k) ((eq_iff id other).0 same) ∙ found)) in
        let f = i.fits other m found in
        let hit : (n == m) ≡ true = (==_iff n m).1 equal in
        let there = ap (λ k. s.table.heap k) equal in
        record {
          made = f.made;
          counted = ground (arith, hit, same, f.counted, there);
          needed = ground (arith, hit);
          locked = ground (arith, hit, same, f.locked, there);
        }
    | inr differ ↦
        let f = i.fits other m found in
        let apart = apart_locks s id other n m i known found differ in
        record {
          made = f.made;
          counted = ground (arith, apart, differ, f.counted);
          needed = ground (arith, apart, f.needed);
          locked = ground (arith, apart, differ, f.locked);
        }
  ];
  apart = i.apart;
}

-- No call is for an identifier whose lock is not in the map.
pub unknown_calls :
    (s : LockState) (id : String) (l : List Handling)
    → get s.table.locks id ≡ none
    → All (λ c. get s.table.locks c.id ≡ some c.lock) l
    → (calls_for id l ≡ 0) × (handling_for id l ≡ 0)
unfolding calls_for handling_for
unknown_calls s id [] unknown h = (refl, refl)
unknown_calls s id (c ∷ l) unknown h = elim (Bool-cases (str_eq c.id id)) [
  | inl same ↦
      absurd (ground (arith, unknown, h.0, ap (λ k. get s.table.locks k) ((eq_iff c.id id).0 same)))
  | inr differ ↦ let rest = unknown_calls s id l unknown h.1 in ground (arith, differ, rest)
]

kept_known :
    (s : LockState) (id : String) (n : ℕ) (c : Handling)
    → get s.table.locks id ≡ none
    → get s.table.locks c.id ≡ some c.lock
    → get (put s.table.locks id n) c.id ≡ some c.lock
kept_known s id n c unknown known = elim (Bool-cases (str_eq id c.id)) [
  | inl same ↦
      absurd
        (ground (arith, unknown, known, ap (λ k. get s.table.locks k) ((eq_iff id c.id).0 same)))
  | inr differ ↦ get-put s.table.locks id n c.id ∙ rw differ known
]

-- The first call for an identifier.
pub made-LocksInv :
    (s : LockState) (id : String)
    → LocksInv s
    → get s.table.locks id ≡ none
    → LocksInv (record {
      table = record {
        locks = put s.table.locks id s.table.fresh;
        heap = set_lock s.table.heap s.table.fresh (record { mu = false; references = 1 });
        fresh = s.table.fresh + 1;
      };
      calls = record { id = id; lock = s.table.fresh; phase = waiting } ∷ s.calls;
    })
unfolding calls_for handling_for
made-LocksInv s id i unknown = record {
  held = (
    get-put s.table.locks id s.table.fresh id ∙ rw (eq_refl id) refl,
    All-map _ _ s.calls (λ c h. kept_known s id s.table.fresh c unknown h) i.held,
  );
  fits = λ other m found. elim (Bool-cases (str_eq id other)) [
    | inl same ↦
        let equal : s.table.fresh ≡ m = some_eq s.table.fresh m (sym (looked other same) ∙ found) in
        let hit : (s.table.fresh == m) ≡ true = (==_iff s.table.fresh m).1 equal in
        let none_yet = unknown_calls s id s.calls unknown i.held in
        let there = ap (λ k. calls_for k s.calls) ((eq_iff id other).0 same) in
        let there' = ap (λ k. handling_for k s.calls) ((eq_iff id other).0 same) in
        record {
          made = omega (arith, equal);
          counted = ground (arith, hit, same, none_yet, there);
          needed = ground (arith, hit);
          locked = ground (arith, hit, same, none_yet, there');
        }
    | inr differ ↦
        let f = i.fits other m (before other m differ found) in
        let apart : (s.table.fresh == m) ≡ false = ground (arith, f.made, ==_iff s.table.fresh m) in
        record {
          made = omega (arith, f.made);
          counted = ground (arith, apart, differ, f.counted);
          needed = ground (arith, apart, f.needed);
          locked = ground (arith, apart, differ, f.locked);
        }
  ];
  apart = λ a b n first second. elim (Bool-cases (str_eq id a)) [
    | inl same ↦ elim (Bool-cases (str_eq id b)) [
      | inl same' ↦ sym ((eq_iff id a).0 same) ∙ (eq_iff id b).0 same'
      | inr differ ↦
          absurd (fresh_only b n differ second (some_eq _ _ (sym (looked a same) ∙ first)))
    ]
    | inr differ ↦ elim (Bool-cases (str_eq id b)) [
      | inl same ↦ absurd (fresh_only a n differ first (some_eq _ _ (sym (looked b same) ∙ second)))
      | inr differ' ↦ i.apart a b n (before a n differ first) (before b n differ' second)
    ]
  ];
}
  where
    looked :
        (other : String)
        → str_eq id other ≡ true
        → get (put s.table.locks id s.table.fresh) other ≡ some s.table.fresh
    looked other same = get-put s.table.locks id s.table.fresh other ∙ rw same refl

    before :
        (other : String) (m : ℕ)
        → str_eq id other ≡ false
        → get (put s.table.locks id s.table.fresh) other ≡ some m
        → get s.table.locks other ≡ some m
    before other m differ found =
        sym (get-put s.table.locks id s.table.fresh other ∙ rw differ refl) ∙ found

    fresh_only :
        (other : String) (n : ℕ)
        → str_eq id other ≡ false
        → get (put s.table.locks id s.table.fresh) other ≡ some n
        → s.table.fresh ≢ n
    fresh_only other n differ found equal =
        omega (arith, equal, (i.fits other n (before other n differ found)).made)

-- A call for an identifier that has been there, which changes its phase and with it the mutex.
pub moved-LocksInv :
    (table : Locks) (before after : List Handling) (id : String) (n : ℕ) (from to : Phase)
    (locked : Bool)
    → (one_if (table.heap n).mu + is_handling to ≡ one_if locked + is_handling from)
    → LocksInv (record {
      table = table;
      calls = before ++ record { id = id; lock = n; phase = from } ∷ after;
    })
    → LocksInv (record {
      table = set_mu table n locked;
      calls = before ++ record { id = id; lock = n; phase = to } ∷ after;
    })
unfolding set_mu
moved-LocksInv table before after id n from to locked turned i = record {
  held = All-insert _ before after moved here.0 here.1;
  fits = λ other m found. elim (Bool-cases (str_eq id other)) [
    | inl same ↦
        let f = i.fits other m found in
        let equal : n ≡ m =
          some_eq n m
            (sym here.0 ∙ (ap (λ k. get table.locks k) ((eq_iff id other).0 same) ∙ found)) in
        let hit : (n == m) ≡ true = (==_iff n m).1 equal in
        let there = ap (λ k. table.heap k) equal in
        record {
          made = f.made;
          counted = ground (
            arith,
            hit,
            same,
            f.counted,
            there,
            calls_for-insert other before after was,
            calls_for-insert other before after moved,
          );
          needed = ground (arith, hit, f.needed, there);
          locked = ground (
            arith,
            hit,
            same,
            f.locked,
            turned,
            there,
            handling_for-insert other before after was,
            handling_for-insert other before after moved,
          );
        }
    | inr differ ↦
        let f = i.fits other m found in
        let apart = apart_locks _ id other n m i here.0 found differ in
        record {
          made = f.made;
          counted = ground (
            arith,
            apart,
            differ,
            f.counted,
            calls_for-insert other before after was,
            calls_for-insert other before after moved,
          );
          needed = ground (arith, apart, f.needed);
          locked = ground (
            arith,
            apart,
            differ,
            f.locked,
            handling_for-insert other before after was,
            handling_for-insert other before after moved,
          );
        }
  ];
  apart = i.apart;
}
  where
    was : Handling
    was = record { id = id; lock = n; phase = from }

    moved : Handling
    moved = record { id = id; lock = n; phase = to }

    here :
        (get table.locks id ≡ some n)
        × All (λ c. get table.locks c.id ≡ some c.lock) (before ++ after)
    here = All-before (λ c. get table.locks c.id ≡ some c.lock) before after was i.held
