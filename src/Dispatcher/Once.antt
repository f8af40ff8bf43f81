-- ===== src/Dispatcher/Once.antt =====
-- An event of internal/core/services/dispatcher.go is handled once.
use eggy.Prelude.{
  ℕ, String, Bool, true, not, ◌||◌, ◌≡◌, ◌∙◌, sym, ap, refl, Option, [], ◌∷◌, ◌++◌, str_eq, eq_iff,
  eq_refl, arith, Bool-cases, Option-cases, inl, inr,
}
use eggy.Prelude.Dict.{get, get-put}
use eggy.Prelude.Result.{ok, Result-cases}
use eggy.Context.{account_of}
use eggy.Store.{State, Db, Call, load, load_state, update, acting_account}
use eggy.Store.Laws.{Committed-state, update_ok}
use eggy.Dispatcher.{
  Event, Handler, Desk, swept, recorded, is_seen, as_owner_of, settle, run_handler, handle,
}

-- The store lists the event for its owner.
abbrev pub IsSeen : Event → Desk → Type 0
IsSeen event w = is_seen (get (load_state w.db event.owner).processed_events event.id) ≡ true

acting-owner :
    (event : Event) (call : Call) (account : String)
    → acting_account (as_owner_of event call) ≡ ok account
    → account ≡ event.owner
unfolding acting_account account_of as_owner_of
acting-owner event call account h = ground (arith, h)

load-owner :
    (db : Db) (event : Event) (call : Call) (state : State)
    → load db (as_owner_of event call) ≡ ok state
    → state ≡ load_state db event.owner
unfolding load
load-owner db event call state h = elim (Result-cases (acting_account (as_owner_of event call))) [
  | inr (e, refused) ↦ absurd (ground (arith, refused, h))
  | inl (account, by) ↦ ground (arith, by, h, acting-owner event call account by)
]

recorded-IsSeen :
    (id : String) (now : ℕ) (s t : State) (a : Unit {0})
    → recorded id now s ≡ ok (t, a)
    → is_seen (get t.processed_events id) ≡ true
unfolding recorded
recorded-IsSeen id now s t a h =
    ground (arith, h, get-put (swept now s.processed_events) id now id, eq_refl id)

update-IsSeen :
    (db : Db) (event : Event) (call : Call) (version now : ℕ) (state : State) (a : Unit {0})
    → (update db (as_owner_of event call) version (recorded event.id now)).0 ≡ ok (state, a)
    → is_seen (
        get
          (load_state
            (update db (as_owner_of event call) version (recorded event.id now)).1
            event.owner).processed_events
          event.id)
      ≡ true
update-IsSeen db event call version now state a h =
    let c = update_ok db (as_owner_of event call) version (recorded event.id now) h in
    let mine = acting-owner event call c.account c.by in
    let stored = Committed-state c event.owner in
    let listed = recorded-IsSeen event.id now (load_state db c.account) c.changed a c.mutated in
    ground (arith, stored, mine, listed, eq_iff c.account event.owner)

settle-IsSeen :
    (second third : Call) (now : ℕ) (event : Event) (w : Desk)
    → (settle second third now event w).0 ≡ ok tt
    → IsSeen event (settle second third now event w).1
unfolding settle
settle-IsSeen second third now event w done =
    elim (Result-cases (load w.db (as_owner_of event second))) [
      | inr (e, refused) ↦ absurd (ground (arith, refused, done))
      | inl (state, loaded) ↦ elim (Bool-cases (is_seen (get state.processed_events event.id))) [
        | inl seen ↦
            rw (settle, loaded, seen)
              (ap (λ x. is_seen (get x.processed_events event.id))
                  (sym (load-owner w.db event second state loaded))
                ∙ seen)
        | inr fresh ↦
            elim (Result-cases
              (update w.db (as_owner_of event third) state.version (recorded event.id now)).0) [
                | inr (e, refused) ↦ absurd (ground (arith, refused, loaded, fresh, done))
                | inl ((t, a), wrote) ↦
                    rw (settle, loaded, fresh)
                      (update-IsSeen w.db event third state.version now t a wrote)
              ]
      ]
    ]

run_handler-IsSeen :
    (handler : Handler) (second third : Call) (now : ℕ) (event : Event) (w : Desk)
    → (run_handler handler second third now event w).0 ≡ ok tt
    → IsSeen event (run_handler handler second third now event w).1
unfolding run_handler
run_handler-IsSeen handler second third now event w done =
    let w' : Desk = record { db = (handler event w.db).1; ran = w.ran ++ event.id ∷ [] } in
    elim (Result-cases ((handler event w.db).0)) [
      | inr (e, refused) ↦ absurd (ground (arith, refused, done))
      | inl (a, handled) ↦
          rw (run_handler, handled)
            (settle-IsSeen second third now event w' (rw (run_handler, handled) at done))
    ]

module _ (accounts : String → Bool) (handlers : String → Option Handler) where
  -- When `Handle` reports no error, the store lists the event for its owner.
  pub handle-IsSeen :
      (first second third : Call) (now : ℕ) (event : Event) (w : Desk)
      → (handle accounts handlers first second third now event w).0 ≡ ok tt
      → IsSeen event (handle accounts handlers first second third now event w).1
  unfolding handle
  handle-IsSeen first second third now event w done =
      elim (Bool-cases (str_eq event.owner "" || not (accounts event.owner))) [
        | inl stranger ↦ absurd (ground (arith, stranger, done))
        | inr known ↦ elim (Result-cases (load w.db (as_owner_of event first))) [
          | inr (e, refused) ↦ absurd (ground (arith, refused, known, done))
          | inl (state, loaded) ↦
              elim (Bool-cases (is_seen (get state.processed_events event.id))) [
                | inl seen ↦
                    rw (handle, known, loaded, seen)
                      (ap (λ x. is_seen (get x.processed_events event.id))
                          (sym (load-owner w.db event first state loaded))
                        ∙ seen)
                | inr fresh ↦ elim (Option-cases (handlers event.kind)) [
                  | inl unknown ↦ absurd (ground (arith, unknown, known, loaded, fresh, done))
                  | inr (handler, found) ↦
                      rw (handle, known, loaded, fresh, found)
                        (run_handler-IsSeen handler second third now event w
                          (rw (handle, known, loaded, fresh, found) at done))
                ]
              ]
        ]
      ]

  -- An event that the store lists for its owner reaches no handler.
  seen-unhandled :
      (first second third : Call) (now : ℕ) (event : Event) (w : Desk)
      → IsSeen event w
      → (handle accounts handlers first second third now event w).1 ≡ w
  unfolding handle
  seen-unhandled first second third now event w listed =
      elim (Bool-cases (str_eq event.owner "" || not (accounts event.owner))) [
        | inl stranger ↦ ground (arith, stranger)
        | inr known ↦ elim (Result-cases (load w.db (as_owner_of event first))) [
          | inr (e, refused) ↦ rw (handle, known, refused) refl
          | inl (state, loaded) ↦
              let seen : is_seen (get state.processed_events event.id) ≡ true =
                ap (λ x. is_seen (get x.processed_events event.id))
                  (load-owner w.db event first state loaded)
                ∙ listed in
              rw (handle, known, loaded, seen) refl
        ]
      ]

  -- After `Handle` reported no error for an event, handling it again runs no handler and writes
  -- nothing, whatever the database answers, on any later state that lists the owner's processed
  -- events as they were left.
  pub handled_once :
      (first second third first' second' third' : Call) (now now' : ℕ) (event : Event)
      (w later : Desk)
      → (handle accounts handlers first second third now event w).0 ≡ ok tt
      → get (load_state later.db event.owner).processed_events event.id
        ≡ get
            (load_state
              (handle accounts handlers first second third now event w).1.db
              event.owner).processed_events
            event.id
      → (handle accounts handlers first' second' third' now' event later).1 ≡ later
  handled_once first second third first' second' third' now now' event w later done same =
      seen-unhandled first' second' third' now' event later
        (ap is_seen same ∙ handle-IsSeen first second third now event w done)
