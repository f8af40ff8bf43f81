-- ===== src/Assembly/Turn.antt =====
-- Who hears of a turn of internal/core/turns/run.go, and of the turns that follow it.
use eggy.Prelude.{
  ℕ, ◌≤◌, ◌<◌, ◌≡◌, ◌⊎◌, inl, inr, ap, Bool, true, false, Option, none, some, List, [], ◌∷◌, arith,
  if◌then◌else◌,
}
use eggy.Prelude.Result.{Error, Result, ok, err, Result-cases}
use eggy.Text.{is_empty}
use eggy.Context.{Destination}
use eggy.Message.{Message}
use eggy.Loop.{Allowlist}
use eggy.Assembly.{Policy}
use eggy.Assembly.Parts.{merge_steered}
use eggy.Assembly.Steps.{M, after, ◌>>=◌, ◌>>◌, done, fails, always}
use eggy.Assembly.Service.{Collaborators, Passed, joined, answered}
use eggy.Assembly.Pass.{
  own_turn, releasing, join_turn, run_pass, follow_up, Ran, failed, taken, ended, followed,
}
use eggy.Assembly.Told.{Grows, Tells, Grows-bind, Grows-if, Grows-done, Grows-fails}
use eggy.Assembly.Laws.{Laws}
use eggy.Assembly.Heard.{MaySilence}
use eggy.Assembly.Owner.{Told-own_turn}

module _ {W : Type 0} (told : W → ℕ) (c : Collaborators W) (l : Laws told c) (policy : Policy)
    (dest : Destination) where
  -- What is known of a pass that reports no error, by how it ended.
  abbrev After : Passed → ℕ → W → Type 0
  After joined before w = before ≤ told w
  After (answered steered) before w = MaySilence policy ⊎ (before < told w)

  record Hears (m : M W Passed) : Type 0 where
    kept : Grows told m
    hears : (w : W) (a : Passed) → (m w).0 ≡ ok a → After a (told w) (m w).1

  ok_eq : (a b : Passed) → ok a ≡ ok b → a ≡ b
  ok_eq a b h = ap (λ r. elim r [ ok x ↦ x | err _ ↦ a ]) h

  After-le : (a : Passed) (n k : ℕ) (w : W) → n ≤ k → After a k w → After a n w
  After-le joined n k w le h = omega (arith, le, h)
  After-le (answered steered) n k w le (inl silent) = inl silent
  After-le (answered steered) n k w le (inr more) = inr (omega (arith, le, more))

  after-Hears :
      {A : Type 0} (p : Result A × W) (f : A → M W Passed) (b : Passed)
      → ((a : A) → Hears (f a))
      → (after p f).0 ≡ ok b
      → After b (told p.1) (after p f).1
  after-Hears (err e, w) f b rest h = absurd (ground (arith, h))
  after-Hears (ok a, w) f b rest h = (rest a).hears w b h

  Hears-rest :
      {A : Type 0} (m : M W A) (f : A → M W Passed)
      → Grows told m
      → ((a : A) → Hears (f a))
      → Hears (m >>= f)
  unfolding ◌>>=◌
  Hears-rest m f first rest = record {
    kept = Grows-bind told m f first (λ a. (rest a).kept);
    hears = λ w b h.
        After-le b (told w) (told (m w).1) _ (first.grows w) (after-Hears (m w) f b rest h);
  }

  Hears-if : (b : Bool) (m n : M W Passed) → Hears m → Hears n → Hears (if b then m else n)
  Hears-if true m n first second = first
  Hears-if false m n first second = second

  Hears-joined : Hears (done joined)
  unfolding done
  Hears-joined = record {
    kept = Grows-done told joined;
    hears = λ w a h. After-done a w (ok_eq _ _ h);
  }
    where
      After-done : (a : Passed) (w : W) → joined ≡ a → After a (told w) w
      After-done joined w h = omega arith
      After-done (answered steered) w h = absurd (ground (arith, h))

  Hears-fails : (e : Error) → Hears (fails e)
  unfolding fails
  Hears-fails e = record { kept = Grows-fails told e; hears = λ w a h. absurd (ground (arith, h)) }

  Hears-releasing :
      (m : M W (List Message))
      → Tells told (MaySilence policy) m
      → Hears (releasing c policy dest m)
  unfolding releasing always
  Hears-releasing m t = record {
    kept = record { grows = λ w. omega (arith, t.kept.grows w, l.release.grows (m w).1) };
    hears = λ w a h. elim (Result-cases ((m w).0)) [
      | inr (e, bad) ↦ absurd (ground (arith, bad, h))
      | inl (steered, fine) ↦ ended_by a w steered fine (ground (arith, fine, h))
    ];
  }
    where
      ended_by :
          (a : Passed) (w : W) (steered : List Message)
          → (m w).0 ≡ ok steered
          → answered steered ≡ a
          → After a (told w) (c.release (m w).1).1
      ended_by joined w steered fine h = absurd (ground (arith, h))
      ended_by (answered other) w steered fine h = elim (t.tells w steered fine) [
        | inl silent ↦ inl silent
        | inr more ↦ inr (omega (arith, more, l.release.grows (m w).1))
      ]

  Hears-join_turn : (input : Message) → Hears (join_turn c policy dest input)
  unfolding join_turn
  Hears-join_turn input =
      Hears-if policy.input_already_recorded _ _ Hears-joined
        (Hears-rest _ _ (l.record_message _ _ _) λ _. Hears-joined)

  -- A command's output is delivered.
  Hears-output : (output : List ℕ) → Hears (c.deliver output >> done (answered []))
  unfolding ◌>>=◌ done
  Hears-output output = record {
    kept = Grows-bind told _ _ (l.deliver output).kept (λ _. Grows-done told (answered []));
    hears = λ w a h. elim (Result-cases ((c.deliver output w).0)) [
      | inr (e, bad) ↦ absurd (ground (arith, bad, h))
      | inl (_, fine) ↦
          let more = (l.deliver output).shown w fine in
          rw fine (After-answered a w _ (ok_eq _ _ (rw fine at h)) more)
    ];
  }
    where
      After-answered :
          (a : Passed) (w w' : W) → answered [] ≡ a → told w < told w' → After a (told w) w'
      After-answered joined w w' h more = absurd (ground (arith, h))
      After-answered (answered steered) w w' h more = inr more

  Hears-handled :
      (input : Message) (allowed : Allowlist) (handled : Option (Result (List ℕ)))
      → Hears (elim handled [
        | some (err e) ↦ fails e
        | some (ok output) ↦ c.deliver output >> done (answered [])
        | none ↦ c.admit input policy.record_conversation >>= λ owns.
            if owns
            then releasing c policy dest (own_turn c policy dest input allowed)
            else join_turn c policy dest input
      ])
  Hears-handled input allowed (some (err e)) = Hears-fails e
  Hears-handled input allowed (some (ok output)) = Hears-output output
  Hears-handled input allowed none =
      Hears-rest _ _ (l.admit input policy.record_conversation) λ owns.
        Hears-if owns _ _
          (Hears-releasing (own_turn c policy dest input allowed)
            (Told-own_turn told c l policy dest input allowed))
          (Hears-join_turn input)

  Hears-run_pass :
      (input : Message) (allowed : Allowlist) → Hears (run_pass c policy dest input allowed)
  unfolding run_pass
  Hears-run_pass input allowed =
      Hears-rest _ _
        (Grows-if told (is_empty input.parts) _ _ (l.execute input.content) (Grows-done told none))
        λ handled. Hears-handled input allowed handled

module _ {W : Type 0} (told : W → ℕ) (c : Collaborators W) (l : Laws told c) (dest : Destination)
    (allowed : Allowlist) where
  -- The worlds before and after a pass, whose outcome is known.
  pass_kept :
      (policy : Policy) (input : Message) (w w' : W) (r : Result Passed)
      → run_pass c policy dest input allowed w ≡ (r, w')
      → told w ≤ told w'
  pass_kept policy input w w' r h =
      let kept = (Hears-run_pass told c l policy dest input allowed).kept.grows w in
      omega (arith, kept, ap (λ p. told p.1) h)

  Ran-kept :
      (policy : Policy) (input : Message) (w w' : W) (r : Result (Unit {0}))
      → Ran c dest allowed policy input w r w'
      → told w ≤ told w'
  Ran-kept policy input w w' r (failed _ _ _ _ e h) = pass_kept policy input w w' _ h
  Ran-kept policy input w w' r (taken _ _ _ _ h) = pass_kept policy input w w' _ h
  Ran-kept policy input w w' r (ended _ _ _ _ h) = pass_kept policy input w w' _ h
  Ran-kept policy input w w' r (followed _ _ first steered _ w'' _ _ h rest) = omega (
    arith,
    pass_kept policy input w w'' _ h,
    Ran-kept (follow_up policy) (merge_steered (first ∷ steered)) w'' w' r rest,
  )

  heard_of :
      (policy : Policy) (input : Message) (w w' : W) (steered : List Message)
      → run_pass c policy dest input allowed w ≡ (ok (answered steered), w')
      → (policy.suppress_silent_reply ≡ true) ⊎ (told w < told w')
  heard_of policy input w w' steered h =
      elim ((Hears-run_pass told c l policy dest input allowed).hears w (answered steered)
        (ap (λ p. p.0) h)) [
          | inl silent ↦ inl silent
          | inr more ↦ inr (omega (arith, more, ap (λ p. told p.1) h))
        ]

  -- When `run` reports no error, however many turns of messages that were never read followed, the owner
  -- was shown something more, provided that every call of the collaborators keeps what was shown and
  -- each delivery without an error shows something; or the policy is a heartbeat's, which may be silent;
  -- or another turn took the message.
  pub run-heard :
      (policy : Policy) (input : Message) (w w' : W)
      → Ran c dest allowed policy input w (ok tt) w'
      → (told w < told w')
        ⊎ ((policy.suppress_silent_reply ≡ true)
            ⊎ ((run_pass c policy dest input allowed w).0 ≡ ok joined))
  run-heard policy input w w' (taken _ _ _ _ h) = inr (inr (ap (λ p. p.0) h))
  run-heard policy input w w' (ended _ _ _ _ h) = elim (heard_of policy input w w' [] h) [
    | inl silent ↦ inr (inl silent)
    | inr more ↦ inl more
  ]
  run-heard policy input w w' (followed _ _ first steered _ w'' _ _ h rest) =
      elim (heard_of policy input w w'' (first ∷ steered) h) [
        | inl silent ↦ inr (inl silent)
        | inr more ↦ inl (
            omega (
              arith,
              more,
              Ran-kept (follow_up policy) (merge_steered (first ∷ steered)) w'' w' _ rest,
            ))
      ]
