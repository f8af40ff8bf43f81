-- ===== src/Assembly/Told.antt =====
-- Who hears of a turn of internal/core/turns/run.go that reports no error.
use eggy.Prelude.{ℕ, ◌≤◌, ◌<◌, ◌≡◌, ◌⊎◌, inl, inr, refl, Bool, true, false, if◌then◌else◌, arith}
use eggy.Prelude.Result.{Error, Result, ok, err}
use eggy.Assembly.Steps.{M, after, ◌>>=◌, done, fails, try_call}

-- `told` counts what the owner was shown. A call that keeps or grows it, and one that moreover grows it unless
-- it fails or `Silence` holds.
module _ {W : Type 0} (told : W → ℕ) where
  pub record Grows {A : Type 0} (m : M W A) : Type 0 where
    pub grows : (w : W) → told w ≤ told (m w).1

  pub record Tells (Silence : Type 0) {A : Type 0} (m : M W A) : Type 0 where
    pub kept : Grows m
    pub tells : (w : W) (a : A) → (m w).0 ≡ ok a → Silence ⊎ (told w < told (m w).1)

  after-grows :
      {A B : Type 0} (p : Result A × W) (f : A → M W B)
      → ((a : A) → Grows (f a))
      → told p.1 ≤ told (after p f).1
  after-grows (err e, w) f rest = omega arith
  after-grows (ok a, w) f rest = (rest a).grows w

  after-Tells :
      (Silence : Type 0) {A B : Type 0} (p : Result A × W) (f : A → M W B) (b : B)
      → ((a : A) → Tells Silence (f a))
      → (after p f).0 ≡ ok b
      → Silence ⊎ (told p.1 < told (after p f).1)
  after-Tells Silence (err e, w) f b rest h = absurd (ground (arith, h))
  after-Tells Silence (ok a, w) f b rest h = (rest a).tells w b h

  after-ok :
      {A B : Type 0} (p : Result A × W) (f : A → M W B) (b : B)
      → (after p f).0 ≡ ok b
      → (a : A) × (p.0 ≡ ok a)
  after-ok (err e, w) f b h = absurd (ground (arith, h))
  after-ok (ok a, w) f b h = (a, refl)

  pub Grows-bind :
      {A B : Type 0} (m : M W A) (f : A → M W B)
      → Grows m
      → ((a : A) → Grows (f a))
      → Grows (m >>= f)
  unfolding ◌>>=◌
  Grows-bind m f first rest = record {
    grows = λ w. omega (arith, first.grows w, after-grows (m w) f rest);
  }

  -- What follows a call tells, or the call itself does.
  pub Tells-rest :
      (Silence : Type 0) {A B : Type 0} (m : M W A) (f : A → M W B)
      → Grows m
      → ((a : A) → Tells Silence (f a))
      → Tells Silence (m >>= f)
  unfolding ◌>>=◌
  Tells-rest Silence m f first rest = record {
    kept = Grows-bind m f first (λ a. (rest a).kept);
    tells = λ w b h. elim (after-Tells Silence (m w) f b rest h) [
      | inl silent ↦ inl silent
      | inr more ↦ inr (omega (arith, more, first.grows w))
    ];
  }

  pub Tells-first :
      (Silence : Type 0) {A B : Type 0} (m : M W A) (f : A → M W B)
      → Tells Silence m
      → ((a : A) → Grows (f a))
      → Tells Silence (m >>= f)
  unfolding ◌>>=◌
  Tells-first Silence m f first rest = record {
    kept = Grows-bind m f first.kept rest;
    tells = λ w b h.
        let (a, fine) = after-ok (m w) f b h in
        elim (first.tells w a fine) [
          | inl silent ↦ inl silent
          | inr more ↦ inr (omega (arith, more, after-grows (m w) f rest))
        ];
  }

  pub Grows-done : {A : Type 0} (a : A) → Grows (done a)
  unfolding done
  Grows-done a = record { grows = λ w. omega arith }

  pub Grows-fails : {A : Type 0} (e : Error) → Grows {A = A} (fails e)
  unfolding fails
  Grows-fails e = record { grows = λ w. omega arith }

  pub Grows-try_call : {A : Type 0} (m : M W A) → Grows m → Grows (try_call m)
  unfolding try_call
  Grows-try_call m g = record { grows = λ w. g.grows w }

  pub Tells-fails : (Silence : Type 0) {A : Type 0} (e : Error) → Tells Silence {A = A} (fails e)
  unfolding fails
  Tells-fails Silence e = record {
    kept = Grows-fails e;
    tells = λ w a h. absurd (ground (arith, h));
  }

  pub Grows-if :
      {A : Type 0} (b : Bool) (m n : M W A) → Grows m → Grows n → Grows (if b then m else n)
  Grows-if true m n yes_grows no_grows = yes_grows
  Grows-if false m n yes_grows no_grows = no_grows

  pub Tells-if :
      (Silence : Type 0) {A : Type 0} (b : Bool) (m n : M W A)
      → Tells Silence m
      → Tells Silence n
      → Tells Silence (if b then m else n)
  Tells-if Silence true m n yes_tells no_tells = yes_tells
  Tells-if Silence false m n yes_tells no_tells = no_tells

  pub Tells-either :
      (Silence : Type 0) {A : Type 0} (b : Bool) (m n : M W A)
      → (b ≡ true → Tells Silence m)
      → (b ≡ false → Tells Silence n)
      → Tells Silence (if b then m else n)
  Tells-either Silence true m n yes_tells no_tells = yes_tells refl
  Tells-either Silence false m n yes_tells no_tells = no_tells refl
