-- ===== src/Assembly/Steps.antt =====
-- Calls of collaborators in a row, on a world that they change: Go's early returns on an error.
use eggy.Prelude.Result.{Error, Result, ok, err}

abbrev pub M : Type 0 → Type 0 → Type 0
M W A = W → Result A × W

abbrev pub after : {W A B : Type 0} → Result A × W → (A → M W B) → Result B × W
after (err e, w) f = (err e, w)
after (ok a, w) f = f a w

infixl 5 ◌>>=◌ ◌>>◌
unfoldable pub ◌>>=◌ : {W A B : Type 0} → M W A → (A → M W B) → M W B
◌>>=◌ m f w = after (m w) f

abbrev pub ◌>>◌ : {W B : Type 0} → M W (Unit {0}) → M W B → M W B
m >> k = m >>= λ _. k

unfoldable pub done : {W A : Type 0} → A → M W A
done a w = (ok a, w)

unfoldable pub fails : {W A : Type 0} → Error → M W A
fails e w = (err e, w)

-- A call whose error is looked at later.
unfoldable pub try_call : {W A : Type 0} → M W A → M W (Result A)
try_call m w = let (r, w') = m w in (ok r, w')

-- A call that has no error.
unfoldable pub always : {W A : Type 0} → (W → A × W) → M W A
always f w = let (a, w') = f w in (ok a, w')
