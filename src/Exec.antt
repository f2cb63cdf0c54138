-- ===== src/Exec.antt =====
-- Code that may fail and that changes a state: what was written before an error stays written, so
-- the state comes back beside the error too.
use volumecrypt_kit.Prelude.{◌≡◌}
use volumecrypt_kit.Error.{VckError, VckResult, ok, err}

abbrev pub Exec : Type 0 → Type 0 → Type 0
Exec S A = S → VckResult A × S

abbrev pub pure : {S A : Type 0} → A → Exec S A
pure a s = (ok a, s)

abbrev pub raise : {S A : Type 0} → VckError → Exec S A
raise e s = (err e, s)

abbrev pub lift : {S A : Type 0} → VckResult A → Exec S A
lift r s = (r, s)

abbrev pub continue : {S A B : Type 0} → VckResult A → (A → Exec S B) → Exec S B
continue (ok a) f s = f a s
continue (err e) f s = (err e, s)

infixl 5 ◌>>=◌ ◌>>◌
abbrev pub ◌>>=◌ : {S A B : Type 0} → Exec S A → (A → Exec S B) → Exec S B
◌>>=◌ m f s = let (r, s') = m s in continue r f s'

abbrev pub ◌>>◌ : {S B : Type 0} → Exec S (Unit {0}) → Exec S B → Exec S B
m >> k = m >>= λ _. k

-- An action that succeeds goes on with what it returns.
pub succeeds-bind :
    {S A B : Type 0} (m : Exec S A) (f : A → Exec S B) (s : S) (a : A)
    → (m s).0 ≡ ok a
    → ((b : B) × ((f a (m s).1).0 ≡ ok b))
    → (b : B) × (((m >>= f) s).0 ≡ ok b)
succeeds-bind m f s a good rest = (rest.0, rw good rest.1)
