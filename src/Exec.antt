-- ===== src/Exec.antt =====
-- Service methods: a state transformer over the shared world that returns or throws. A throw keeps
-- what was written before it, and a `$transaction` takes it back.
use bravi_ai.Prelude.{Bool, Option, none, some, ◌∷◌, if◌then◌else◌, ◌≡◌, refl, false, true}
use bravi_ai.Data.{World, Event}

-- The Nest exceptions that the services throw, and Prisma's refusals to update a missing row and
-- to repeat a unique value.
pub data Exception : Type 0 where
  not_found bad_request conflict forbidden record_missing not_unique send_error : Exception

pub data Result {ℓ} (A : Type ℓ) : Type ℓ where
  ok : A → Result A
  err : Exception → Result A

abbrev pub Exec {ℓ} : Type ℓ → Type ℓ
Exec A = World → Result A × World

abbrev pub pure {ℓ} : {A : Type ℓ} → A → Exec A
pure a s = (ok a, s)

abbrev pub throw {ℓ} : {A : Type ℓ} → Exception → Exec A
throw e s = (err e, s)

abbrev pub bind_result {ℓ κ} : {A : Type ℓ} {B : Type κ} → Result A → (A → Exec B) → Exec B
bind_result (ok a) f s = f a s
bind_result (err e) f s = (err e, s)

infixl 5 ◌>>=◌ ◌>>◌
abbrev pub ◌>>=◌ {ℓ κ} : {A : Type ℓ} {B : Type κ} → Exec A → (A → Exec B) → Exec B
◌>>=◌ m f s = bind_result (m s).0 f (m s).1

abbrev pub ◌>>◌ {ℓ} : {B : Type ℓ} → Exec (Unit {0}) → Exec B → Exec B
m >> k = m >>= λ _. k

-- A read of the database.
abbrev pub reads {ℓ} : {A : Type ℓ} → (World → A) → Exec A
reads f s = (ok (f s), s)

abbrev pub writes : (World → World) → Exec (Unit {0})
writes f s = (ok tt, f s)

-- `if (!x) throw e`
abbrev pub found {ℓ} : {A : Type ℓ} → Option A → Exception → Exec A
found none e = throw e
found (some a) e = pure a

-- `if (b) throw e`
abbrev pub throw_if : Bool → Exception → Exec (Unit {0})
throw_if b e = if b then throw e else pure tt

-- prisma.$transaction
abbrev pub commit_or_rollback {ℓ} : {A : Type ℓ} → World → Result A → World → World
commit_or_rollback before (ok a) after = after
commit_or_rollback before (err e) after = before

abbrev pub transaction {ℓ} : {A : Type ℓ} → Exec A → Exec A
transaction m s = ((m s).0, commit_or_rollback s (m s).0 (m s).1)

abbrev pub emit : Event → Exec (Unit {0})
emit e = writes λ s. record s { events = e ∷ s.events }

-- try { m } catch { handler }
abbrev pub catch_result {ℓ} : {A : Type ℓ} → Result A → Exec A → Exec A
catch_result (ok a) handler s = (ok a, s)
catch_result (err e) handler s = handler s

abbrev pub catches {ℓ} : {A : Type ℓ} → Exec A → Exec A → Exec A
catches m handler s = catch_result (m s).0 handler (m s).1

-- To show a property of a block that begins with a check, show it of the throw and of the rest.
module _ {ℓ κ υ} {A : Type ℓ} {B : Type κ} (Q : Result B × World → Type υ) (f : A → Exec B)
    (s : World) where
  pub found_rule :
      (o : Option A) (x : Exception)
      → Q (err x, s)
      → ((a : A) → o ≡ some a → Q (f a s))
      → Q ((found o x >>= f) s)
  found_rule none x q h = q
  found_rule (some a) x q h = h a refl

  pub bind_rule :
      (r : Result A × World)
      → ((e : Exception) → r.0 ≡ err e → Q (err e, r.1))
      → ((a : A) → r.0 ≡ ok a → Q (f a r.1))
      → Q (bind_result r.0 f r.1)
  bind_rule (ok a, t) q h = h a refl
  bind_rule (err e, t) q h = q e refl

module _ {κ υ} {B : Type κ} (Q : Result B × World → Type υ) (m : Exec B) (s : World) where
  pub throw_if_rule :
      (b : Bool) (x : Exception) → Q (err x, s) → (b ≡ false → Q (m s)) → Q ((throw_if b x >> m) s)
  throw_if_rule true x q h = q
  throw_if_rule false x q h = h refl
