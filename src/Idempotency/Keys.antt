-- ===== src/Idempotency/Keys.antt =====
-- backend/src/common/Idempotency/idempotency.guard.ts and
-- backend/src/common/interceptors/idempotency.interceptor.ts. The hash of the request's body, a
-- library's, is an argument, and so is the handler that the two stand around.
use bravi_ai.Data.{IdempotencyKey, Env}
use bravi_ai.Exec.{
  Exec, pure, reads, writes, throw, found, throw_if, catches, ◌>>=◌, ◌>>◌, bad_request, conflict,
  record_missing,
}
use bravi_ai.Store.{truthy}
use bravi_ai.Prelude.{
  ℕ, Bool, String, Option, some, none, ◌∷◌, str_eq, find_first, update_where, ltb, not, ◌*◌, false,
  ◌&&◌, if◌then◌else◌, true, ◌+◌,
}

abbrev pub key_by : String → IdempotencyKey → Bool
key_by key r = str_eq r.key key

-- 2 * 60 * 1000
abbrev pub processing_limit : ℕ
processing_limit = 2 * 60 * 1000

abbrev pub new_key : Env → String → String → IdempotencyKey
new_key env key hash = record {
  key = key;
  request_hash = hash;
  is_completed = false;
  created_at = env.now;
}

-- status === 'PROCESSING' && age > 2 minutes
abbrev pub is_stale : ℕ → IdempotencyKey → Bool
is_stale now r = not r.is_completed && ltb (r.created_at + processing_limit) now

abbrev pub check_record : Env → String → String → Option IdempotencyKey → Exec (Unit {0})
check_record env key hash none =
    writes λ s. record s { idempotency_keys = new_key env key hash ∷ s.idempotency_keys }
check_record env key hash (some r) = do
  throw_if (not (str_eq r.request_hash hash)) bad_request
  if is_stale env.now r then pure tt else throw conflict

abbrev pub check_key : Env → String → Option String → Exec (Unit {0})
check_key env hash none = pure tt
check_key env hash (some key) = do
  r ← reads λ s. find_first (key_by key) s.idempotency_keys
  check_record env key hash r

-- canActivate: returns, or throws.
unfoldable pub can_activate : Env → Option String → (hash : String) → Exec (Unit {0})
can_activate env key hash = check_key env hash (truthy key)

abbrev pub complete : IdempotencyKey → IdempotencyKey
complete r = record r { is_completed = true }

abbrev pub complete_key : Option String → Exec (Unit {0})
complete_key none = pure tt
complete_key (some key) = do
  old ← reads λ s. find_first (key_by key) s.idempotency_keys
  r ← found old record_missing
  writes λ s. record s { idempotency_keys = update_where (key_by key) complete s.idempotency_keys }

-- The `tap` of intercept, on success only; the response does not wait for it.
unfoldable pub finalize : Option String → Exec (Unit {0})
finalize key = catches (complete_key (truthy key)) (pure tt)

-- A request through the guard, its handler and the interceptor.
unfoldable pub handle_request {ℓ} :
    {A : Type ℓ} → Env → Option String → (hash : String) → Exec A → Exec A
handle_request env key hash handler = do
  can_activate env key hash
  a ← handler
  finalize key
  pure a
