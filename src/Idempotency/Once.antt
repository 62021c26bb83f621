-- ===== src/Idempotency/Once.antt =====
-- How often a request of one key is handled.
use bravi_ai.Idempotency.Keys.{
  key_by, can_activate, finalize, handle_request, new_key, complete, processing_limit,
}
use bravi_ai.Data.{IdempotencyKey, Env, World}
use bravi_ai.Exec.{Exec, ok, err, conflict, bad_request, Exception}
use bravi_ai.Prelude.{
  ◌≡◌, String, some, none, ◌∷◌, find_first, str_eq, false, true, if◌then◌else◌, ltb, ◌+◌, refl,
  arith, List, eq_iff, update_where, find_first-update_where, ◌∙◌,
}

-- A handler that does not touch the keys.
abbrev pub LeavesKeys {ℓ} : {A : Type ℓ} → Exec A → Type 0
LeavesKeys handler = (s : World) → (handler s).1.idempotency_keys ≡ s.idempotency_keys

-- The world that the handler sees when its key is new.
abbrev pub entered : Env → String → String → World → World
entered env key hash s = record s { idempotency_keys = new_key env key hash ∷ s.idempotency_keys }

find_new :
    (env : Env) (key hash : String) (rows : List IdempotencyKey)
    → find_first (key_by key) (new_key env key hash ∷ rows) ≡ some (new_key env key hash)
unfolding find_first
find_new env key hash rows = rw ((eq_iff key key).1 refl) refl

find_completed :
    (env : Env) (key hash : String) (rows : List IdempotencyKey)
    → find_first (key_by key) (update_where (key_by key) complete (new_key env key hash ∷ rows))
      ≡ some (complete (new_key env key hash))
find_completed env key hash rows =
    rw
      (
        find_first-update_where (key_by key) (key_by key) complete (λ a. refl)
            (new_key env key hash ∷ rows),
        find_new env key hash rows,
        (eq_iff key key).1 refl,
      )
      refl

-- What the guard answers to a key that has a record.
can_activate-known :
    (env : Env) (key hash : String) (r : IdempotencyKey) (s : World)
    → str_eq key "" ≡ false
    → find_first (key_by key) s.idempotency_keys ≡ some r
    → can_activate env (some key) hash s ≡ (
      if str_eq r.request_hash hash
          then (if r.is_completed
              then err conflict
              else if ltb (r.created_at + processing_limit) env.now
              then ok tt
              else err conflict)
          else err bad_request,
      s,
    )
unfolding can_activate
can_activate-known env key hash r s n h = ground arith

can_activate-new :
    (env : Env) (key hash : String) (s : World)
    → str_eq key "" ≡ false
    → find_first (key_by key) s.idempotency_keys ≡ none
    → can_activate env (some key) hash s ≡ (ok tt, entered env key hash s)
unfolding can_activate
can_activate-new env key hash s n h = ground arith

finalize-known :
    (key : String) (r : IdempotencyKey) (s : World)
    → str_eq key "" ≡ false
    → find_first (key_by key) s.idempotency_keys ≡ some r
    → finalize (some key) s ≡ (
      ok tt,
      record s { idempotency_keys = update_where (key_by key) complete s.idempotency_keys },
    )
unfolding finalize
finalize-known key r s n h = ground arith

-- The answer to a later request under the key, by whether its body has the same hash.
abbrev pub refusal : String → String → Exception
refusal hash other = if str_eq hash other then conflict else bad_request

module _ {ℓ} {A : Type ℓ} (env : Env) (key hash : String) (s : World) (n : str_eq key "" ≡ false)
    (h : find_first (key_by key) s.idempotency_keys ≡ none) (handler : Exec A)
    (l : LeavesKeys handler) where
  keys-success :
      (a : A)
      → (handler (entered env key hash s)).0 ≡ ok a
      → (handle_request env (some key) hash handler s).0 ≡ ok a
        × (find_first (key_by key) (handle_request env (some key) hash handler s).1.idempotency_keys
            ≡ some (complete (new_key env key hash)))
  unfolding handle_request
  keys-success a p =
      let t = (handler (entered env key hash s)).1 in
      let same : t.idempotency_keys ≡ new_key env key hash ∷ s.idempotency_keys =
        l (entered env key hash s) in
      let known : find_first (key_by key) t.idempotency_keys ≡ some (new_key env key hash) =
        rw same (find_new env key hash s.idempotency_keys) in
      rw
        (
          can_activate-new env key hash s n h,
          p,
          finalize-known key (new_key env key hash) t n known,
        )
        (refl, rw same (find_completed env key hash s.idempotency_keys))

  keys-failure :
      (e : Exception)
      → (handler (entered env key hash s)).0 ≡ err e
      → (handle_request env (some key) hash handler s).0 ≡ err e
        × (find_first (key_by key) (handle_request env (some key) hash handler s).1.idempotency_keys
            ≡ some (new_key env key hash))
  unfolding handle_request
  keys-failure e p =
      rw (can_activate-new env key hash s n h, p)
        (refl, rw (l (entered env key hash s)) (find_new env key hash s.idempotency_keys))

can_activate-completed :
    (env : Env) (key other : String) (r : IdempotencyKey) (s : World)
    → str_eq key "" ≡ false
    → find_first (key_by key) s.idempotency_keys ≡ some r
    → r.is_completed ≡ true
    → can_activate env (some key) other s ≡ (err (refusal r.request_hash other), s)
unfolding can_activate
can_activate-completed env key other r s n h c = ground arith

refused {ℓ} :
    {A : Type ℓ} (env : Env) (key hash : String) (handler : Exec A) (s : World) (x : Exception)
    → can_activate env (some key) hash s ≡ (err x, s)
    → handle_request env (some key) hash handler s ≡ (err x, s)
unfolding handle_request
refused env key hash handler s x p = rw p refl

-- A request with a new key whose handler succeeds is answered by the handler, and in the world that it
-- leaves any request under the key is refused without a run of its handler and without any write: as
-- a conflict if its body has the same hash, as a bad request if not. The first handler leaves the
-- table of keys alone.
pub handled_once {ℓ κ} :
    {A : Type ℓ} {B : Type κ} (env : Env) (key hash : String) (s : World) (handler : Exec A) (a : A)
    → str_eq key "" ≡ false
    → find_first (key_by key) s.idempotency_keys ≡ none
    → LeavesKeys handler
    → (handler (entered env key hash s)).0 ≡ ok a
    → (later : Env) (other : String) (second : Exec B)
    → let (r, t) = handle_request env (some key) hash handler s in
      (r ≡ ok a) × (handle_request later (some key) other second t ≡ (err (refusal hash other), t))
handled_once env key hash s handler a n h l p later other second =
    let t = (handle_request env (some key) hash handler s).1 in
    let (r, k) = keys-success env key hash s n h handler l a p in
    (
      r,
      refused later key other second t (refusal hash other)
          (can_activate-completed later key other (complete (new_key env key hash)) t n k refl),
    )

-- If the handler of a new key fails, the key stays in progress: in the world that this leaves the
-- guard refuses a request under it with the same hash as a conflict for two minutes, and after them
-- lets it through with nothing written, so that any number of them are. The handler leaves the table
-- of keys alone.
pub failed_key_reopens {ℓ} :
    {A : Type ℓ} (env : Env) (key hash : String) (s : World) (handler : Exec A) (e : Exception)
    → str_eq key "" ≡ false
    → find_first (key_by key) s.idempotency_keys ≡ none
    → LeavesKeys handler
    → (handler (entered env key hash s)).0 ≡ err e
    → (later : Env)
    → let (r, t) = handle_request env (some key) hash handler s in
      (r ≡ err e)
      × (can_activate later (some key) hash t
          ≡ (if ltb (env.now + processing_limit) later.now then ok tt else err conflict, t))
failed_key_reopens env key hash s handler e n h l p later =
    let t = (handle_request env (some key) hash handler s).1 in
    let (r, k) = keys-failure env key hash s n h handler l e p in
    (
      r,
      can_activate-known later key hash (new_key env key hash) t n k
          ∙ (rw ((eq_iff hash hash).1 refl) refl),
    )
