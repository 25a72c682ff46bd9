-- ===== src/State/StoreSync.antt =====
-- packages/state/src/agent-store-sync.ts: the backend that createInMemoryBcsBackend makes, and
-- AgentStoreSync.update on it. Values are only passed on. Every await is a point at which other
-- clients call the backend.
pub mod Fresh
pub mod Current
mod Devices
use open_claw_bot.Common.{
  ℕ, ◌+◌, Bool, true, false, not, ◌&&◌, Option, none, some, List, [], ◌∷◌, ◌++◌, if◌then◌else◌,
  ◌==◌, leb, ltb,
}
use open_claw_bot.Common.Texts.{Text, units, text_eq}
use open_claw_bot.Common.Decimal.{decimal}
use open_claw_bot.Common.Maps.{Dict, get, set, delete}

pub record BcsResource (V : Type 0) : Type 0 where
  pub etag : Text
  pub value : V

pub record BcsLock : Type 0 where
  pub owner_id : Text
  pub expires_at : ℕ

pub record BcsBackend (V : Type 0) : Type 0 where
  pub resources : Dict Text (BcsResource V)
  pub locks : Dict Text BcsLock
  pub etag_counter : ℕ

-- `ownerId` of a lock that is refused is the holder's.
pub record LockResult : Type 0 where
  pub locked : Bool
  pub owner_id : Option Text

abbrev pub owner_of : Option BcsLock → Option Text
owner_of none = none
owner_of (some l) = some l.owner_id

pub record PutResult : Type 0 where
  pub etag : Text
  pub conflict : Bool

unfoldable pub etag_text : ℕ → Text
etag_text n = units "etag-" ++ decimal n

-- `===` on an etag or null.
abbrev pub is_etag : Text → Option Text → Bool
is_etag etag none = false
is_etag etag (some expected) = etag == expected

abbrev pub expired : Option BcsLock → ℕ → Bool
expired none now = false
expired (some l) now = leb l.expires_at now

abbrev pub lock_held : Option BcsLock → ℕ → Bool
lock_held none now = false
lock_held (some l) now = ltb now l.expires_at

abbrev pub owned : Option BcsLock → Text → Bool
owned none owner_id = false
owned (some l) owner_id = l.owner_id == owner_id

module _ {V : Type 0} where
  unfoldable pub create_in_memory_bcs_backend : BcsBackend V
  create_in_memory_bcs_backend = record { resources = []; locks = []; etag_counter = 0 }

  -- `get` drops a lock that has expired.
  unfoldable pub swept : Text → ℕ → BcsBackend V → BcsBackend V
  swept id now b =
      if expired (get b.locks id) now then record b { locks = delete b.locks id } else b

  unfoldable pub with_resource : Text → V → BcsBackend V → BcsBackend V
  unfolding etag_text
  with_resource id value b = record b {
    resources =
        set b.resources id (record { etag = etag_text (b.etag_counter + 1); value = value });
    etag_counter = b.etag_counter + 1;
  }

  unfoldable pub put_on :
      Option (BcsResource V) → Text → V → Option Text → BcsBackend V → PutResult × BcsBackend V
  unfolding with_resource
  put_on none id value none b =
      (record { etag = etag_text (b.etag_counter + 1); conflict = false }, with_resource id value b)
  put_on none id value (some expected) b = (record { etag = expected; conflict = true }, b)
  put_on (some current) id value expected b =
      if is_etag current.etag expected
      then (
        record { etag = etag_text (b.etag_counter + 1); conflict = false },
        with_resource id value b,
      )
      else (record { etag = current.etag; conflict = true }, b)

  unfoldable pub put_resource : Text → V → Option Text → BcsBackend V → PutResult × BcsBackend V
  unfolding put_on
  put_resource id value expected b = put_on (get b.resources id) id value expected b

  unfoldable pub lock_on :
      Option BcsLock → Text → Text → ℕ → ℕ → BcsBackend V → LockResult × BcsBackend V
  lock_on current id owner_id ttl_ms now b =
      if lock_held current now
      then (record { locked = false; owner_id = owner_of current }, b)
      else (
        record { locked = true; owner_id = none },
        record b {
          locks = set b.locks id (record { owner_id = owner_id; expires_at = now + ttl_ms });
        },
      )

  unfoldable pub lock : Text → Text → ℕ → ℕ → BcsBackend V → LockResult × BcsBackend V
  unfolding lock_on
  lock id owner_id ttl_ms now b = lock_on (get b.locks id) id owner_id ttl_ms now b

  unfoldable pub unlock : Text → Text → BcsBackend V → BcsBackend V
  unlock id owner_id b =
      if owned (get b.locks id) owner_id then record b { locks = delete b.locks id } else b

-- `withLock` returns what the task gives, a value or an error, or throws BcsLockHeldError with the
-- holder.
pub data Locked (A : Type 0) : Type 0 where
  task_ended : A → Locked A
  lock_held_error : (owner_id : Option Text) → Locked A

module _ {V A : Type 0} where
  -- Behind `lock`: the task, which may call the backend as other clients may meanwhile, and `unlock`.
  unfoldable pub locked_task :
      Text
      → Text
      → (BcsBackend V → A × BcsBackend V)
      → LockResult × BcsBackend V
      → Locked A × BcsBackend V
  unfolding unlock
  locked_task id owner_id task (result, b) =
      let ended = task b in
      if result.locked
      then (task_ended ended.0, unlock id owner_id ended.1)
      else (lock_held_error result.owner_id, b)

  unfoldable pub with_lock :
      Text
      → Text
      → ℕ
      → ℕ
      → (BcsBackend V → A × BcsBackend V)
      → BcsBackend V
      → Locked A × BcsBackend V
  unfolding locked_task lock
  with_lock id owner_id lock_ttl_ms now task b =
      locked_task id owner_id task (lock id owner_id lock_ttl_ms now b)

-- What clients call.
pub data BcsCall (V : Type 0) : Type 0 where
  gets : (id : Text) (now : ℕ) → BcsCall V
  puts : (id : Text) (value : V) (expected : Option Text) → BcsCall V
  locks_for : (id owner_id : Text) (ttl_ms now : ℕ) → BcsCall V
  unlocks : (id owner_id : Text) → BcsCall V

-- `update` returns, or throws BcsConflictError.
pub data Updated (V : Type 0) : Type 0 where
  updated : (etag : Text) (value : V) (conflicts_resolved : ℕ) → Updated V
  bcs_conflict : Updated V

-- What the other clients do behind each of the four awaits that another await follows, and the times
-- of the reads.
pub record Meanwhile (V : Type 0) : Type 0 where
  pub before_put : List (BcsCall V)
  pub before_reread : List (BcsCall V)
  pub before_retry : List (BcsCall V)
  pub read_at : ℕ
  pub reread_at : ℕ

module _ {V : Type 0} where
  unfoldable pub bcs_call : BcsCall V → BcsBackend V → BcsBackend V
  unfolding swept put_resource lock unlock
  bcs_call (gets id now) b = swept id now b
  bcs_call (puts id value expected) b = (put_resource id value expected b).1
  bcs_call (locks_for id owner_id ttl_ms now) b = (lock id owner_id ttl_ms now b).1
  bcs_call (unlocks id owner_id) b = unlock id owner_id b

  unfoldable pub bcs_calls : List (BcsCall V) → BcsBackend V → BcsBackend V
  unfolding bcs_call
  bcs_calls [] b = b
  bcs_calls (c ∷ cs) b = bcs_calls cs (bcs_call c b)

  -- `current?.value ?? null` and `current?.etag ?? null`.
  abbrev pub resource_value : V → Option (BcsResource V) → V
  resource_value null none = null
  resource_value null (some r) = r.value

  abbrev pub etag_of : Option (BcsResource V) → Option Text
  etag_of none = none
  etag_of (some r) = some r.etag

  abbrev pub current : V → Text → BcsBackend V → V
  current null id b = resource_value null (get b.resources id)

  -- The second write.
  unfoldable pub retried : Text → V → PutResult × BcsBackend V → Updated V × BcsBackend V
  retried id merged (result, b) =
      if result.conflict then (bcs_conflict, b) else (updated result.etag merged 1, b)

  -- Behind a conflict.
  unfoldable pub resolve :
      V → (V → V → V) → Text → V → Meanwhile V → BcsBackend V → Updated V × BcsBackend V
  unfolding swept bcs_calls put_resource retried
  resolve null merge id local m b =
      let read = bcs_calls m.before_reread b in
      let remote = get read.resources id in
      let merged = merge (resource_value null remote) local in
      retried id merged (
        put_resource id merged (etag_of remote)
          (bcs_calls m.before_retry (swept id m.reread_at read)))

  unfoldable pub first_put :
      V → (V → V → V) → Text → V → Meanwhile V → PutResult × BcsBackend V → Updated V × BcsBackend V
  unfolding resolve
  first_put null merge id local m (result, b) =
      let later = resolve null merge id local m b in
      if result.conflict then later else (updated result.etag local 0, b)

  unfoldable pub update_resource :
      V → (V → V → V) → Text → (V → V) → Meanwhile V → BcsBackend V → Updated V × BcsBackend V
  unfolding swept bcs_calls put_resource first_put
  update_resource null merge id mutate m b =
      let read = get b.resources id in
      let local = mutate (resource_value null read) in
      first_put null merge id local m
        (put_resource id local (etag_of read) (bcs_calls m.before_put (swept id m.read_at b)))
