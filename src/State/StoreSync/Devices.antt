-- ===== src/State/StoreSync/Devices.antt =====
-- Two devices that update one agent of packages/state/src/agent-store-sync.ts.
use open_claw_bot.Common.{ℕ, ◌+◌, ◌≡◌, refl, none, some, List, [], ◌∷◌}
use open_claw_bot.Common.Texts.{Text, units, text_eq, text_beq}
use open_claw_bot.Common.Decimal.{decimal}
use open_claw_bot.Common.Maps.{get, set, delete}
use open_claw_bot.State.StoreSync.{
  BcsBackend, lock_on, with_lock, locked_task, task_ended, lock_held_error, lock, unlock, BcsCall,
  puts, locks_for, updated, bcs_conflict, Meanwhile, etag_text, swept, with_resource, put_on,
  put_resource, lock, unlock, bcs_call, bcs_calls, retried, resolve, first_put, update_resource,
  create_in_memory_bcs_backend,
}
use open_claw_bot.State.StoreSync.Current.{Settles, update_resource-current}

abbrev bot : Text
bot = units "bot"

abbrev first_write : List (BcsCall ℕ)
first_write = puts bot 5 none ∷ []

abbrev alone : Meanwhile ℕ
alone = record {
  before_put = [];
  before_reread = [];
  before_retry = [];
  read_at = 1;
  reread_at = 2;
}

abbrev raced : Meanwhile ℕ
raced = record alone { before_put = puts bot 40 (some (units "etag-1")) ∷ [] }

abbrev add_one : ℕ → ℕ
add_one n = n + 1

abbrev add_both : ℕ → ℕ → ℕ
add_both remote own = remote + own

-- The lock of another owner, and a task behind it.
abbrev a_locks : BcsBackend ℕ
unfolding bcs_calls
a_locks = bcs_calls (locks_for bot (units "a") 10 1 ∷ []) create_in_memory_bcs_backend

abbrev count_task : BcsBackend ℕ → ℕ × BcsBackend ℕ
count_task b = (b.etag_counter, b)

updates_run :
    ((update_resource 0 add_both bot add_one alone
        (bcs_calls first_write create_in_memory_bcs_backend)).0
      ≡ updated (units "etag-2") 6 0)
    × ((update_resource 0 add_both bot add_one raced
          (bcs_calls first_write create_in_memory_bcs_backend)).0
        ≡ updated (units "etag-3") 46 1)
    × ((update_resource 0 add_both bot add_one
          (record raced { before_retry = puts bot 7 (some (units "etag-2")) ∷ [] })
          (bcs_calls first_write create_in_memory_bcs_backend)).0
        ≡ bcs_conflict)
    × ((with_lock {V = ℕ} bot (units "b") 10 5 count_task a_locks).0
        ≡ lock_held_error (some (units "a")))
    × ((with_lock {V = ℕ} bot (units "b") 10 11 count_task a_locks).0 ≡ task_ended 0)
    × ((with_lock {V = ℕ} bot (units "b") 10 11 count_task a_locks).1.locks ≡ [])
unfolding a_locks update_resource bcs_calls bcs_call swept put_resource first_put
    create_in_memory_bcs_backend get set delete text_beq put_on with_resource etag_text decimal
    retried resolve lock lock_on unlock with_lock locked_task
updates_run = (refl, refl, refl, refl, refl, refl)

update_resource-current_example :
    Settles 0 add_both bot add_one raced (bcs_calls first_write create_in_memory_bcs_backend) (
      update_resource 0 add_both bot add_one raced
        (bcs_calls first_write create_in_memory_bcs_backend))
update_resource-current_example = update_resource-current 0 add_both bot add_one raced first_write
