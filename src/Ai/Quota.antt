-- ===== src/Ai/Quota.antt =====
-- services/ai-service/src/quota/quota.service.ts: the daily cap, counted in Redis.
pub mod Counting
pub mod Budget
use Prim.Native.String.{◌++◌}
use jobilee.Prelude.{
  ℕ, ◌+◌, ◌-◌, ◌/◌, max, String, Bool, true, false, Option, none, some, ltb, show, if◌then◌else◌,
}
use jobilee.Effect.{Action, pure, throw, ◌>>=◌}
use jobilee.Thrown.{app_error}
use jobilee.Shared.Errors.{rate_limited}

-- A Redis number: counters go below zero under DECR, and TTL answers -1 or -2.
pub data Count : Type 0 where
  nonneg : ℕ → Count
  -- `below n` is -(n + 1)
  below : ℕ → Count

abbrev pub is_negative : Count → Bool
is_negative (nonneg n) = false
is_negative (below n) = true

-- `used > cap`
abbrev pub exceeds : Count → ℕ → Bool
exceeds (nonneg n) cap = ltb cap n
exceeds (below n) cap = false

-- `Math.max(0, cap - used)`
abbrev pub cap_minus : ℕ → Count → ℕ
cap_minus cap (nonneg n) = cap - n
cap_minus cap (below n) = cap + n + 1

-- What the service calls of Redis. `incr_ttl key` is the transaction `multi().incr(key).ttl(key)`,
-- and returns the new count and the time to live; `expire key seconds` and `del key` answer
-- nothing that the source reads.
pub record Redis (W : Type 0) : Type 0 where
  pub incr_ttl : String → Action W (Count × Count)
  pub expire : String → ℕ → Action W (Unit {0})
  pub decr : String → Action W Count
  pub del : String → Action W (Unit {0})
  pub get : String → Action W (Option Count)

-- The calendar: `today` is `new Date().toISOString().slice(0, 10)`, `to_midnight` the milliseconds to
-- the next UTC midnight.
pub record Now : Type 0 where
  pub today : String
  pub to_midnight : ℕ

abbrev pub key_for : Now → String → String
key_for now user_id = "quota:generations:" ++ (now.today ++ (":" ++ user_id))

-- `Math.max(60, Math.ceil(ms / 1000))`
unfoldable pub seconds_until_utc_midnight : Now → ℕ
seconds_until_utc_midnight now = max 60 ((now.to_midnight + 999) / 1000)

abbrev used_all : ℕ → String
used_all cap =
    "You've used all " ++ (show cap ++ " generations for today. The limit resets at midnight UTC.")

module _ {W : Type 0} (redis : Redis W) (cap : ℕ) where
  abbrev pub set_expiry : Now → String → Count → Action W (Unit {0})
  set_expiry now key ttl =
      if is_negative ttl then redis.expire key (seconds_until_utc_midnight now) else pure tt

  abbrev pub check_cap : Count → Action W (Unit {0})
  check_cap used =
      if exceeds used cap then throw (app_error rate_limited (used_all cap)) else pure tt

  abbrev pub consume_from : Now → String → Count × Count → Action W (Unit {0})
  consume_from now key (used, ttl) = do _ ← set_expiry now key ttl; check_cap used

  unfoldable pub consume : Now → String → Action W (Unit {0})
  unfolding seconds_until_utc_midnight
  consume now user_id = do
    reply ← redis.incr_ttl (key_for now user_id)
    consume_from now (key_for now user_id) reply

  unfoldable pub refund : Now → String → Action W (Unit {0})
  refund now user_id = do
    left ← redis.decr (key_for now user_id)
    if is_negative left then redis.del (key_for now user_id) else pure tt

  -- `(await redis.get(key)) ?? 0`
  abbrev pub or_zero : Option Count → Count
  or_zero none = nonneg 0
  or_zero (some n) = n

  unfoldable pub remaining : Now → String → Action W ℕ
  remaining now user_id = do
    used ← redis.get (key_for now user_id)
    pure (cap_minus cap (or_zero used))
