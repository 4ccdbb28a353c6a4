-- ===== src/Config/Laws.antt =====
-- backend/src/config.rs: what holds of the settings whatever the environment says.
use shuestand.Prelude.{
  String, ℕ, ◌<◌, ◌≡◌, refl, arith, Option, none, some, ltb, max, unwrap_or, Option-cases, inl, inr,
}
use shuestand.Prelude.Text.{Text, parse_unsigned, parse_unsigned-lt}
use shuestand.Config.{
  Floats, Env, AppConfig, filter, and_then, number, positive, deposit_target_confirmations, u8, u32,
  u64, from_env, fee_estimator_settings,
}
use mathlib.Core.Option

abbrev Within : ℕ → ℕ → Type 0
Within bound n = (0 < n) × (n < bound)

number-lt :
    (env : Env) (name : String) (bound n : ℕ)
    → 0 < bound
    → number env name bound ≡ some n
    → n < bound
unfolding number
number-lt env name bound n h e = go (env name) e
  where
    go : (v : Option Text) → and_then v (parse_unsigned bound) ≡ some n → n < bound
    go none k = cc
    go (some s) k = parse_unsigned-lt bound s n h k

positive-Within :
    (env : Env) (name : String) (bound default : ℕ)
    → Within bound default
    → Within bound (positive env name bound default)
unfolding positive
positive-Within env name bound default h =
    go (number env name bound) (λ n e. number-lt env name bound n (omega arith) e)
  where
    go :
        (o : Option ℕ)
        → ((n : ℕ) → o ≡ some n → n < bound)
        → Within bound (unwrap_or (filter (λ v. ltb 0 v) o) default)
    go none k = h
    go (some n) k = let below = k n refl in ground arith

confirmations-Within : (env : Env) → Within u8 (deposit_target_confirmations env)
unfolding deposit_target_confirmations
confirmations-Within env =
    go (number env "DEPOSIT_TARGET_CONFIRMATIONS" u8)
      (λ n e. number-lt env "DEPOSIT_TARGET_CONFIRMATIONS" u8 n (omega arith) e)
  where
    go :
        (o : Option ℕ)
        → ((n : ℕ) → o ≡ some n → n < u8)
        → Within u8 (unwrap_or (Option.map (λ v. max v 1) o) 3)
    go none k = omega arith
    go (some n) k = let below = k n refl in ground arith

-- The settings that loops, limits and divisions rely on: each is positive, and fits its type.
pub record IsUsable {Float : Type 0} (config : AppConfig Float) : Type 0 where
  pub pool : Within u32 config.address_pool_target
  pub deposit_depth : Within u8 config.deposit_target_confirmations
  pub withdrawal_depth : Within u8 config.withdrawal_target_confirmations
  pub poll : Within u64 config.confirmation_poll_interval
  pub withdrawal_interval : Within u64 config.withdrawal_worker_interval
  pub withdrawal_attempts : Within u32 config.withdrawal_worker_max_attempts
  pub deposit_interval : Within u64 config.deposit_worker_interval
  pub deposit_attempts : Within u32 config.deposit_worker_max_attempts
  pub target : Within u64 config.float_target_sats
  pub guard_interval : Within u64 config.float_guard_interval
  pub least_deposit : Within u64 config.deposit_min_sats
  pub least_withdrawal : Within u64 config.withdrawal_min_sats
  pub buffer : config.withdrawal_fee_buffer_sats < u64
  pub ttl : Within u64 config.pending_deposit_ttl_secs
  pub pending : Within u64 config.max_pending_deposits_per_session
  pub fee_refresh : Within u64 config.fee_estimator.refresh_interval
  pub fast : Within u32 config.fee_estimator.fast_target_blocks
  pub economy : Within u32 config.fee_estimator.economy_target_blocks

buffer-lt : (env : Env) → unwrap_or (number env "WITHDRAWAL_FEE_BUFFER_SATS" u64) 500 < u64
buffer-lt env = elim (Option-cases (number env "WITHDRAWAL_FEE_BUFFER_SATS" u64)) [
  | inl e ↦ rw e (omega arith)
  | inr (n, e) ↦ rw e (number-lt env "WITHDRAWAL_FEE_BUFFER_SATS" u64 n (omega arith) e)
]

-- Whatever the environment says, the pool, the depths, the intervals, the attempts, the float's target,
-- the least amounts and the limits on pending deposits are positive, and every one of them and the fee
-- buffer fit their types: no text of a variable turns one off or wraps it.
pub from_env-IsUsable : (floats : Floats) (env : Env) → IsUsable (from_env floats env)
unfolding from_env fee_estimator_settings
from_env-IsUsable floats env = record {
  pool = positive-Within env _ u32 20 (omega arith);
  deposit_depth = confirmations-Within env;
  withdrawal_depth = positive-Within env _ u8 1 (omega arith);
  poll = positive-Within env _ u64 30 (omega arith);
  withdrawal_interval = positive-Within env _ u64 15 (omega arith);
  withdrawal_attempts = positive-Within env _ u32 5 (omega arith);
  deposit_interval = positive-Within env _ u64 10 (omega arith);
  deposit_attempts = positive-Within env _ u32 5 (omega arith);
  target = positive-Within env _ u64 500000 (omega arith);
  guard_interval = positive-Within env _ u64 30 (omega arith);
  least_deposit = positive-Within env _ u64 50000 (omega arith);
  least_withdrawal = positive-Within env _ u64 50000 (omega arith);
  buffer = buffer-lt env;
  ttl = positive-Within env _ u64 600 (omega arith);
  pending = positive-Within env _ u64 2 (omega arith);
  fee_refresh = positive-Within env _ u64 60 (omega arith);
  fast = positive-Within env _ u32 1 (omega arith);
  economy = positive-Within env _ u32 3 (omega arith);
}
