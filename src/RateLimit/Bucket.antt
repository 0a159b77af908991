-- ===== src/RateLimit/Bucket.antt =====
-- The token bucket of one subnet, token_bucket.rs. A call runs with no other thread between its
-- atomic operations, so a compare-and-exchange succeeds at its first try.
pub mod Admission
pub mod Recovery
use ferrous_dns.Base.{
  ℕ, ◌+◌, ◌-◌, ◌*◌, ◌/◌, ◌%◌, ◌^◌, min, Bool, true, false, ltb, ◌==◌, if◌then◌else◌,
}

pub record TokenBucket : Type 0 where
  pub tokens_milli : ℕ
  pub last_refill_ns : ℕ
  pub nxdomain_tokens_milli : ℕ

abbrev pub milli : ℕ
milli = 1000

abbrev pub nx_burst_multiplier : ℕ
nx_burst_multiplier = 2

unfoldable pub nx_burst_milli : ℕ → ℕ
nx_burst_milli nx_qps = nx_qps * milli * nx_burst_multiplier

unfoldable pub new : ℕ → ℕ → ℕ → TokenBucket
unfolding nx_burst_milli
new burst nx_qps now_ns = record {
  tokens_milli = burst * milli;
  last_refill_ns = now_ns;
  nxdomain_tokens_milli = nx_burst_milli nx_qps;
}

unfoldable pub has_tokens : TokenBucket → Bool
has_tokens b = if ltb b.tokens_milli milli then false else true

-- The counter after the call, and whether a token was taken.
unfoldable pub try_decrement : ℕ → ℕ × Bool
try_decrement current = if ltb current milli then (current, false) else (current - milli, true)

-- `current + add` is a `u64` sum.
unfoldable pub add_capped : ℕ → ℕ → ℕ → ℕ
add_capped current add cap = min ((current + add) % 2 ^ 64) cap

-- Thousandths of a token for a time; computed in `u128` and cut to `u64`.
unfoldable pub refill_amount : ℕ → ℕ → ℕ
refill_amount elapsed_ns rate = elapsed_ns * rate * milli / 1_000_000_000 % 2 ^ 64

unfoldable pub refill : TokenBucket → ℕ → ℕ → ℕ → ℕ → TokenBucket
unfolding add_capped nx_burst_milli
refill b now_ns qps burst nx_qps =
    let elapsed_ns = now_ns - b.last_refill_ns in
    if elapsed_ns == 0 then b else record {
      tokens_milli = add_capped b.tokens_milli (refill_amount elapsed_ns qps) (burst * milli);
      last_refill_ns = now_ns;
      nxdomain_tokens_milli =
          add_capped b.nxdomain_tokens_milli (refill_amount elapsed_ns nx_qps)
            (nx_burst_milli nx_qps);
    }

unfoldable pub try_consume : TokenBucket → ℕ → ℕ → ℕ → ℕ → TokenBucket × Bool
unfolding try_decrement
try_consume b now_ns qps burst nx_qps =
    let b' = refill b now_ns qps burst nx_qps in
    let (tokens, done) = try_decrement b'.tokens_milli in
    (record b' { tokens_milli = tokens }, done)

unfoldable pub try_charge_nxdomain : TokenBucket → ℕ → ℕ → ℕ → ℕ → TokenBucket × Bool
unfolding try_decrement
try_charge_nxdomain b now_ns qps burst nx_qps =
    let b' = refill b now_ns qps burst nx_qps in
    let (tokens, done) = try_decrement b'.nxdomain_tokens_milli in
    (record b' { nxdomain_tokens_milli = tokens }, done)
