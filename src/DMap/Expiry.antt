-- ===== src/DMap/Expiry.antt =====
-- When an entry that was put with a timeout expires.
use native.Mathlib.Omega.{arith}
use olricdb.Prelude.{ℕ, ◌+◌, ◌^◌, ◌≤◌, ◌<◌, ◌≡◌, true, false}
use olricdb.DMap.{Env, div_million, get_ttl, is_key_expired}

-- For a timeout whose end, in nanoseconds from the time of the write, is at least a millisecond and
-- fits an int64: the key is expired at every time from that end on, and not expired at any time a
-- millisecond or more before it.
pub is_key_expired-get_ttl :
    (env env' : Env) (timeout : ℕ)
    → 1000000 ≤ timeout + env.now
    → timeout + env.now < 2 ^ 63
    → (timeout + env.now ≤ env'.now → is_key_expired env' (get_ttl env timeout) ≡ true)
      × (env'.now + 1000000 ≤ timeout + env.now → is_key_expired env' (get_ttl env timeout) ≡ false)
unfolding is_key_expired get_ttl div_million
is_key_expired-get_ttl env env' timeout positive word =
    (λ late. ground arith, λ early. ground arith)
