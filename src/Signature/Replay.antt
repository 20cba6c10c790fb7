-- ===== src/Signature/Replay.antt =====
-- The window of timestamps, and what the guard against replays refuses and lets through.
use entitle_hub.Base.{ℕ, ◌+◌, ◌≤◌, ◌<◌, ◌^◌, ◌≡◌, ◌≢◌, ◌↔◌, true, false, String, arith, inl, inr}
use entitle_hub.Base.Int.{ℤ, pos, ◌+ℤ◌, ◌-ℤ◌, ◌≤ℤ◌, neg, IsI64}
use entitle_hub.Error.{Result-cases, ok}
use entitle_hub.Store.{Store}
use entitle_hub.ClientAuth.{ClientContext}
use entitle_hub.Signature.{
  Redis, Crypto, SignedRequest, distance, is_expired, check_signature, store_nonce, nonce_key,
  require_device_signature, nonce_ttl_seconds, read_nonce_header, read_i64_header,
}

-- A timestamp passes exactly when it lies within 300 seconds of the clock, before or after, where
-- the clock is before 2 ^ 62; the timestamp 2 ^ 63 seconds before the clock is left out.
pub is_expired-exact :
    (now : ℕ) (timestamp : ℤ)
    → now < 2 ^ 62
    → IsI64 timestamp
    → pos now ≢ timestamp +ℤ pos (2 ^ 63)
    → (is_expired (pos now) timestamp ≡ false)
      ↔ ((timestamp ≤ℤ pos (now + 300)) × (pos now ≤ℤ timestamp +ℤ pos 300))
unfolding is_expired distance ◌+ℤ◌ ◌-ℤ◌ neg
is_expired-exact now timestamp small fits other = (λ h. ground arith, λ h. ground arith)

still_ahead :
    (now later : ℕ) (timestamp : ℤ)
    → now + 300 ≤ later
    → timestamp ≤ℤ pos (now + 300)
    → timestamp ≤ℤ pos (later + 300)
still_ahead now later timestamp h k = omega arith

not_expired :
    (now : ℕ) (timestamp : ℤ)
    → now < 2 ^ 62
    → pos now ≤ℤ timestamp +ℤ pos 300
    → timestamp ≤ℤ pos (now + 300)
    → is_expired (pos now) timestamp ≡ false
unfolding is_expired distance ◌+ℤ◌ ◌-ℤ◌ neg
not_expired now timestamp small h k = ground arith

-- What Redis documents of `SET NX` with `EXPIRE`: a key that was new is there until its life ends,
-- and is gone from then on, where no other command touches it.
pub record KeepsNonces {R : Type 0} (redis : Redis R) : Type 0 where
  pub kept :
      (at later : ℕ) (key : String) (r : R)
      → (redis.set_nx at key r).0 ≡ true
      → at ≤ later
      → later < at + nonce_ttl_seconds
      → (redis.set_nx later key (redis.expire at key nonce_ttl_seconds (redis.set_nx at key r).1)).0
        ≡ false
  pub gone :
      (at later : ℕ) (key : String) (r : R)
      → (redis.set_nx at key r).0 ≡ true
      → at + nonce_ttl_seconds ≤ later
      → (redis.set_nx later key (redis.expire at key nonce_ttl_seconds (redis.set_nx at key r).1)).0
        ≡ true

module _ {V R : Type 0} (C : Crypto) (redis : Redis R) (laws : KeepsNonces redis) (now later : ℕ)
    (s : Store V) (client : ClientContext V) (request : SignedRequest) (r t : R) where
  store_nonce-eq :
      (nonce : String)
      → store_nonce C redis now client nonce r ≡ (t, ok tt)
      → (((redis.set_nx now (nonce_key C client nonce) r).0 ≡ true)
          × (t
              ≡ redis.expire now
                  (nonce_key C client nonce)
                  nonce_ttl_seconds
                  (redis.set_nx now (nonce_key C client nonce) r).1))
  unfolding store_nonce
  store_nonce-eq nonce h = ground arith

  check_signature-nonce :
      (at : ℤ) (nonce : String)
      → check_signature C at s client request ≡ ok nonce
      → read_nonce_header request "X-Nonce" ≡ ok nonce
  unfolding check_signature
  check_signature-nonce at nonce h = ground arith

  -- A signature that is checked passes at any instant that its timestamp passes.
  check_signature-later :
      (at then : ℤ) (nonce : String) (timestamp : ℤ)
      → check_signature C at s client request ≡ ok nonce
      → read_i64_header C request "X-Timestamp" ≡ ok timestamp
      → is_expired then timestamp ≡ false
      → check_signature C then s client request ≡ ok nonce
  unfolding check_signature
  check_signature-later at then nonce timestamp h stamped fresh = ground arith

  -- The same request again, right after it passed and less than 300 seconds later, is refused,
  -- where Redis keeps nonces as documented.
  pub replay_refused :
      require_device_signature C redis now s client request r ≡ (t, ok tt)
      → now ≤ later
      → later < now + 300
      → (require_device_signature C redis later s client request t).1 ≢ ok tt
  unfolding require_device_signature store_nonce
  replay_refused h after soon again =
      elim (Result-cases (check_signature C (pos now) s client request)) [
        | inr (e, k) ↦ ground arith
        | inl (nonce, k) ↦ elim (Result-cases (check_signature C (pos later) s client request)) [
          | inr (e', k') ↦ ground arith
          | inl (nonce', k') ↦ ground (
            arith,
            check_signature-nonce (pos now) nonce k,
            check_signature-nonce (pos later) nonce' k',
            store_nonce-eq nonce,
            laws.kept now later (nonce_key C client nonce) r,
          )
        ]
      ]

  -- The same request again passes a second time once 300 seconds have gone by, where Redis keeps
  -- nonces as documented, no other command comes in between and the timestamp is still within 300
  -- seconds of the clock: one that lay ahead of the clock when it first passed can be.
  pub replay_accepted :
      (timestamp : ℤ)
      → require_device_signature C redis now s client request r ≡ (t, ok tt)
      → read_i64_header C request "X-Timestamp" ≡ ok timestamp
      → now + 300 ≤ later
      → later < 2 ^ 62
      → pos later ≤ℤ timestamp +ℤ pos 300
      → timestamp ≤ℤ pos (now + 300)
      → (require_device_signature C redis later s client request t).1 ≡ ok tt
  unfolding require_device_signature store_nonce
  replay_accepted timestamp h stamped over small recent ahead =
      elim (Result-cases (check_signature C (pos now) s client request)) [
        | inr (e, k) ↦ ground arith
        | inl (nonce, k) ↦
            let again = check_signature-later (pos now) (pos later) nonce timestamp k stamped (
              not_expired later timestamp small recent
                (still_ahead now later timestamp over ahead)) in
            ground (arith, store_nonce-eq nonce, laws.gone now later (nonce_key C client nonce) r)
      ]
