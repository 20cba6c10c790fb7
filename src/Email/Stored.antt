-- ===== src/Email/Stored.antt =====
-- backend/src/modules/outbox/mod.rs and worker.rs: a payload is read back as it was built.
use entitle_hub.Base.{◌≡◌, false, String, inl, inr, arith}
use entitle_hub.Base.Text.{trim, is_empty}
use entitle_hub.Base.Values.{Value}
use entitle_hub.Error.{ok, Result-cases}
use entitle_hub.Email.{Mailer, Sealer, done, build_encrypted_email_payload, parse_email_payload}

-- The key opens what it has sealed.
pub record Opens {V : Type 0} (mailer : Mailer V) (sealer : Sealer V) : Type 0 where
  pub opens_sealed :
      (text : String) (e : Value V) → sealer.seal text ≡ ok e → mailer.open_envelope e ≡ done text

module _ {V : Type 0} where
  -- An email with a recipient and a subject that are not blank, once it is stored, is read back by
  -- the worker as the same email, its recipient and subject trimmed, where the worker's key opens the
  -- envelopes that the sender's key seals.
  pub parse_email_payload-build :
      (mailer : Mailer V) (sealer : Sealer V) (to subject body : String) (payload : Value V)
      → Opens mailer sealer
      → is_empty (trim to) ≡ false
      → is_empty (trim subject) ≡ false
      → build_encrypted_email_payload sealer to subject body ≡ ok payload
      → parse_email_payload mailer payload
        ≡ done (record { to = trim to; subject = trim subject; body = body })
  unfolding build_encrypted_email_payload parse_email_payload
  parse_email_payload-build mailer sealer to subject body payload laws to_filled subject_filled
        built =
      elim (Result-cases (sealer.seal body)) [
        | inl (e, sealed) ↦ ground (arith, laws.opens_sealed body e sealed)
        | inr (x, failed) ↦ ground arith
      ]
