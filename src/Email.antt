-- ===== src/Email.antt =====
-- backend/src/modules/outbox/mod.rs and worker.rs: the text of an email, the payload it is stored in,
-- and the parser of that payload. The encryption of the body, with the JSON form of its envelope, and
-- the mail server are parameters. An instant in a text is given as the text that `to_rfc3339` makes
-- of it.
pub mod Stored
use Prim.Native.String as Text
use Prim.Native.Char.{Char, code}
use entitle_hub.Base.{
  ℕ, ◌≡◌, Bool, true, false, ◌&&◌, Option, none, some, List, [], ◌∷◌, ◌++◌, String, ◌==◌,
  if◌then◌else◌,
}
use entitle_hub.Base.Text.{trim, is_empty}
use entitle_hub.Base.Values.{Value, string, number, object, no_fields, field, get, text_of}
use entitle_hub.Error.{Result, ok, err, ◌>>=◌, ◌>>◌}

pub record EmailDeliveryMessage : Type 0 where
  pub to : String
  pub subject : String
  pub body : String

-- `Result<T, String>`
pub data Attempt (T : Type 0) : Type 0 where
  undone : String → Attempt T
  done : T → Attempt T

-- What the worker asks of other code: the text that the JSON form of an envelope decrypts to, and the
-- mail server.
pub record Mailer (V : Type 0) : Type 0 where
  pub open_envelope : Value V → Attempt String
  pub send_email : EmailDeliveryMessage → Attempt (Unit {0})

-- What the sender asks of other code: the JSON form of the encrypted envelope of a text.
pub record Sealer (V : Type 0) : Type 0 where
  pub seal : String → Result (Value V)

-- The character `/`.
abbrev is_slash : Char → Bool
is_slash c = code c == 47

trim_start_slashes : String → String
trim_start_slashes Text.[] = Text.[]
trim_start_slashes (Text.◌∷◌ c s) = if is_slash c then trim_start_slashes s else Text.◌∷◌ c s

trim_end_slashes : String → String
trim_end_slashes Text.[] = Text.[]
trim_end_slashes (Text.◌∷◌ c s) =
    let rest = trim_end_slashes s in
    if is_slash c && is_empty rest then Text.[] else Text.◌∷◌ c rest

infixr 60 ◌⊕◌
abbrev ◌⊕◌ : String → String → String
a ⊕ b = Text.◌++◌ a b

url_at : (base action_path token : String) → Option String
unfolding trim_start_slashes
url_at base action_path token =
    if is_empty base
    then none
    else some (base ⊕ "/" ⊕ trim_start_slashes action_path ⊕ "?token=" ⊕ token)

unfoldable pub token_action_url : Option String → (action_path token : String) → Option String
unfolding url_at trim_end_slashes trim
token_action_url none action_path token = none
token_action_url (some base) action_path token =
    url_at (trim_end_slashes (trim base)) action_path token

-- `join("\n")`
join_lines : List String → String
join_lines [] = ""
join_lines (line ∷ []) = line
join_lines (line ∷ next ∷ lines) = line ⊕ "\n" ⊕ join_lines (next ∷ lines)

abbrev link_lines : Option String → List String
link_lines none = []
link_lines (some url) = "" ∷ ("链接：" ⊕ url) ∷ []

unfoldable pub token_email_body :
    String → Option String → (action_path token expires_at : String) → String
unfolding token_action_url join_lines
token_email_body intro base_url action_path token expires_at = join_lines (
    (intro ∷ "" ∷ ("令牌：" ⊕ token) ∷ ("过期时间：" ⊕ expires_at) ∷ [])
    ++ link_lines (token_action_url base_url action_path token)
    ++ ("" ∷ "如果这不是你本人操作，请忽略此邮件。" ∷ []))

missing_field : String → String
missing_field key = "email payload " ⊕ key ⊕ " is missing"

required_text : Option String → String → Attempt String
unfolding missing_field
required_text none key = undone (missing_field key)
required_text (some s) key = if is_empty (trim s) then undone (missing_field key) else done (trim s)

then_body : (to subject : String) → Attempt String → Attempt EmailDeliveryMessage
then_body to subject (undone e) = undone e
then_body to subject (done body) = done (record { to = to; subject = subject; body = body })

module _ {V : Type 0} where
  unfoldable pub build_encrypted_email_payload :
      Sealer V → (to subject text_body : String) → Result (Value V)
  build_encrypted_email_payload sealer to subject text_body = do
    body_envelope ← sealer.seal text_body
    ok (
        object (
          field "schema_version" (number 1) (
            field "kind" (string "email") (
              field "to" (string to) (
                field "subject" (string subject) (
                  field "body_format" (string "text/plain")
                    (field "body_envelope" body_envelope no_fields)))))))

  unfoldable pub required_string : Value V → String → Attempt String
  unfolding required_text get text_of
  required_string payload key = required_text (text_of (get payload key)) key

  open_body : Mailer V → Option (Value V) → Attempt String
  open_body mailer none = undone "email payload body_envelope is missing"
  open_body mailer (some envelope) = mailer.open_envelope envelope

  then_subject : Mailer V → Value V → String → Attempt String → Attempt EmailDeliveryMessage
  unfolding then_body open_body get
  then_subject mailer payload to (undone e) = undone e
  then_subject mailer payload to (done subject) =
      then_body to subject (open_body mailer (get payload "body_envelope"))

  then_to : Mailer V → Value V → Attempt String → Attempt EmailDeliveryMessage
  unfolding then_subject required_string
  then_to mailer payload (undone e) = undone e
  then_to mailer payload (done to) =
      then_subject mailer payload to (required_string payload "subject")

  unfoldable pub parse_email_payload : Mailer V → Value V → Attempt EmailDeliveryMessage
  unfolding then_to required_string
  parse_email_payload mailer payload = then_to mailer payload (required_string payload "to")
