-- ===== src/Release/Downloads.antt =====
-- backend/src/modules/release/client.rs and repository.rs: a download token serves once, and serves
-- an entitled device.
use entitle_hub.Base.{
  ℕ, ◌≤◌, ◌≡◌, refl, ap, ◌∙◌, Bool, true, false, Option, none, some, String, str_eq, Option-cases,
  inl, inr, arith,
}
use entitle_hub.Base.Rows.{find, count, find-true}
use entitle_hub.Base.Changes.{find-spent, find_unique}
use entitle_hub.Base.Text.{trim}
use entitle_hub.Error.{Result, ok, is_ok, Result-cases}
use entitle_hub.Release.{DownloadToken}
use entitle_hub.Release.Rows.{Releases}
use entitle_hub.Release.Tokens.{
  ValidatedDownload, is_consumable, is_named_file, consume_download_token, used,
}
use entitle_hub.Release.Entitled.{IsServing, is_consumable-IsServing}
use entitle_hub.Release.Client.{download_release, download_request, deliver_download}

abbrev pub has_hash : String → DownloadToken → Bool
has_hash token_hash dt = str_eq dt.token_hash token_hash

delivered :
    (limiter : ValidatedDownload → Result (Unit {0})) (open_object : String → Result ℕ)
    (name : String) (found : Option ValidatedDownload) (d : ValidatedDownload)
    → deliver_download limiter open_object name found ≡ ok d
    → found ≡ some d
unfolding deliver_download
delivered limiter open_object name found d done = ground arith

request-hash :
    (hash : String → Result String) (file_name token name h₁ h : String)
    → download_request hash file_name token ≡ ok (name, h₁)
    → hash (trim token) ≡ ok h
    → h₁ ≡ h
unfolding download_request
request-hash hash file_name token name h₁ h asked hashed = ground arith

module _ {V : Type 0} where
  consumable-hash :
      (now : ℕ) (s : Releases V) (name token_hash : String) (dt : DownloadToken)
      → is_consumable now s name token_hash dt ≡ true
      → has_hash token_hash dt ≡ true
  unfolding is_consumable
  consumable-hash now s name token_hash dt h = ground arith

  used-unconsumable :
      (now later : ℕ) (s : Releases V) (name token_hash : String) (dt : DownloadToken)
      → is_consumable later s name token_hash (used now dt) ≡ false
  unfolding is_consumable
  used-unconsumable now later s name token_hash dt = ground arith

  consume-none :
      (now : ℕ) (s : Releases V) (name token_hash : String)
      → find (is_consumable now s name token_hash) s.tokens ≡ none
      → (consume_download_token now s name token_hash).0 ≡ none
  unfolding consume_download_token
  consume-none now s name token_hash missing = ground arith

  -- A lookup that finds a download uses the token up.
  consume-spends :
      (now later : ℕ) (s : Releases V) (name name' token_hash : String) (dt : DownloadToken)
      → count (has_hash token_hash) s.tokens ≤ 1
      → find (is_consumable now s name token_hash) s.tokens ≡ some dt
      → (consume_download_token later
          (consume_download_token now s name token_hash).1
          name'
          token_hash).0
        ≡ none
  unfolding consume_download_token
  consume-spends now later s name name' token_hash dt one found =
      let t = (consume_download_token now s name token_hash).1 in
      consume-none later t name' token_hash (
        find-spent (has_hash token_hash) (is_consumable now s name token_hash)
          (is_consumable later t name' token_hash) (used now) s.tokens dt
          (λ b h. consumable-hash now s name token_hash b h)
          (λ b h. consumable-hash later t name' token_hash b h)
          (λ b. used-unconsumable now later t name' token_hash b) one found)

  consumed-token :
      (now : ℕ) (s : Releases V) (name token_hash : String) (d : ValidatedDownload)
      → (consume_download_token now s name token_hash).0 ≡ some d
      → (dt : DownloadToken) × (find (is_consumable now s name token_hash) s.tokens ≡ some dt)
        × (d.device_id ≡ dt.device_id)
        × (d.file_id ≡ dt.file_id)
  unfolding consume_download_token
  consumed-token now s name token_hash d found =
      elim (Option-cases (find (is_consumable now s name token_hash) s.tokens)) [
        | inl missing ↦ absurd (ground arith)
        | inr (dt, e) ↦ elim (Option-cases (find (is_named_file dt name) s.files)) [
          | inl missing ↦ absurd (ground arith)
          | inr (f, k) ↦
              let named = find-true (is_named_file dt name) s.files f k in
              (dt, e, ground arith, ground arith)
        ]
      ]

  -- The row of a hash that one row has.
  consumable-row :
      (now : ℕ) (s : Releases V) (name token_hash : String) (dt : DownloadToken)
      → count (has_hash token_hash) s.tokens ≤ 1
      → find (is_consumable now s name token_hash) s.tokens ≡ some dt
      → find (has_hash token_hash) s.tokens ≡ some dt
  consumable-row now s name token_hash dt one found =
      let p = is_consumable now s name token_hash in
      let hit = consumable-hash now s name token_hash dt (find-true p s.tokens dt found) in
      find_unique p (has_hash token_hash) (has_hash token_hash) s.tokens dt (λ k h. h) one found hit

  -- A request with a token that no lookup finds.
  refused :
      (hash : String → Result String) (limiter : ValidatedDownload → Result (Unit {0}))
      (open_object : String → Result ℕ) (now : ℕ) (s : Releases V) (file_name token h : String)
      → hash (trim token) ≡ ok h
      → ((name : String) → (consume_download_token now s name h).0 ≡ none)
      → is_ok (download_release hash limiter open_object now s file_name token).0 ≡ false
  unfolding download_release deliver_download
  refused hash limiter open_object now s file_name token h hashed gone =
      elim (Result-cases (download_request hash file_name token)) [
        | inr (x, e) ↦ rw e refl
        | inl ((name, h₁), e) ↦
            let same = request-hash hash file_name token name h₁ h e hashed in
            rw (e, same, gone name) refl
      ]

  -- A download that is granted rests on the row of the token's hash, which is neither used nor revoked
  -- nor expired, names the file that is served, belongs to an active application and is of an active
  -- device with a license or a subscription that may be used at that time; and when at most one row has
  -- the hash, as the table demands, the next request with the same token is refused
  -- on the tables that are left, for any file name, at any time and whatever the limiter and the
  -- storage then say.
  pub download_release-once :
      (hash : String → Result String) (limiter limiter' : ValidatedDownload → Result (Unit {0}))
      (open_object open_object' : String → Result ℕ) (now later : ℕ) (s : Releases V)
      (file_name file_name' token h : String) (d : ValidatedDownload)
      → hash (trim token) ≡ ok h
      → count (has_hash h) s.tokens ≤ 1
      → (download_release hash limiter open_object now s file_name token).0 ≡ ok d
      → ((dt : DownloadToken) × (find (has_hash h) s.tokens ≡ some dt)
          × IsServing now s dt
          × (d.device_id ≡ dt.device_id)
          × (d.file_id ≡ dt.file_id))
        × (is_ok
              (download_release hash limiter' open_object' later
                (download_release hash limiter open_object now s file_name token).1
                file_name'
                token).0
            ≡ false)
  unfolding download_release
  download_release-once hash limiter limiter' open_object open_object' now later s file_name
        file_name' token h d hashed one done =
      elim (Result-cases (download_request hash file_name token)) [
        | inr (x, e) ↦ absurd (ground arith)
        | inl ((name, h₁), e) ↦
            let same : h₁ ≡ h = request-hash hash file_name token name h₁ h e hashed in
            let asked : download_request hash file_name token ≡ ok (name, h) =
              e ∙ ap (λ v. ok (name, v)) same in
            let consumed = consume_download_token now s name h in
            let granted : deliver_download limiter open_object name consumed.0 ≡ ok d =
              ground arith in
            let left : (download_release hash limiter open_object now s file_name token).1
                ≡ consumed.1 =
              rw asked refl in
            let (dt, found, device, file) =
              consumed-token now s name h d
                (delivered limiter open_object name consumed.0 d granted) in
            let serving =
              is_consumable-IsServing now s name h dt
                (find-true (is_consumable now s name h) s.tokens dt found) in
            (
              (dt, consumable-row now s name h dt one found, serving, device, file),
              rw left (
                  refused hash limiter' open_object' later consumed.1 file_name' token h hashed
                    (λ name'. consume-spends now later s name name' h dt one found)),
            )
      ]
