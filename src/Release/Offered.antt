-- ===== src/Release/Offered.antt =====
-- backend/src/modules/release/client.rs: what a client is offered.
use entitle_hub.Base.{
  ℕ, ◌≡◌, true, some, List, [], ◌∷◌, String, str_eq, Bool-cases, Option-cases, inl, inr, arith,
}
use entitle_hub.Base.Decimal.{to_string}
use entitle_hub.Base.Rows.{select, All}
use entitle_hub.Base.Changes.{All-select}
use entitle_hub.Error.{ok}
use entitle_hub.Release.{Release, ReleaseFile, release_metadata_signature_payload, ◌⊕◌}
use entitle_hub.Release.Rows.{Releases}
use entitle_hub.Release.Tokens.{
  ReleaseWithFile, newest, newer, is_offered, with_file, latest_published,
}
use entitle_hub.Release.Admin.{SigningKey, ReleaseSigner}
use entitle_hub.Release.Client.{LatestReleaseResponse, latest_release_response}
use entitle_hub.Release.Published.{Signature, IsSigned, WellSigned}

newest-All {ℓ} :
    (P : Release → Type ℓ) (rows : List Release) (r : Release)
    → All P rows
    → newest rows ≡ some r
    → P r
unfolding newest
newest-All P [] r held found = absurd (ground arith)
newest-All P (q ∷ rows) r (first, held) found = elim (Option-cases (newest rows)) [
  | inl none_left ↦ let same : r ≡ q = ground arith in rw same first
  | inr (best, e) ↦ elim (Bool-cases (newer q best)) [
    | inl over ↦ let same : r ≡ q = ground arith in rw same first
    | inr under ↦ newest-All P rows r held (ground arith)
  ]
]

-- A text of six lines.
abbrev six_lines : (a b c d e f : String) → String
six_lines a b c d e f = a ⊕ "\n" ⊕ b ⊕ "\n" ⊕ c ⊕ "\n" ⊕ d ⊕ "\n" ⊕ e ⊕ "\n" ⊕ f

-- A response carries a signature of six of its fields, one to a line, under the key that it names.
abbrev pub Verifies : (ℕ → String) → ReleaseSigner → LatestReleaseResponse → Type 0
Verifies uuid_text sign response =
    (key : SigningKey) × (response.signature_kid ≡ key.kid)
    × (sign key (
          six_lines (uuid_text response.app_id) response.version (to_string response.version_code)
            response.sha256 (to_string response.file_size) (to_string response.published_at_unix))
        ≡ ok response.signature)

module _ {V : Type 0} (uuid_text : ℕ → String) (sign : ReleaseSigner) where
  published-Signature :
      (files : List (ReleaseFile V)) (r : Release)
      → IsSigned uuid_text sign files r
      → str_eq r.status "published" ≡ true
      → Signature uuid_text sign files r
  published-Signature files r (inl other) live = absurd (ground arith)
  published-Signature files r (inr h) live = h

  pub latest-Signature :
      (s : Releases V) (tenant_id app_id : ℕ) (w : ReleaseWithFile)
      → WellSigned uuid_text sign s
      → latest_published s tenant_id app_id ≡ some w
      → (r : Release) × Signature uuid_text sign s.files r × (with_file s.files r ≡ some w)
  unfolding latest_published
  latest-Signature s tenant_id app_id w ok_s found =
      elim (Option-cases (newest (select (is_offered s.files tenant_id app_id) s.releases))) [
        | inl nothing ↦ absurd (ground arith)
        | inr (r, best) ↦
            let rows =
              All-select (IsSigned uuid_text sign s.files) (is_offered s.files tenant_id app_id)
                s.releases ok_s.all_signed in
            let (state, offered) =
              newest-All
                (λ q.
                  IsSigned uuid_text sign s.files q
                  × (is_offered s.files tenant_id app_id q ≡ true))
                (select (is_offered s.files tenant_id app_id) s.releases) r rows best in
            (r, published-Signature s.files r state (ground arith), ground arith)
      ]

  pub response-Verifies :
      (files : List (ReleaseFile V)) (r : Release) (w : ReleaseWithFile) (token : String)
      (response : LatestReleaseResponse)
      → Signature uuid_text sign files r
      → with_file files r ≡ some w
      → latest_release_response w token ≡ ok response
      → Verifies uuid_text sign response
  unfolding latest_release_response release_metadata_signature_payload
  response-Verifies files r w token response signed built answered =
      elim (Option-cases r.signature_alg) [
        | inl unnamed ↦ absurd (ground (arith, signed.has_file, signed.named, signed.held))
        | inr (alg, named) ↦ (
          signed.key,
          ground (arith, signed.has_file, signed.named, signed.held, signed.dated),
          ground (arith, signed.has_file, signed.named, signed.held, signed.dated, signed.signs),
        )
      ]
