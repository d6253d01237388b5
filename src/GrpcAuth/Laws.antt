-- ===== src/GrpcAuth/Laws.antt =====
-- What a Cloud Run address is dialled as, and with which audience.
use text.Mathlib.TextLemmas.{append_assoc}
use go_image_service.Base.{
  String, ◌<>◌, ◌≡◌, ◌≢◌, refl, sym, ap, ◌∙◌, Result, ok, err, wrapped, trim_suffix_char, nat_eq,
}
use go_image_service.Base.TextLaws.{
  has_prefix-append, trim_prefix-append, trim_suffix_char-append_left, trim_suffix_char-append,
  Lacks, trim_suffix_char-Lacks,
}
use go_image_service.GrpcAuth.{
  scheme, is_cloud_run, dial_target, Credentials, tls_with_token, connect, dial,
}

-- A host: not empty, with no path and no port.
abbrev pub IsHost : String → Type 0
IsHost host = (host ≢ "") × Lacks "/" host × Lacks ":" host

module _ {Source Conn : Type 0} (new_token_source : String → Result Source)
    (new_client : String → Credentials Source → Result Conn) where
  -- The outcome of a dial over TLS to a host, with what the token source answered.
  abbrev pub dial_host : String → Result Source → Result Conn
  dial_host host (err e) = err (wrapped ("id token source for " <> ("https://" <> host)) e)
  dial_host host (ok source) = new_client (host <> ":443") (tls_with_token source)

  connect-dial_host :
      (rest host : String) (source : Result Source)
      → trim_suffix_char "/" rest ≡ host
      → trim_suffix_char "/" (scheme <> rest) ≡ scheme <> host
      → connect new_token_source new_client (scheme <> rest) source ≡ dial_host host source
  unfolding connect dial_target
  connect-dial_host rest host (ok source) bare whole =
      rw (has_prefix-append, trim_prefix-append, bare) refl
  connect-dial_host rest host (err e) bare whole = rw whole refl

  dial-rest :
      (rest host : String)
      → trim_suffix_char "/" rest ≡ host
      → trim_suffix_char "/" (scheme <> rest) ≡ scheme <> host
      → dial new_token_source new_client (scheme <> rest)
        ≡ dial_host host (new_token_source (scheme <> host))
  unfolding dial is_cloud_run
  dial-rest rest host bare whole =
      rw (has_prefix-append, whole) (connect-dial_host rest host _ bare whole)

  whole_host :
      (host : String)
      → host ≢ ""
      → Lacks "/" host
      → trim_suffix_char "/" (scheme <> host) ≡ scheme <> host
  whole_host String.[] filled lacks = absurd (filled refl)
  whole_host (String.◌∷◌ c s) filled lacks =
      trim_suffix_char-append_left "/" scheme c s
      ∙ ap (λ t. scheme <> t) (trim_suffix_char-Lacks "/" (String.◌∷◌ c s) lacks)

  -- For a host, that is a text that is not empty and has no slash and no colon, the addresses `https://{host}` and
  -- `https://{host}/` are both dialled over TLS as `{host}:443`, with a token whose audience is
  -- `https://{host}`; where the token source fails, its error is wrapped with this audience and
  -- nothing is dialled.
  pub dial-scheme :
      (host : String)
      → IsHost host
      → (dial new_token_source new_client ("https://" <> host)
          ≡ dial_host host (new_token_source ("https://" <> host)))
        × (dial new_token_source new_client ("https://" <> (host <> "/"))
            ≡ dial_host host (new_token_source ("https://" <> host)))
  dial-scheme host (filled, lacks, _) = (
    dial-rest host host (trim_suffix_char-Lacks "/" host lacks) (whole_host host filled lacks),
    dial-rest (host <> "/") host (trim_suffix_char-append "/" host) (
        ap (trim_suffix_char "/") (sym (append_assoc scheme host "/"))
        ∙ trim_suffix_char-append "/" (scheme <> host)),
  )
