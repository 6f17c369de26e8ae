-- ===== src/Examples/SignIn.antt =====
-- The laws of secrets and of signing in, with the ciphers and codes of `Examples.Codes`.
use softwareoath.Auth.Cookies.Laws.Browser.{sent_back}
use softwareoath.Auth.Sessions.{session_ttl}
use softwareoath.Auth.Rights.Laws.{IsHighest, authorize_returned_iff}
use softwareoath.Records.Data.{ControlPlaneData}
use softwareoath.Auth.Sessions.Laws.{session_id-sent, authenticate-logout, authenticate_signed_in}
use softwareoath.Auth.Rights.{body, Permissions, authorize}
use softwareoath.Records.Review.{maintain, AuthSessionRecord}
use softwareoath.Auth.Cookies.{cookie, session_cookie}
use softwareoath.Store.Sessions.{get_auth_session, delete_auth_session}
use softwareoath.Auth.Sessions.{signed_in, broken_header, anonymous, logout, session_id}
use softwareoath.Auth.Sessions.Laws.{authenticate-create, authenticate_broken_cookie}
use softwareoath.Examples.Data.{owner, shop, session_one}
use softwareoath.Auth.Sessions.{Options, Drawn, create, authenticate}
use softwareoath.Base.{is_space, returned, none, some, split, trim, trim_start, trim_end, ◌↔◌}
use softwareoath.Integrations.Secrets.Laws.{decrypt-encrypt}
use softwareoath.Auth.State.Laws.{decode_state-encode_state, Carries, decode_state_returned_iff}
use softwareoath.Auth.State.{decode_state, encode_state}
use softwareoath.Auth.Cookies.Laws.{sent}
use softwareoath.Integrations.Secrets.{decrypt, encrypt}
use softwareoath.Base.{[], ◌∷◌, ℕ, String, Option, ◌≡◌, refl, ap, arith, ◌<◌, false, true, eq_iff}
use softwareoath.Examples.Codes.{web, cipher, signing, web_laws, cipher_laws, signing_laws}

abbrev options : Options
options = record {
  web = web;
  signing = signing;
  cipher = cipher;
  box = record { key = 7 ∷ [] };
  secure = true;
  state_secret = "k";
  ttl_ms = none;
}

abbrev drawn : Drawn
drawn = record { id = "s9"; iv = 3 ∷ []; csrf_token = "c" }

decrypt-encrypt_example :
    decrypt cipher options.box (encrypt cipher options.box (3 ∷ []) "token") ≡ returned "token"
decrypt-encrypt_example =
    decrypt-encrypt cipher options.box (3 ∷ []) "token" cipher_laws (omega arith)

decode_state-encode_state_example :
    decode_state signing (encode_state signing (record { nonce = "n"; expires_at = 50 }) "k") "k" 20
    ≡ returned (record { nonce = some "n"; expires_at = some 50 })
decode_state-encode_state_example =
    decode_state-encode_state signing (record { nonce = "n"; expires_at = 50 }) "k" 20 signing_laws

decode_state_returned_iff_example :
    (decode_state signing "a.b" "k" 20
      ≡ returned (record { nonce = some "n"; expires_at = some 50 }))
    ↔ Carries signing "k" 20 (record { nonce = some "n"; expires_at = some 50 }) (split b'.' "a.b")
decode_state_returned_iff_example =
    decode_state_returned_iff signing "a.b" "k" 20
      (record { nonce = some "n"; expires_at = some 50 })

abbrev created : ControlPlaneData
created = (create options drawn owner "token" 1000 shop).0

abbrev new_one : AuthSessionRecord
new_one = (create options drawn owner "token" 1000 shop).1

abbrev header : Option String
header = some (sent web session_cookie "s9")

abbrev new_header : Option String
new_header = some (sent_back (create options drawn owner "token" 1000 shop).2)

signed : authenticate options new_header 2000 created ≡ (created, signed_in new_one "token")
unfolding session_ttl
signed =
    authenticate-create options drawn owner "token" 1000 2000 shop web_laws cipher_laws
      (λ e. ground (arith, eq_iff "s9" "")) (omega arith) (λ e. ground (arith, eq_iff "token" ""))
      (omega arith)

authenticate_broken_cookie_example :
    (authenticate options (some "ad=%;b=c") 2000 shop ≡ (shop, broken_header))
    × (logout options (some "ad=%;b=c") shop ≡ none)
authenticate_broken_cookie_example =
    authenticate_broken_cookie options "ad=%;b=c" [] ("b=c" ∷ []) "ad=%" "ad" "%" 2000 shop
      (unfold split in refl) (unfold split trim trim_start trim_end is_space in refl) refl

authenticate_signed_in_example :
    (id : String) × (session_id web new_header ≡ some (some id))
    × (get_auth_session id created ≡ some new_one)
    × (2000 < new_one.expires_at)
    × (decrypt cipher options.box new_one.encrypted_access_token ≡ returned "token")
    × ((authenticate options new_header 2000 created).0 ≡ created)
authenticate_signed_in_example =
    authenticate_signed_in options new_header 2000 created (ap (λ r. r.1) signed)

named_nine : session_id web header ≡ some (some "s9")
named_nine = session_id-sent web "s9" web_laws (λ e. ground (arith, eq_iff "s9" ""))

abbrev ended_one : AuthSessionRecord
ended_one = record session_one { id = "s9"; expires_at = 90 }

abbrev ended_shop : ControlPlaneData
ended_shop = record shop { auth_sessions = ended_one ∷ [] }

authenticate-logout_example :
    authenticate options header 60 (delete_auth_session "s9" ended_shop)
    ≡ (delete_auth_session "s9" ended_shop, anonymous)
authenticate-logout_example =
    authenticate-logout options header 60 ended_shop
      {headers = cookie web session_cookie "" (some 0) true ∷ []}
      (unfold logout in ground (arith, named_nine))

abbrev may_maintain : Permissions
may_maintain = record { admin = false; maintain = true; push = true }

authorize_returned_iff_example :
    (authorize web (λ path. body (some may_maintain)) "acme/shop" 60
      ≡ returned (record { repository = "acme/shop"; permission = maintain; verified_at = 60 }))
    ↔ ((p : Permissions) × (body (some may_maintain) ≡ body (some p))
        × IsHighest p maintain
        × (◌≡◌ {A = String} "acme/shop" "acme/shop")
        × (◌≡◌ {A = ℕ} 60 60))
authorize_returned_iff_example =
    authorize_returned_iff web (λ path. body (some may_maintain)) "acme/shop" 60
      (record { repository = "acme/shop"; permission = maintain; verified_at = 60 })
