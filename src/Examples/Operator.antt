-- ===== src/Examples/Operator.antt =====
-- The credentials of the operator's API at concrete inputs.
use auspex.Prelude.{
  ℕ, zero, suc, ◌%◌, ◌≡◌, ◌↔◌, ◌⊎◌, refl, arith, Bool, ◌&&◌, leb, true, none, some, List, [], ◌∷◌,
  ◌++◌, length,
}
use auspex.Operator.ApiAuth.{NeverFf, constant_time_eq, constant_time_eq_iff}
use auspex.Operator.ApiRequest.{
  ApiRequest, HasToken, Passes, bearer, bytes_or_empty, request_has_valid_api_auth,
  request_has_valid_api_auth_sound, token_key,
}

abbrev secret : List ℕ
secret = bearer ++ 97 ∷ 98 ∷ []

abbrev padding : ℕ → List ℕ
padding zero = []
padding (suc n) = 65 ∷ padding n

abbrev are_ascii : List ℕ → Bool
are_ascii [] = true
are_ascii (b ∷ bytes) = leb b 127 && are_ascii bytes

are_ascii-NeverFf : (bytes : List ℕ) → are_ascii bytes ≡ true → NeverFf bytes
are_ascii-NeverFf [] h = tt
are_ascii-NeverFf (b ∷ bytes) h =
    (λ e. absurd (ground arith), are_ascii-NeverFf bytes (ground arith))

secret-NeverFf : NeverFf secret
secret-NeverFf = are_ascii-NeverFf secret refl

-- A credential with 256 more bytes passes.
longer_passes : constant_time_eq (secret ++ padding 256) secret ≡ true
unfolding constant_time_eq
longer_passes = refl

constant_time_eq_iff_example :
    (constant_time_eq (secret ++ padding 256) secret ≡ true)
    ↔ ((rest : List ℕ) × (secret ++ padding 256 ≡ secret ++ rest) × (length rest % 256 ≡ 0))
constant_time_eq_iff_example = constant_time_eq_iff (secret ++ padding 256) secret secret-NeverFf

-- An upgrade to "WebSocket" with the token in the query.
abbrev upgrade_request : ApiRequest
upgrade_request = record {
  authorization = none;
  upgrade = some (87 ∷ 101 ∷ 98 ∷ 83 ∷ 111 ∷ 99 ∷ 107 ∷ 101 ∷ 116 ∷ []);
  query = some ((token_key, 97 ∷ 98 ∷ []) ∷ []);
}

request_has_valid_api_auth_sound_example :
    Passes (bytes_or_empty upgrade_request.authorization) secret ⊎ HasToken upgrade_request secret
unfolding request_has_valid_api_auth
request_has_valid_api_auth_sound_example =
    request_has_valid_api_auth_sound upgrade_request secret secret-NeverFf refl
