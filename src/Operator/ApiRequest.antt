-- ===== src/Operator/ApiRequest.antt =====
-- Which requests the operator's API lets in: `request_has_valid_api_auth` of
-- auspex-operator/src/main.rs. Texts are lists of bytes; the headers, and the pairs that
-- `url::form_urlencoded` reads from the query, are the request.
use auspex.Prelude.{
  ℕ, ◌+◌, ◌%◌, ◌≡◌, ◌⊎◌, inl, inr, refl, ap, subst, Bool, true, false, not, ◌&&◌, ◌||◌, Option,
  none, some, List, [], ◌∷◌, ◌++◌, map, leb, ◌==◌, if◌then◌else◌, any, length, arith, Bool-cases,
  Option-cases,
}
use auspex.Operator.ApiAuth.{NeverFf, constant_time_eq, constant_time_eq_iff}

pub record ApiRequest : Type 0 where
  pub authorization : Option (List ℕ)
  pub upgrade : Option (List ℕ)
  pub query : Option (List (List ℕ × List ℕ))

unfoldable pub bytes_eq : List ℕ → List ℕ → Bool
bytes_eq [] [] = true
bytes_eq [] (e ∷ expected) = false
bytes_eq (a ∷ actual) [] = false
bytes_eq (a ∷ actual) (e ∷ expected) = let rest = bytes_eq actual expected in (a == e) && rest

unfoldable pub strip_bytes : List ℕ → List ℕ → Option (List ℕ)
strip_bytes s [] = some s
strip_bytes [] (p ∷ prefix) = none
strip_bytes (b ∷ s) (p ∷ prefix) = let rest = strip_bytes s prefix in if b == p then rest else none

-- `b"Bearer "`
abbrev pub bearer : List ℕ
bearer = 66 ∷ 101 ∷ 97 ∷ 114 ∷ 101 ∷ 114 ∷ 32 ∷ []

-- `b"websocket"`
abbrev pub websocket : List ℕ
websocket = 119 ∷ 101 ∷ 98 ∷ 115 ∷ 111 ∷ 99 ∷ 107 ∷ 101 ∷ 116 ∷ []

-- `b"token"` and `b"access_token"`
abbrev pub token_key : List ℕ
token_key = 116 ∷ 111 ∷ 107 ∷ 101 ∷ 110 ∷ []

abbrev pub access_token_key : List ℕ
access_token_key = 97 ∷ 99 ∷ 99 ∷ 101 ∷ 115 ∷ 115 ∷ 95 ∷ token_key

abbrev lower_byte : ℕ → ℕ
lower_byte b = if leb 65 b && leb b 90 then b + 32 else b

unfoldable pub is_websocket : Option (List ℕ) → Bool
unfolding bytes_eq
is_websocket none = false
is_websocket (some value) = bytes_eq (map lower_byte value) websocket

unfoldable pub is_token_pair : List ℕ → List ℕ × List ℕ → Bool
unfolding bytes_eq constant_time_eq
is_token_pair token pair =
    (bytes_eq pair.0 access_token_key || bytes_eq pair.0 token_key) && constant_time_eq pair.1 token

abbrev pub bytes_or_empty : Option (List ℕ) → List ℕ
bytes_or_empty none = []
bytes_or_empty (some bytes) = bytes

abbrev pairs_or_empty : Option (List (List ℕ × List ℕ)) → List (List ℕ × List ℕ)
pairs_or_empty none = []
pairs_or_empty (some pairs) = pairs

-- The token in the query, behind the test of the upgrade
unfoldable pub has_valid_query_token : ApiRequest → List ℕ → Bool
unfolding is_token_pair strip_bytes
has_valid_query_token request expected = elim (strip_bytes expected bearer) [
  | none ↦ false
  | some token ↦ any (is_token_pair token) (pairs_or_empty request.query)
]

unfoldable pub request_has_valid_api_auth : ApiRequest → List ℕ → Bool
unfolding constant_time_eq is_websocket has_valid_query_token
request_has_valid_api_auth request expected =
    if constant_time_eq (bytes_or_empty request.authorization) expected
    then true
    else if not (is_websocket request.upgrade)
    then false
    else has_valid_query_token request expected

-- The credential that the comparison lets pass: the expected one, and maybe a multiple of 256 bytes.
abbrev pub Passes : List ℕ → List ℕ → Type 0
Passes actual expected = (rest : List ℕ) × (actual ≡ expected ++ rest) × (length rest % 256 ≡ 0)

strip_bytes_lem : (s prefix rest : List ℕ) → strip_bytes s prefix ≡ some rest → s ≡ prefix ++ rest
unfolding strip_bytes
strip_bytes_lem s [] rest h = cc h
strip_bytes_lem [] (p ∷ prefix) rest h = ground arith
strip_bytes_lem (b ∷ s) (p ∷ prefix) rest h = ground (arith, strip_bytes_lem s prefix rest)

NeverFf-append : (xs ys : List ℕ) → NeverFf (xs ++ ys) → NeverFf ys
NeverFf-append [] ys h = h
NeverFf-append (x ∷ xs) ys h = NeverFf-append xs ys h.1

-- An item of a list that satisfies a test
pub record Found (p : List ℕ × List ℕ → Bool) (xs : List (List ℕ × List ℕ)) : Type 0 where
  pub before : List (List ℕ × List ℕ)
  pub item : List ℕ × List ℕ
  pub behind : List (List ℕ × List ℕ)
  pub split : xs ≡ before ++ item ∷ behind
  pub holds : p item ≡ true

any-Found :
    (p : List ℕ × List ℕ → Bool) (xs : List (List ℕ × List ℕ)) → any p xs ≡ true → Found p xs
any-Found p [] h = absurd (ground arith)
any-Found p (x ∷ xs) h = elim (Bool-cases (p x)) [
  | inl here ↦ record { before = []; item = x; behind = xs; split = refl; holds = here }
  | inr other ↦
      let found = any-Found p xs (ground arith) in
      record {
        before = x ∷ found.before;
        item = found.item;
        behind = found.behind;
        split = ap (λ l. x ∷ l) found.split;
        holds = found.holds;
      }
]

-- What the query of a request has, when it is let in without the header.
pub record HasToken (request : ApiRequest) (expected : List ℕ) : Type 0 where
  pub upgrades : is_websocket request.upgrade ≡ true
  pub token : List ℕ
  pub of_bearer : expected ≡ bearer ++ token
  pub found : Found (is_token_pair token) (pairs_or_empty request.query)
  pub is_key : (bytes_eq found.item.0 access_token_key || bytes_eq found.item.0 token_key) ≡ true
  pub passes : Passes found.item.1 token

has_valid_query_token-HasToken :
    (request : ApiRequest) (expected : List ℕ)
    → NeverFf expected
    → is_websocket request.upgrade ≡ true
    → has_valid_query_token request expected ≡ true
    → HasToken request expected
unfolding has_valid_query_token is_token_pair
has_valid_query_token-HasToken request expected u w h =
    elim (Option-cases (strip_bytes expected bearer)) [
      | inl missing ↦ absurd (ground arith)
      | inr (token, e) ↦
          let found =
            any-Found (is_token_pair token) (pairs_or_empty request.query) (ground arith) in
          let of_bearer = strip_bytes_lem expected bearer token e in
          let ascii : NeverFf token = NeverFf-append bearer token (subst NeverFf of_bearer u) in
          record {
            upgrades = w;
            token = token;
            of_bearer = of_bearer;
            found = found;
            is_key = ground (arith, found.holds);
            passes =
                (constant_time_eq_iff found.item.1 token ascii).0 (ground (arith, found.holds));
          }
    ]

-- A request that the API lets in, when the expected header is in UTF-8, has a header that passes the
-- comparison with the expected one; or it asks to upgrade to a websocket, the expected header is a
-- bearer token, and the query has this token under one of the two keys for it.
pub request_has_valid_api_auth_sound :
    (request : ApiRequest) (expected : List ℕ)
    → NeverFf expected
    → request_has_valid_api_auth request expected ≡ true
    → Passes (bytes_or_empty request.authorization) expected ⊎ HasToken request expected
unfolding request_has_valid_api_auth
request_has_valid_api_auth_sound request expected u h =
    let header = bytes_or_empty request.authorization in
    elim (Bool-cases (constant_time_eq header expected)) [
      | inl same ↦ inl ((constant_time_eq_iff header expected u).0 same)
      | inr other ↦ elim (Bool-cases (is_websocket request.upgrade)) [
        | inr plain ↦ absurd (ground arith)
        | inl w ↦ inr (has_valid_query_token-HasToken request expected u w (ground arith))
      ]
    ]
