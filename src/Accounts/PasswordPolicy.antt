-- ===== src/Accounts/PasswordPolicy.antt =====
-- apps/api/src/auth/password-policy.ts, and its copy apps/web/app/password-policy.ts, which has the
-- message too. What the runtime does by the tables of Unicode is a record of functions.
pub mod Laws
use gamja_market.Base.{
  ℕ, zero, suc, ◌+◌, ◌*◌, ◌-◌, Bool, true, false, ◌&&◌, ◌||◌, not, Option, none, some, List, [],
  ◌∷◌, ◌++◌, map, ◌==◌, leb, ltb, length, if◌then◌else◌,
}
use gamja_market.Base.Text.{Text, text, text_eq, trim, is_space}

-- `normalize('NFKC')`, `toLowerCase()`, and `replace(/[^\p{L}\p{N}]/gu, '')`
pub record Unicode : Type 0 where
  pub nfkc : Text → Text
  pub lower : Text → Text
  pub letters : Text → Text

-- `COMMON_PASSWORD_PREFIXES`
unfoldable pub common_password_prefixes : List Text
common_password_prefixes =
    text "password"
    ∷ text "passw0rd"
    ∷ text "qwerty"
    ∷ text "letmein"
    ∷ text "welcome"
    ∷ text "admin"
    ∷ text "administrator"
    ∷ text "iloveyou"
    ∷ text "gamjamarket"
    ∷ text "potato"
    ∷ []

-- `PREDICTABLE_SEQUENCES`
unfoldable pub predictable_sequences : List Text
predictable_sequences =
    text "012345"
    ∷ text "123456"
    ∷ text "234567"
    ∷ text "345678"
    ∷ text "654321"
    ∷ text "543210"
    ∷ text "abcdef"
    ∷ text "fedcba"
    ∷ text "qwerty"
    ∷ text "asdfgh"
    ∷ text "zxcvbn"
    ∷ []

pub record PasswordPolicyResult : Type 0 where
  pub valid : Bool
  pub length_valid : Bool
  pub has_uppercase : Bool
  pub has_lowercase : Bool
  pub has_number : Bool
  pub has_special_character : Bool
  pub avoids_common_pattern : Bool
  pub avoids_repeated_run : Bool
  pub excludes_identifier : Bool

-- `some` and `filter` of an array
unfoldable pub any : {A : Type 0} → (A → Bool) → List A → Bool
any p [] = false
any p (x ∷ xs) = p x || any p xs

unfoldable pub keep : (ℕ → Bool) → Text → Text
keep p [] = []
keep p (c ∷ cs) = let rest = keep p cs in if p c then c ∷ rest else rest

unfoldable pub starts_with : Text → Text → Bool
starts_with s [] = true
starts_with [] (c ∷ cs) = false
starts_with (b ∷ bs) (c ∷ cs) = b == c && starts_with bs cs

-- `value.includes(part)`
unfoldable pub includes : Text → Text → Bool
unfolding starts_with
includes [] part = starts_with [] part
includes (c ∷ cs) part = starts_with (c ∷ cs) part || includes cs part

abbrev pub is_upper : ℕ → Bool
is_upper c = leb b'A' c && leb c b'Z'

abbrev pub is_lower : ℕ → Bool
is_lower c = leb b'a' c && leb c b'z'

abbrev pub is_digit : ℕ → Bool
is_digit c = leb b'0' c && leb c b'9'

-- `[^A-Za-z0-9\s]`
abbrev pub is_special : ℕ → Bool
is_special c = not (is_upper c || (is_lower c || (is_digit c || is_space c)))

-- `normalized.split('@')[0]`, which is the whole text when there is no `@`
unfoldable pub local_part : Text → Text
local_part [] = []
local_part (c ∷ cs) = let rest = local_part cs in if c == b'@' then [] else c ∷ rest

abbrev pub is_high : ℕ → Bool
is_high c = leb 55296 c && leb c 56319

abbrev pub is_low : ℕ → Bool
is_low c = leb 56320 c && leb c 57343

-- The code point of a pair of surrogates, and of one code unit.
abbrev pub join_point : ℕ → List ℕ → List ℕ
join_point c [] = c ∷ []
join_point c (d ∷ ds) =
    if is_high c && is_low d then (65536 + (c - 55296) * 1024 + (d - 56320)) ∷ ds else c ∷ d ∷ ds

-- The code points of a text, as the `u` flag reads them.
unfoldable pub code_points : Text → List ℕ
code_points [] = []
code_points (c ∷ cs) = join_point c (code_points cs)

-- What `.` does not match.
abbrev pub is_line_end : ℕ → Bool
is_line_end c = c == 10 || (c == 13 || (c == 8232 || c == 8233))

-- `/(.)\1{3,}/u` here: the next four code points are the same.
abbrev pub starts_run : List ℕ → Bool
starts_run (a ∷ b ∷ c ∷ d ∷ rest) = not (is_line_end a) && (a == b && (a == c && a == d))
starts_run _ = false

unfoldable pub has_run : List ℕ → Bool
has_run [] = false
has_run (c ∷ cs) = starts_run (c ∷ cs) || has_run cs

module _ (unicode : Unicode) where
  unfoldable pub compact : Text → Text
  compact value = unicode.letters (unicode.lower (unicode.nfkc value))

  -- The tokens of one identifier.
  unfoldable pub tokens_of : Text → List Text
  unfolding compact keep local_part
  tokens_of value =
      let normalized = trim (unicode.lower (unicode.nfkc value)) in
      let compact_value = compact (local_part normalized) in
      let digits = keep is_digit normalized in
      (if leb 4 (length compact_value) then compact_value ∷ [] else [])
      ++ (if leb 8 (length digits) then digits ∷ [] else [])

  -- A set there: only whether a token is in the password is asked of it.
  unfoldable pub identifier_tokens : List Text → List Text
  unfolding tokens_of
  identifier_tokens [] = []
  identifier_tokens (value ∷ identifiers) = tokens_of value ++ identifier_tokens identifiers

  unfoldable pub evaluate_password : Text → List Text → PasswordPolicyResult
  unfolding any
  evaluate_password password identifiers =
      let compact_password = compact password in
      let length_valid = leb 12 (length password) && leb (length password) 128 in
      let has_uppercase = any is_upper password in
      let has_lowercase = any is_lower password in
      let has_number = any is_digit password in
      let has_special_character = any is_special password in
      let avoids_common_pattern =
        not (any (includes compact_password) common_password_prefixes)
        && not (any (includes compact_password) predictable_sequences) in
      let avoids_repeated_run = not (has_run (code_points password)) in
      let excludes_identifier =
        not (any (includes compact_password) (identifier_tokens identifiers)) in
      record {
        valid =
            length_valid
            && (has_uppercase
                && (has_lowercase
                    && (has_number
                        && (has_special_character
                            && (avoids_common_pattern
                                && (avoids_repeated_run && excludes_identifier))))));
        length_valid = length_valid;
        has_uppercase = has_uppercase;
        has_lowercase = has_lowercase;
        has_number = has_number;
        has_special_character = has_special_character;
        avoids_common_pattern = avoids_common_pattern;
        avoids_repeated_run = avoids_repeated_run;
        excludes_identifier = excludes_identifier;
      }

-- `passwordPolicyMessage` of the web application
unfoldable pub password_policy_message : PasswordPolicyResult → Text
password_policy_message result =
    if not result.length_valid
    then text "비밀번호는 12~128자로 입력해 주세요."
    else if not result.has_uppercase
    then text "비밀번호에 영문 대문자를 1자 이상 포함해 주세요."
    else if not result.has_lowercase
    then text "비밀번호에 영문 소문자를 1자 이상 포함해 주세요."
    else if not result.has_number
    then text "비밀번호에 숫자를 1자 이상 포함해 주세요."
    else if not result.has_special_character
    then text "비밀번호에 공백이 아닌 특수문자를 1자 이상 포함해 주세요."
    else if not result.avoids_common_pattern
    then text "흔한 단어나 연속된 문자열을 비밀번호로 사용할 수 없습니다."
    else if not result.avoids_repeated_run
    then text "같은 문자를 4번 이상 연속해서 사용할 수 없습니다."
    else if not result.excludes_identifier
    then text "이메일 아이디나 휴대전화 번호를 비밀번호에 포함할 수 없습니다."
    else []
