-- ===== src/Api/Validator.antt =====
-- api/validator.go, but for the currency tag, which stands with the bindings; and
-- `validateUpdateUserRequest` of api/user.go.
use go2bank.Prelude.{
  ℕ, zero, suc, ◌+◌, ◌/◌, ◌%◌, String, len, Bool, true, not, ◌&&◌, ◌||◌, Option, none, some, List,
  [], ◌∷◌, ◌++◌, ltb, leb, ◌==◌, nat_eq, string_eq, if◌then◌else◌,
}
use go2bank.Api.Gin.{FieldViolation}
use go2bank.Token.{valid}
use Prim.Native.Char.{code}
use Prim.Native.String.{slice, ◌++◌ as append}

-- A decimal of at most `fuel` digits; the code prints numbers of at most 20.
digits : ℕ → ℕ → String
digits zero n = ""
digits (suc fuel) n =
    let rest = digits fuel (n / 10) in
    let last = slice "0123456789" (n % 10) (n % 10 + 1) in
    if ltb n 10 then last else append rest last

unfoldable pub decimal : ℕ → String
unfolding digits
decimal n = digits 20 n

range_text : ℕ → ℕ → String
range_text least most =
    append "must contain from "
      (append (decimal least) (append "-" (append (decimal most) " characters")))

-- `ValidateString`; `none` is a nil error. The length is in bytes.
unfoldable pub validate_string : String → ℕ → ℕ → Option String
unfolding range_text
validate_string value least most =
    if ltb (len value) least || ltb most (len value) then some (range_text least most) else none

abbrev in_range : ℕ → ℕ → ℕ → Bool
in_range low high c = leb low c && leb c high

-- `[a-z0-9_]`
abbrev pub is_username_code : ℕ → Bool
is_username_code c = in_range 97 122 c || in_range 48 57 c || c == 95

-- `[a-zA-Z\s]`
abbrev pub is_full_name_code : ℕ → Bool
is_full_name_code c =
    in_range 97 122 c || in_range 65 90 c || in_range 9 10 c || in_range 12 13 c || c == 32

unfoldable pub each_code : (ℕ → Bool) → String → Bool
each_code holds String.[] = true
each_code holds (String.◌∷◌ c s) = holds (code c) && each_code holds s

-- `^[a-z0-9_]+$`
abbrev pub is_valid_username : String → Bool
is_valid_username s = not (s == "") && each_code is_username_code s

-- `^[a-zA-Z\s]+$`
abbrev pub is_valid_full_name : String → Bool
is_valid_full_name s = not (s == "") && each_code is_full_name_code s

abbrev pub or_else : Option String → Bool → String → Option String
or_else (some e) valid text = some e
or_else none valid text = if valid then none else some text

-- `ValidateUsername`
unfoldable pub validate_username : String → Option String
validate_username value =
    or_else (validate_string value 3 100) (is_valid_username value)
      "must contain only lowercase letters, digits, or underscore"

-- `ValidateFullName`
unfoldable pub validate_full_name : String → Option String
validate_full_name value =
    or_else (validate_string value 3 100) (is_valid_full_name value)
      "must contain only letters or spaces"

-- `ValidatePassword`
unfoldable pub validate_password : String → Option String
validate_password value = validate_string value 6 100

-- `ValidateEmail`; `parses` is whether mail.ParseAddress takes the text.
unfoldable pub validate_email : (String → Bool) → String → Option String
validate_email parses value =
    or_else (validate_string value 3 200) (parses value) "is not a valid email address"

pub record UpdateUserRequest : Type 0 where
  pub username : String
  pub full_name : Option String
  pub email : Option String
  pub password : Option String

-- `GetFullName`, `GetEmail`, `GetPassword`: a nil pointer reads as "".
abbrev pub get_text : Option String → String
get_text none = ""
get_text (some s) = s

abbrev pub violation : String → Option String → List FieldViolation
violation field none = []
violation field (some text) = record { field = field; description = text } ∷ []

abbrev pub checked : (String → Option String) → Option String → Option String
checked check none = none
checked check (some s) = check s

-- `validateUpdateUserRequest`: the violations, in the order of the source.
unfoldable pub validate_update_user_request :
    (String → Bool) → UpdateUserRequest → List FieldViolation
validate_update_user_request parses req =
    violation "username" (validate_username req.username)
    ++ violation "password" (checked validate_password req.password)
    ++ violation "full_name" (checked validate_full_name req.full_name)
    ++ violation "email" (checked (validate_email parses) req.email)
