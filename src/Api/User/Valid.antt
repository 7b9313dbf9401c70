-- ===== src/Api/User/Valid.antt =====
-- The values that `validateUpdateUserRequest` lets through.
use go2bank.Prelude.{
  ℕ, ◌≤◌, String, len, ◌≡◌, refl, inl, inr, Bool, true, false, ◌||◌, Option, none, some, List, [],
  ◌∷◌, ◌++◌, arith, ltb, if◌then◌else◌, Bool-cases,
}
use go2bank.Api.Gin.{FieldViolation}
use go2bank.Api.User.{is_clean}
use go2bank.Api.Validator.{
  validate_username, validate_update_user_request, validate_email, checked, validate_password,
  validate_full_name, violation, is_valid_full_name, UpdateUserRequest, or_else, is_valid_username,
  validate_string,
}
use go2bank.Token.{valid}

-- The length is in bytes.
abbrev pub HasLength : ℕ → ℕ → String → Type 0
HasLength least most s = (least ≤ len s) × (len s ≤ most)

abbrev pub IfGiven : Option String → (String → Type 0) → Type 0
IfGiven none P = Unit
IfGiven (some s) P = P s

pub record IsValidUpdate (parses : String → Bool) (req : UpdateUserRequest) : Type 0 where
  pub username : HasLength 3 100 req.username × (is_valid_username req.username ≡ true)
  pub password : IfGiven req.password (HasLength 6 100)
  pub full_name : IfGiven req.full_name (λ s. HasLength 3 100 s × (is_valid_full_name s ≡ true))
  pub email : IfGiven req.email (λ s. HasLength 3 200 s × (parses s ≡ true))

validate_string-length :
    (s : String) (least most : ℕ) → validate_string s least most ≡ none → HasLength least most s
unfolding validate_string
validate_string-length s least most h = elim (Bool-cases (ltb (len s) least || ltb most (len s))) [
  | inl bad ↦ absurd (let e = rw (bad, if◌then◌else◌) at h in cc)
  | inr good ↦ (ground (arith, good), ground (arith, good))
]

or_else-none :
    (o : Option String) (valid : Bool) (line : String)
    → or_else o valid line ≡ none
    → (o ≡ none) × (valid ≡ true)
or_else-none none true line h = (refl, refl)
or_else-none none false line h = absurd (cc)
or_else-none (some e) valid line h = absurd (cc)

no_violation : (field : String) (o : Option String) → violation field o ≡ [] → o ≡ none
no_violation field none h = refl
no_violation field (some line) h = absurd (cc)

all_nil :
    {A : Type 0} (a b c d : List A)
    → a ++ b ++ c ++ d ≡ []
    → (a ≡ []) × (b ≡ []) × (c ≡ []) × (d ≡ [])
all_nil [] [] [] d h = (refl, refl, refl, h)
all_nil [] [] (x ∷ c) d h = absurd (cc)
all_nil [] (x ∷ b) c d h = absurd (cc)
all_nil (x ∷ a) b c d h = absurd (cc)

is_clean-nil : (vs : List FieldViolation) → is_clean vs ≡ true → vs ≡ []
is_clean-nil [] h = refl
is_clean-nil (v ∷ vs) h = absurd (cc)

-- A check of a text that passes, with its length and its pattern.
or_else-valid :
    (s : String) (least most : ℕ) (valid : Bool) (line : String)
    → or_else (validate_string s least most) valid line ≡ none
    → HasLength least most s × (valid ≡ true)
or_else-valid s least most valid line h =
    let (a, b) = or_else-none (validate_string s least most) valid line h in
    (validate_string-length s least most a, b)

password-valid :
    (o : Option String) → checked validate_password o ≡ none → IfGiven o (HasLength 6 100)
unfolding validate_password
password-valid none h = tt
password-valid (some s) h = validate_string-length s 6 100 h

full_name-valid :
    (o : Option String)
    → checked validate_full_name o ≡ none
    → IfGiven o (λ s. HasLength 3 100 s × (is_valid_full_name s ≡ true))
unfolding validate_full_name
full_name-valid none h = tt
full_name-valid (some s) h = or_else-valid s 3 100 (is_valid_full_name s) _ h

email-valid :
    (parses : String → Bool) (o : Option String)
    → checked (validate_email parses) o ≡ none
    → IfGiven o (λ s. HasLength 3 200 s × (parses s ≡ true))
unfolding validate_email
email-valid parses none h = tt
email-valid parses (some s) h = or_else-valid s 3 200 (parses s) _ h

pub validate-IsValidUpdate :
    (parses : String → Bool) (req : UpdateUserRequest)
    → is_clean (validate_update_user_request parses req) ≡ true
    → IsValidUpdate parses req
unfolding validate_update_user_request validate_username
validate-IsValidUpdate parses req h =
    let (u, p, f, e) =
      all_nil (violation "username" (validate_username req.username))
        (violation "password" (checked validate_password req.password))
        (violation "full_name" (checked validate_full_name req.full_name))
        (violation "email" (checked (validate_email parses) req.email))
        (is_clean-nil (validate_update_user_request parses req) h) in
    record {
      username =
          or_else-valid req.username 3 100 (is_valid_username req.username)
            "must contain only lowercase letters, digits, or underscore"
            (no_violation "username" _ u);
      password = password-valid req.password (no_violation "password" _ p);
      full_name = full_name-valid req.full_name (no_violation "full_name" _ f);
      email = email-valid parses req.email (no_violation "email" _ e);
    }
