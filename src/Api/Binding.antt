-- ===== src/Api/Binding.antt =====
-- The requests of the handlers and the `binding` tags on their fields. The tags that stand for a
-- pattern of the library validator are arguments; `required`, `min`, `max` and `gt` are written out.
-- A body that does not decode is `none`.
use go2bank.Prelude.{
  ℕ, String, count, Bool, not, ◌&&◌, Option, none, some, leb, ◌==◌, nat_eq, string_eq,
  if◌then◌else◌,
}
use go2bank.Prelude.Int.{ℤ, pos_part, leb_ℤ}
use go2bank.Token.{valid}
use go2bank.Api.Gin.{Handler, done, respond, error}
use go2bank.Db.Error.{invalid_request}
use go2bank.Util.{is_supported_currency}

pub record Validator : Type 0 where
  pub alphanum : String → Bool
  pub numeric : String → Bool
  pub email : String → Bool

abbrev pub required : String → Bool
required s = not (s == "")

abbrev pub at_least : ℤ → ℤ → Bool
at_least least n = leb_ℤ least n

-- An id that has passed `required,min=1`.
abbrev pub to_id : ℤ → ℕ
to_id n = pos_part n

-- `required,min=6,max=6,numeric`
unfoldable pub is_otp : Validator → String → Bool
is_otp v s = required s && leb 6 (count s) && leb (count s) 6 && v.numeric s

-- `required,currency`
unfoldable pub is_currency : String → Bool
is_currency s = required s && is_supported_currency s

-- `ShouldBindJSON`, `ShouldBindUri`, `ShouldBindQuery`, with the answer 400 where they fail.
unfoldable pub should_bind : {S A : Type 0} → (A → Bool) → Option A → Handler S A
should_bind valid none = respond 400 (error invalid_request)
should_bind valid (some req) = if valid req then done req else respond 400 (error invalid_request)
