-- ===== src/Token/Sample.antt =====
-- A maker whose encryption is a table with one entry, for the tests.
use go2bank.Prelude.{
  String, ◌≡◌, refl, sym, ap, ◌⊎◌, inl, inr, Bool, true, false, ◌&&◌, some, arith, eq_iff, ◌==◌,
  nat_eq, string_eq, if◌then◌else◌, Bool-cases,
}
use go2bank.Prelude.Int.{ℤ, pos, negsuc}
use go2bank.Db.Error.{Error, no_rows}
use go2bank.Samples.{ann_payload}
use go2bank.Token.{Maker, Payload, Paseto}

abbrev at_900 : ℤ → Bool
at_900 (pos n) = n == 900
at_900 (negsuc _) = false

at_900_eq : (t : ℤ) → at_900 t ≡ true → t ≡ pos 900
at_900_eq (pos n) h = ap pos (ground arith)
at_900_eq (negsuc n) h = absurd (cc)

unfoldable pub is_ann : Payload → Bool
is_ann p =
    p.id == "t1"
    && p.username == "ann"
    && p.role == "depositor"
    && p.issued_at == 1
    && at_900 p.expired_at

payload_equal :
    (p : Payload)
    → p.id ≡ ann_payload.id
    → p.username ≡ ann_payload.username
    → p.role ≡ ann_payload.role
    → p.issued_at ≡ ann_payload.issued_at
    → p.expired_at ≡ ann_payload.expired_at
    → p ≡ ann_payload
payload_equal p a b c d e = cc

is_ann_fields :
    (p : Payload)
    → is_ann p ≡ true
    → (p.id ≡ "t1")
      × (p.username ≡ "ann")
      × (p.role ≡ "depositor")
      × (p.issued_at ≡ 1)
      × (p.expired_at ≡ pos 900)
unfolding is_ann
is_ann_fields p h = ground (
  arith,
  eq_iff p.id "t1",
  eq_iff p.username "ann",
  eq_iff p.role "depositor",
  at_900_eq p.expired_at,
)

abbrev pub seal_ann : Payload → String ⊎ Error
seal_ann p = if is_ann p then inl "sealed" else inr no_rows

is_ann-ann : is_ann ann_payload ≡ true
unfolding is_ann
is_ann-ann = refl

seals_ann : (p : Payload) (token : String) → seal_ann p ≡ inl token → is_ann p ≡ true
seals_ann p token h = elim (Bool-cases (is_ann p)) [ inl e ↦ e | inr e ↦ absurd (ground arith) ]

pub open_ann :
    (key : String) (p : Payload) (token : String)
    → seal_ann p ≡ inl token
    → some ann_payload ≡ some p
open_ann key p token h =
    let (a, b, c, d, e) = is_ann_fields p (seals_ann p token h) in
    ap some (sym (payload_equal p a b c d e))

abbrev pub toy : Paseto
toy = record {
  encrypt = λ _ p. seal_ann p;
  decrypt = λ _ _. some ann_payload;
  decrypt-encrypt = open_ann;
}

abbrev pub maker : Maker
maker = record { symmetric_key = "0123456789abcdef0123456789abcdef" }
