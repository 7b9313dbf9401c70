-- ===== src/Token/Tests.antt =====
-- A token is made and verified.
use go2bank.Prelude.{ℕ, ◌≡◌, refl, inl, some, arith}
use go2bank.Prelude.Int.{pos, negsuc, ◌+ℤ◌, ltb_ℤ, leb_ℤ}
use go2bank.Db.Error.{no_rows}
use go2bank.Samples.{ann_payload}
use go2bank.Token.{
  valid, new_payload, err_expired_token, create_token, verify_token, verify_token-create_token,
}
use go2bank.Token.Sample.{maker, toy, is_ann}

created :
    create_token toy maker "ann" "depositor" (pos 895) (some "t1") no_rows 1 5
    ≡ inl ("sealed", ann_payload)
unfolding create_token is_ann ◌+ℤ◌
created = refl

verify_token-create_token_example :
    (ann_payload.username ≡ "ann")
    × (ann_payload.role ≡ "depositor")
    × (verify_token toy maker 800 "sealed" ≡ inl ann_payload)
unfolding leb_ℤ ◌+ℤ◌
verify_token-create_token_example =
    verify_token-create_token toy maker "ann" "depositor" (pos 895) "t1" no_rows 1 5 800 "sealed"
      ann_payload created

-- A token with a negative duration has expired when it is made.
made_expired :
    new_payload "ann" "depositor" (negsuc 59) (some "t1") no_rows 1 5
    ≡ inl (record {
      id = "t1";
      username = "ann";
      role = "depositor";
      issued_at = 1;
      expired_at = negsuc 54;
    })
unfolding new_payload ◌+ℤ◌
made_expired = refl

stays_expired :
    (now : ℕ) → valid now (record ann_payload { expired_at = negsuc 54 }) ≡ some err_expired_token
unfolding valid ltb_ℤ
stays_expired now = ground arith
