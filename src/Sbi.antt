-- ===== src/Sbi.antt =====
-- What the firmware uses of the crate `rustsbi`: `SbiRet` and its constructors. They are a parameter
-- of the model, with the documented facts on their error codes as the record `IsSbi`.
use rustsbi_hifive_unmatched.Base.{ℕ, ◌-◌, ◌^◌, ◌≡◌, ◌≢◌, refl, arith}

pub record SbiRet : Type 0 where
  pub error : ℕ
  pub value : ℕ

pub record Sbi : Type 0 where
  pub ok : ℕ → SbiRet
  pub failed : SbiRet
  pub not_supported : SbiRet
  pub invalid_param : SbiRet
  pub already_available : SbiRet

-- Success carries its value under the error code 0; the other codes differ from it and from one
-- another, and none is the number that the firmware keeps for itself.
pub record IsSbi (sbi : Sbi) : Type 0 where
  pub ok_error : (v : ℕ) → (sbi.ok v).error ≡ 0
  pub ok_value : (v : ℕ) → (sbi.ok v).value ≡ v
  pub failed-ne-ok : sbi.failed.error ≢ 0
  pub not_supported-ne-ok : sbi.not_supported.error ≢ 0
  pub invalid_param-ne-ok : sbi.invalid_param.error ≢ 0
  pub already_available-ne-ok : sbi.already_available.error ≢ 0
  pub invalid_param-ne-already_available : sbi.invalid_param.error ≢ sbi.already_available.error
  pub failed-ne-resume : sbi.failed.error ≢ 0x233
  pub not_supported-ne-resume : sbi.not_supported.error ≢ 0x233
  pub invalid_param-ne-resume : sbi.invalid_param.error ≢ 0x233
  pub already_available-ne-resume : sbi.already_available.error ≢ 0x233

-- The codes of the SBI specification, as 64-bit two's complement.
abbrev pub spec_sbi : Sbi
spec_sbi = record {
  ok = λ v. record { error = 0; value = v };
  failed = record { error = 2 ^ 64 - 1; value = 0 };
  not_supported = record { error = 2 ^ 64 - 2; value = 0 };
  invalid_param = record { error = 2 ^ 64 - 3; value = 0 };
  already_available = record { error = 2 ^ 64 - 6; value = 0 };
}

pub spec_sbi-IsSbi : IsSbi spec_sbi
spec_sbi-IsSbi = record {
  ok_error = λ v. refl;
  ok_value = λ v. refl;
  failed-ne-ok = omega arith;
  not_supported-ne-ok = omega arith;
  invalid_param-ne-ok = omega arith;
  already_available-ne-ok = omega arith;
  invalid_param-ne-already_available = omega arith;
  failed-ne-resume = omega arith;
  not_supported-ne-resume = omega arith;
  invalid_param-ne-resume = omega arith;
  already_available-ne-resume = omega arith;
}
