-- ===== src/Account/Types.antt =====
-- The types of accounts (server/internal/account/service.go).
use family_ledger.Base.{◌≡◌, refl}
use family_ledger.Account.{
  AccountType, type_unspecified, cash, bank_card, credit_card, alipay, wechat_pay, investment,
  other, proto_type_to_string, string_to_proto_type,
}

abbrev pub or_cash : AccountType → AccountType
or_cash type_unspecified = cash
or_cash t = t

-- The type of an account comes back from the database as it was stored, an unspecified one as cash.
pub string_to_proto_type-roundtrip :
    (t : AccountType) → string_to_proto_type (proto_type_to_string t) ≡ or_cash t
unfolding proto_type_to_string string_to_proto_type
string_to_proto_type-roundtrip type_unspecified = refl
string_to_proto_type-roundtrip cash = refl
string_to_proto_type-roundtrip bank_card = refl
string_to_proto_type-roundtrip credit_card = refl
string_to_proto_type-roundtrip alipay = refl
string_to_proto_type-roundtrip wechat_pay = refl
string_to_proto_type-roundtrip investment = refl
string_to_proto_type-roundtrip other = refl
