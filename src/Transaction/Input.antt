-- ===== src/Transaction/Input.antt =====
-- What CreateTransaction takes, and validateCreateInput
-- (server/internal/transaction/create_pipeline.go).
use Prim.Native.String.{String, len}
use family_ledger.Base.{ℕ, false, Option, none, some, List, ltb, if◌then◌else◌}
use text.Mathlib.Text.{◌==◌ as str_eq}
use family_ledger.Base.Int.{ℤ, pos, ltb_ℤ, leb_ℤ}
use family_ledger.Db.{M, internal, invalid_argument, pure, raise, ◌>>=◌, ◌>>◌, raise_if, or_raise}
use family_ledger.Store.{is_empty, Uuid, TransactionKind, income, expense, Transaction, Store}
use family_ledger.Transaction.{
  Timestamp, Drawn, validate_txn_date, TransactionType, type_unspecified, type_income, type_expense,
}

-- `pb.CreateTransactionRequest`; `exchange_rate` is the bit pattern of a double.
pub record CreateTransactionRequest : Type 0 where
  pub account_id : String
  pub category_id : String
  pub amount : ℤ
  pub currency : String
  pub amount_cny : ℤ
  pub exchange_rate : ℕ
  pub type : TransactionType
  pub note : String
  pub txn_date : Option Timestamp
  pub tags : List String
  pub image_urls : List String

-- the double 1.0
abbrev pub rate_one : ℕ
rate_one = 4607182418800017408

abbrev pub kind_asked : TransactionType → TransactionKind
kind_asked type_income = income
kind_asked type_expense = expense
kind_asked type_unspecified = expense

abbrev pub currency_asked : String → String
currency_asked c = if is_empty c then "CNY" else c

-- the amount and the rate in CNY
unfoldable pub home_amount : CreateTransactionRequest → M Store (ℤ × ℕ)
home_amount req =
    if str_eq (currency_asked req.currency) "CNY"
    then pure (req.amount, rate_one)
    else if leb_ℤ req.amount_cny (pos 0)
    then raise invalid_argument
    else pure (req.amount_cny, req.exchange_rate)

unfoldable pub date_asked : Drawn → Option Timestamp → M Store ℤ
date_asked drawn none = pure drawn.now
date_asked drawn (some ts) = validate_txn_date drawn ts

-- `validateCreateInput`. Its `createRequest` is the row to insert, which has the category that was
-- asked for.
unfoldable pub validate_create_input :
    Uuid → Drawn → String → CreateTransactionRequest → M Store Transaction
unfolding home_amount date_asked
validate_create_input ids drawn user_id req = do
  uid ← or_raise (ids.parse user_id) internal
  account_id ← or_raise (ids.parse req.account_id) invalid_argument
  category_id ← or_raise (ids.parse req.category_id) invalid_argument
  raise_if (leb_ℤ req.amount (pos 0)) invalid_argument
  raise_if (ltb_ℤ (pos 99999999999) req.amount) invalid_argument
  raise_if (ltb 1000 (len req.note)) invalid_argument
  cny ← home_amount req
  txn_date ← date_asked drawn req.txn_date
  pure (record {
    id = drawn.new_id;
    user_id = uid;
    account_id = account_id;
    family_id = none;
    category_id = category_id;
    amount = req.amount;
    currency = currency_asked req.currency;
    amount_cny = cny.0;
    exchange_rate = cny.1;
    kind = kind_asked req.type;
    note = req.note;
    txn_date = txn_date;
    tags = req.tags;
    image_urls = req.image_urls;
    deleted = false;
  })
