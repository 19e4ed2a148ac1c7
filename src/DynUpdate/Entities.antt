-- ===== src/DynUpdate/Entities.antt =====
-- The statements for updates of loans, loan groups, investments and fixed assets that come from a
-- client: the builders of server/internal/sync/entity_ops.go, over payloads that JSON was read into.
use Prim.Native.String.{String}
use family_ledger.Base.{ℕ, Bool, true, false, Option, none, some}
use family_ledger.Base.Int.{ℤ, pos}
use family_ledger.Loan.Float.{Float}
use family_ledger.DynUpdate.{
  Builder, set, set_string, set_int_non_zero, set_float64_non_zero, build_or_no_op, Statement,
  ◌>>=◌, zero_builder,
}

pub data Value (Number : Type 0) : Type 0 where
  string : String → Value Number
  int64 : ℤ → Value Number
  int : ℤ → Value Number
  float64 : Number → Value Number
  uuid : ℕ → Value Number

pub record LoanPayload (Number : Type 0) : Type 0 where
  pub name : String
  pub loan_type : String
  pub principal : ℤ
  pub remaining_principal : ℤ
  pub annual_rate : Number
  pub total_months : ℤ
  pub paid_months : ℤ
  pub repayment_method : String
  pub payment_day : ℤ
  pub start_date : String
  pub account_id : String
  pub group_id : String

pub record LoanGroupPayload : Type 0 where
  pub name : String
  pub group_type : String
  pub total_principal : ℤ
  pub payment_day : ℤ
  pub start_date : String
  pub account_id : String

pub record InvestmentPayload (Number : Type 0) : Type 0 where
  pub symbol : String
  pub name : String
  pub market_type : String
  pub quantity : Option Number
  pub cost_basis : Option ℤ

pub record FixedAssetPayload : Type 0 where
  pub name : String
  pub asset_type : String
  pub purchase_price : ℤ
  pub current_value : ℤ
  pub purchase_date : String
  pub description : String

-- `p.Quantity != nil`
abbrev pub is_there : {A : Type 0} → Option A → Bool
is_there none = false
is_there (some a) = true

abbrev pub or_else : {A : Type 0} → A → Option A → A
or_else a none = a
or_else a (some b) = b

module _ (fl : Float) where
  -- `quantityOrZero` and `costBasisOrZero`
  abbrev pub quantity_or_zero : InvestmentPayload fl.Number → fl.Number
  quantity_or_zero p = or_else (fl.of_int (pos 0)) p.quantity

  abbrev pub cost_basis_or_zero : InvestmentPayload fl.Number → ℤ
  cost_basis_or_zero p = or_else (pos 0) p.cost_basis

  unfoldable pub loan_builder : LoanPayload fl.Number → Option (Builder (Value fl.Number))
  loan_builder p = do
    b ← set_string string "name" p.name zero_builder
    b ← set_int_non_zero int64 "remaining_principal" p.remaining_principal b
    b ← set_int_non_zero int "paid_months" p.paid_months b
    b ← set_float64_non_zero fl float64 "annual_rate" p.annual_rate b
    some b

  -- `applyLoanUpdate`
  unfoldable pub loan_update : LoanPayload fl.Number → ℕ → Option (Statement (Value fl.Number))
  loan_update p id = loan_builder p >>= build_or_no_op "loans" (uuid id)

  unfoldable pub loan_group_builder : LoanGroupPayload → Option (Builder (Value fl.Number))
  loan_group_builder p = do
    b ← set_string string "name" p.name zero_builder
    b ← set_int_non_zero int64 "total_principal" p.total_principal b
    some b

  -- `applyLoanGroupUpdate`
  unfoldable pub loan_group_update : LoanGroupPayload → ℕ → Option (Statement (Value fl.Number))
  loan_group_update p id = loan_group_builder p >>= build_or_no_op "loan_groups" (uuid id)

  unfoldable pub investment_builder :
      InvestmentPayload fl.Number → Option (Builder (Value fl.Number))
  investment_builder p = do
    b ← set_string string "name" p.name zero_builder
    b ← set "quantity" (float64 (quantity_or_zero p)) (is_there p.quantity) b
    b ← set "cost_basis" (int64 (cost_basis_or_zero p)) (is_there p.cost_basis) b
    some b

  -- `applyInvestmentUpdate`
  unfoldable pub investment_update :
      InvestmentPayload fl.Number → ℕ → Option (Statement (Value fl.Number))
  investment_update p id = investment_builder p >>= build_or_no_op "investments" (uuid id)

  unfoldable pub fixed_asset_builder : FixedAssetPayload → Option (Builder (Value fl.Number))
  fixed_asset_builder p = do
    b ← set_string string "name" p.name zero_builder
    b ← set_int_non_zero int64 "current_value" p.current_value b
    b ← set_string string "description" p.description b
    some b

  -- `applyFixedAssetUpdate`
  unfoldable pub fixed_asset_update : FixedAssetPayload → ℕ → Option (Statement (Value fl.Number))
  fixed_asset_update p id = fixed_asset_builder p >>= build_or_no_op "fixed_assets" (uuid id)
