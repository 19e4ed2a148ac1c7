-- ===== src/DynUpdate/Examples.antt =====
-- Statements for a loan whose name, without its remaining principal, and whose paid months are to
-- be set, and tests.
use Prim.Native.String.{String}
use family_ledger.Base.Int.{ℤ, pos}
use family_ledger.Loan.Examples.{decimals}
use family_ledger.DynUpdate.Entities.{
  int, float64, LoanPayload, LoanGroupPayload, InvestmentPayload, FixedAssetPayload, loan_builder,
}
use family_ledger.DynUpdate.Updates.{Updates}
use family_ledger.Base.{◌≡◌, refl, true, false, none, some, List, [], ◌∷◌}
use family_ledger.DynUpdate.{
  is_valid_identifier, decimal, assignment, join, set, has_updates, build, build_no_op,
  build_or_no_op, set_string, set_int_non_zero, set_float64_non_zero, SetCall, set_all,
  update_statement, Statement, zero_builder,
}
use family_ledger.DynUpdate.Numbering.{
  enabled, PointsAt, statement_of, update_statement_lem, update_statement-PointsAt,
}

abbrev some_calls : List (SetCall String)
some_calls =
    record { column = "name"; value = "Home"; condition = true }
    ∷ record { column = "remaining_principal"; value = "0"; condition = false }
    ∷ record { column = "paid_months"; value = "12"; condition = true }
    ∷ []

abbrev loan_statement : Statement String
loan_statement = (
  "UPDATE loans SET name = $1, paid_months = $2, updated_at = NOW() WHERE id = $3 AND deleted_at IS NULL",
  "Home" ∷ "12" ∷ "loan-7" ∷ [],
  record {
    set_clauses = "name = $1" ∷ "paid_months = $2" ∷ [];
    args = "Home" ∷ "12" ∷ [];
    built = true;
  },
)

loan_statement_lem : update_statement some_calls "loans" "loan-7" ≡ some loan_statement
unfolding update_statement set_all set build_or_no_op has_updates build is_valid_identifier decimal
    assignment join
loan_statement_lem = refl

refused_column : set {A = String} "name = ''; --" "x" true zero_builder ≡ none
unfolding set is_valid_identifier
refused_column = refl

two_digits : decimal 120 ≡ "120"
unfolding decimal
two_digits = refl

-- Without a column the row is found by its id alone, deleted or not.
nothing_to_set :
    update_statement {A = String} [] "loans" "loan-7"
    ≡ some (
      "UPDATE loans SET updated_at = NOW() WHERE id = $1",
      "loan-7" ∷ [],
      record { set_clauses = []; args = []; built = true },
    )
unfolding update_statement set_all build_or_no_op has_updates build_no_op is_valid_identifier
nothing_to_set = refl

valid_loan_columns : is_valid_identifier "name" ≡ true
unfolding is_valid_identifier
valid_loan_columns = refl

update_statement_lem_example :
    update_statement some_calls "loans" "loan-7"
    ≡ some (statement_of (enabled some_calls) "loans" "loan-7")
unfolding is_valid_identifier
update_statement_lem_example = update_statement_lem some_calls "loans" "loan-7"

update_statement-PointsAt_example : PointsAt (enabled some_calls) "loans" "loan-7" loan_statement
update_statement-PointsAt_example =
    update_statement-PointsAt some_calls "loans" "loan-7" loan_statement loan_statement_lem

abbrev repaid_loan : LoanPayload ℤ
repaid_loan = record {
  name = "";
  loan_type = "mortgage";
  principal = pos 100000;
  remaining_principal = pos 0;
  annual_rate = pos 4500000;
  total_months = pos 12;
  paid_months = pos 12;
  repayment_method = "";
  payment_day = pos 1;
  start_date = "";
  account_id = "";
  group_id = "";
}

abbrev car_group : LoanGroupPayload
car_group = record {
  name = "Car";
  group_type = "";
  total_principal = pos 5000;
  payment_day = pos 5;
  start_date = "";
  account_id = "";
}

abbrev sold_holding : InvestmentPayload ℤ
sold_holding = record {
  symbol = "ACME";
  name = "";
  market_type = "us_stock";
  quantity = some (pos 0);
  cost_basis = some (pos 0);
}

abbrev written_off : FixedAssetPayload
written_off = record {
  name = "Bicycle";
  asset_type = "";
  purchase_price = pos 90000;
  current_value = pos 0;
  purchase_date = "";
  description = "stolen";
}

-- The payload says that nothing remains; the statement does not.
repaid_loan_columns :
    loan_builder decimals repaid_loan
    ≡ some (record {
      set_clauses = "paid_months = $1" ∷ "annual_rate = $2" ∷ [];
      args = int (pos 12) ∷ float64 (pos 4500000) ∷ [];
      built = false;
    })
unfolding loan_builder set_string set_int_non_zero set_float64_non_zero set is_valid_identifier
    decimal assignment
repaid_loan_columns = refl
