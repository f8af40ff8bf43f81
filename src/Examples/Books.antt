-- ===== src/Examples/Books.antt =====
-- The theorems on the entries of the finance extension, on Amy's and Bea's.
use eggy.Prelude.{ℕ, ◌≡◌, ◌≢◌, refl, String, true, none, some, List, [], ◌∷◌, arith, eq_iff}
use eggy.Prelude.Dict.{get}
use eggy.Prelude.Result.{ok, ok-injective}
use eggy.Money.{parse_amount}
use eggy.Text.{codes}
use eggy.Context.{account_of}
use eggy.Finance.{expense}
use eggy.Finance.Dates.{is_date}
use eggy.Finance.Entries.{FinanceInput, FinancePatch, Options, accepts, chat}
use eggy.Finance.Ledger.{Ledger, Access, acting, find_row}
use eggy.Finance.Service.{FinanceCall, logs, patches, removes, renames, step, run}
use eggy.Finance.Books.{AllValid}
use eggy.Finance.Restated.{Accounts}
use eggy.Finance.Accounted.{run-Accounted}
use eggy.Finance.Private.{Same}
use eggy.Finance.Isolated.{step-Same}

abbrev options : Options
options = record {
  currencies = "SGD" ∷ "USD" ∷ [];
  default_currency = "SGD";
  today = λ now. codes "2026-10-02";
  trim_id = λ id. id;
  lower = λ c. c;
  upper = λ c. c;
}

abbrev by_account : String → Access
by_account account = record {
  ctx = record { failure = none; principal = some account; destination = none };
  fault = none;
}

abbrev lunch : FinanceInput
lunch = record {
  kind = [];
  date = [];
  amount = codes "14.50";
  currency = [];
  category = codes "food";
  merchant = [];
  note = [];
  source = [];
}

abbrev in_dollars : FinancePatch
in_dollars = record {
  kind = none;
  date = none;
  amount = some (codes "11");
  currency = some (codes "USD");
  category = none;
  merchant = none;
  note = none;
}

abbrev no_rows : Ledger
no_rows = record { rows = []; colors = [] }

abbrev calls : List FinanceCall
calls =
    logs (by_account "amy") "e1" 4 5 lunch
    ∷ logs (by_account "bea") "e2" 6 6 lunch
    ∷ patches (by_account "amy") "e1" 7 in_dollars
    ∷ renames (by_account "amy") (by_account "amy") (codes "food") (codes "meals")
    ∷ []

accepted : accepts options ≡ true
unfolding accepts get
accepted = refl

dated : (now : ℕ) → is_date (options.today now) ≡ true
unfolding is_date
dated now = refl

run-Accounted_example :
    AllValid options accepted dated (run options no_rows calls).rows
    × Accounts options no_rows calls
run-Accounted_example = run-Accounted options accepted dated no_rows calls tt

abbrev booked : Ledger
booked = run options no_rows calls

amount_in_dollars :
    find_row booked.rows "amy" "e1"
    ≡ some (record {
      id = "e1";
      kind = expense;
      occurred_on = codes "2026-10-02";
      amount_minor = 1100;
      currency = "USD";
      category = codes "meals";
      merchant = [];
      note = [];
      source = chat;
      created_at = 5;
      updated_at = 7;
    })
unfolding run find_row account_of parse_amount get
amount_in_dollars = refl

not_bea : acting (by_account "amy") ≢ ok "bea"
unfolding acting account_of
not_bea h = ground (arith, (eq_iff "amy" "bea").1 (ok-injective "amy" "bea" h))

step-Same_example : Same "bea" booked (step options booked (removes (by_account "amy") "e1"))
step-Same_example = step-Same options "bea" booked (removes (by_account "amy") "e1") not_bea
