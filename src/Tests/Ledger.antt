-- ===== src/Tests/Ledger.antt =====
-- Tests of the ledger of wallets.
use entitle_hub.Base.{refl, none, some, true, [], ◌∷◌, List, arith}
use entitle_hub.Base.Int.{pos, negsuc, ◌+ℤ◌, neg, fits_i64}
use entitle_hub.Base.Rows.{find, exists, count, update}
use entitle_hub.Error.{ok}
use entitle_hub.Admin.{ensure_admin_permission}
use entitle_hub.Customer.{Customer, ensure_customer_exists}
use entitle_hub.Base.Text.{trim, is_empty, byte_len, has_code, trim_start, trim_end, is_whitespace}
use entitle_hub.Wallet.Admin.{
  adjust_ai_wallet, normalize_adjustment_amount, wrapping_abs, normalize_reason, normalize_name,
  open_wallet, update_wallet_balance_in_transaction,
}
use entitle_hub.Wallet.{
  ensure_wallet_exists, find_wallet_for_update, update_wallet, is_wallet_row, Books,
}
use entitle_hub.Wallet.Ledger.{LedgerIsExact, replay, IsSound, moves_money}
use entitle_hub.Wallet.Ledger.Transactions.{IsFresh}
use entitle_hub.Wallet.Ledger.Run.{Transaction, run, transact, AreSane, IsSane, run-LedgerIsExact}
use entitle_hub.Tests.{admin}
use entitle_hub.Tests.Books.{usage, books, model}

abbrev posted_books : Books
posted_books = record books {
  usages = usage ∷ [];
  ledger =
      record {
        wallet_id = 1;
        entry_type = "hold";
        amount_minor = pos 60;
        balance_after_minor = pos 100;
        held_after_minor = pos 60;
        reference_id = some 2;
      }
      ∷ record {
        wallet_id = 1;
        entry_type = "credit";
        amount_minor = pos 100;
        balance_after_minor = pos 100;
        held_after_minor = pos 0;
        reference_id = none;
      }
      ∷ [];
}

posted_books-LedgerIsExact : LedgerIsExact posted_books
unfolding find count replay IsSound moves_money ◌+ℤ◌
posted_books-LedgerIsExact = record {
  exact = λ id w e. ground arith;
  sound = (refl, (refl, tt));
  keyed = λ id. ground arith;
  nonnegative = (ground arith, tt);
}

abbrev pub customer : Customer
customer = record {
  id = 7;
  tenant_id = 1;
  email = "a@b.c";
  password_hash = some "hash";
  name = none;
  status = "active";
  email_verified = true;
  deleted_at = none;
}

abbrev transactions : List Transaction
transactions =
    Transaction.adjust admin 8 7 (record { amount_minor = negsuc 9; reason = "fee" }) (ok tt)
    ∷ Transaction.reserve 8 9 60 40 1 7 model (pos 10)
    ∷ Transaction.capture (some 2) (pos 30)
    ∷ []

transactions-AreSane : AreSane (customer ∷ []) posted_books transactions
unfolding AreSane IsSane IsFresh exists transact adjust_ai_wallet ensure_admin_permission
    normalize_adjustment_amount wrapping_abs normalize_reason normalize_name open_wallet
    ensure_customer_exists ensure_wallet_exists find_wallet_for_update find
    update_wallet_balance_in_transaction update_wallet is_wallet_row update ◌+ℤ◌ fits_i64 trim
    is_empty byte_len has_code trim_start trim_end is_whitespace neg
transactions-AreSane = ((refl, refl), (((refl, refl), ground arith), (tt, tt)))

run-LedgerIsExact_example : LedgerIsExact (run (customer ∷ []) posted_books transactions)
run-LedgerIsExact_example =
    run-LedgerIsExact (customer ∷ []) posted_books transactions posted_books-LedgerIsExact
      transactions-AreSane
