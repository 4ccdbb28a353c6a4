-- ===== src/Http/Ledger/Laws.antt =====
-- backend/src/http.rs: a snapshot of the ledger agrees with what the caps on requests go by.
use shuestand.Prelude.{ℕ, ◌+◌, ◌-◌, ◌≡◌, refl, Option, List}
use shuestand.Prelude.Int.{sub_ℕ, sub_ℕ-add}
use shuestand.Failure.{pass}
use shuestand.Run.Holds.{Holds, Holds-bind, Holds-pure, Holds-passed}
use shuestand.Db.Tables.{Tables}
use shuestand.Db.Deposits.{reserved_cashu_deposit_sats}
use shuestand.Db.Withdrawals.{reserved_onchain_withdrawal_sats}
use shuestand.Db.Ledger.{
  StateLiabilityRow, ledger_deposit_liabilities, ledger_withdrawal_liabilities,
}
use shuestand.Http.Access.{OperatorHeaders, require_operator_token}
use shuestand.Http.Deposits.{expire_stale}
use shuestand.Http.Site.{Site, selected}
use shuestand.Http.Site.Any.{Any, unasked-Holds}
use shuestand.Http.Ledger.{
  LedgerSettings, CashuAssetBreakdown, OnchainAssetBreakdown, cashu_assets, onchain_assets,
  cashu_ledger, onchain_ledger, totals_of, snapshot_of, LedgerSnapshot, get_ledger_snapshot,
  BalanceSummary, CashuWallet,
}
use shuestand.Http.Ledger.Sums.{pending_sats, cashu_total, onchain_total}

-- A snapshot agrees with the tables: its liabilities are what the caps go by, but for the rows that
-- wait for their first payment, and its nets are the assets less the liabilities.
pub record Agrees (snapshot : LedgerSnapshot) (t : Tables) : Type 0 where
  pub cashu_owed : snapshot.cashu.total_sats ≡ pending_sats t + reserved_cashu_deposit_sats t
  pub onchain_owed :
      snapshot.onchain.total_sats + snapshot.onchain.funding.amount_sats
      ≡ reserved_onchain_withdrawal_sats t
  pub balanced :
      snapshot.totals.net_sats ≡ sub_ℕ snapshot.totals.assets_sats snapshot.totals.liabilities_sats

-- The net of the totals, of any rows.
nets :
    (ca : CashuAssetBreakdown) (oa : OnchainAssetBreakdown) (ds ws : List StateLiabilityRow)
    → (totals_of (cashu_ledger ca ds) (onchain_ledger oa ws)).net_sats ≡ (
        let t = totals_of (cashu_ledger ca ds) (onchain_ledger oa ws) in
        sub_ℕ t.assets_sats t.liabilities_sats)
unfolding totals_of cashu_ledger onchain_ledger
nets ca oa ds ws =
    sub_ℕ-add ca.available_sats (cashu_ledger ca ds).total_sats oa.available_sats
      (onchain_ledger oa ws).total_sats

agreed :
    (now target : ℕ) (ca : CashuAssetBreakdown) (oa : OnchainAssetBreakdown) (t : Tables)
    → Agrees
        (snapshot_of now target
          (cashu_ledger ca (ledger_deposit_liabilities t))
          (onchain_ledger oa (ledger_withdrawal_liabilities t)))
        t
unfolding totals_of
agreed now target ca oa t = record {
  cashu_owed = cashu_total ca t;
  onchain_owed = onchain_total oa t;
  balanced = nets ca oa (ledger_deposit_liabilities t) (ledger_withdrawal_liabilities t);
}

selected-Holds :
    {A : Type 0} (f : Tables → A) (P : Site → Type 0)
    → Holds P (λ a s. (a ≡ f s.tables) × P s) Any (selected f)
unfolding selected
selected-Holds f P = record { leads = λ s h. (refl, h) }

snapshot-Holds :
    (settings : LedgerSettings) (headers : OperatorHeaders) (now : ℕ)
    (onchain : Option (Option BalanceSummary)) (cashu : Option CashuWallet)
    → Holds Any
        (λ snapshot s. Agrees snapshot s.tables)
        Any
        (get_ledger_snapshot settings headers now onchain cashu)
unfolding get_ledger_snapshot
snapshot-Holds settings headers now onchain cashu =
    Holds-bind (λ u s. Any s) (require_operator_token settings.access headers now) _
      (unasked-Holds _)
      λ u.
        Holds-bind (λ u s. Any s) (expire_stale (now - settings.pending_deposit_ttl) now) _
          (unasked-Holds _)
          λ u.
            Holds-bind (λ oa s. Any s) (onchain_assets onchain) _ (unasked-Holds _)
              λ oa.
                Holds-bind (λ ca s. Any s) (cashu_assets cashu) _ (unasked-Holds _)
                  λ ca.
                    Holds-bind (λ ds s. (ds ≡ ledger_deposit_liabilities s.tables) × Any s)
                      (selected ledger_deposit_liabilities) _ (selected-Holds _ Any)
                      λ ds.
                        Holds-bind
                          (λ ws s.
                            (ws ≡ ledger_withdrawal_liabilities s.tables)
                            × ((ds ≡ ledger_deposit_liabilities s.tables) × Any s))
                          (selected ledger_withdrawal_liabilities) _ (selected-Holds _ _)
                          λ ws. Holds-pure _ (λ s h.
                            rw (h.0, h.1.0) (agreed now settings.float_target_sats ca oa s.tables))

-- A snapshot that is answered agrees with the tables as the call left them: the ecash owed is what
-- the cap on deposits reserves and the pending deposits beside it, what is owed on chain is what the
-- cap on withdrawals reserves less the withdrawals that wait for their funding, and the net of the
-- totals is the assets less the liabilities.
pub get_ledger_snapshot-Agrees :
    (settings : LedgerSettings) (headers : OperatorHeaders) (now : ℕ)
    (onchain : Option (Option BalanceSummary)) (cashu : Option CashuWallet) (s : Site)
    (snapshot : LedgerSnapshot)
    → (get_ledger_snapshot settings headers now onchain cashu s).0 ≡ pass snapshot
    → Agrees snapshot (get_ledger_snapshot settings headers now onchain cashu s).1.tables
get_ledger_snapshot-Agrees settings headers now onchain cashu s snapshot e =
    Holds-passed _ (snapshot-Holds settings headers now onchain cashu) s tt snapshot e
