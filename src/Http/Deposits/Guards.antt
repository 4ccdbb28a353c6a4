-- ===== src/Http/Deposits/Guards.antt =====
-- backend/src/http.rs, `create_deposit`: the guards of the float, the bursts and the limits.
use shuestand.Prelude.{
  String, ℕ, ◌-◌, ◌≤◌, ◌<◌, ◌≡◌, refl, sym, ◌∙◌, ap, arith, Option, none, some, List, [], ◌∷◌, ◌++◌,
  ltb, leb, sum_where-snoc,
}
use shuestand.Failure.{
  ApiError, invalid_request, server_error, service_unavailable, too_many_requests, pass,
}
use shuestand.Run.{pure, ◌>>◌}
use shuestand.Run.Holds.{
  Holds, Holds-pure, Holds-raise, Holds-lift, Holds-if, Holds-bind, Holds-given,
}
use shuestand.Db.States.Deposit.{
  pending, partial_payment_received, confirming, minting, delivering, ready, one_of,
}
use shuestand.Db.Tables.{Deposit, Session, Tables}
use shuestand.Db.Deposits.{
  reserved_cashu_deposit_sats, count_deposits_by_states, count_deposits_for_session_states,
  inserted,
}
use shuestand.Http.Site.{Site, Settings, refuse, denied, served, selected, emit_security_alert}
use shuestand.Http.Site.Keeps.{Keeps, lift-Keeps, detect_burst-Keeps, emit_security_alert-Keeps}
use shuestand.Http.Deposits.{
  DepositRequest, DepositAnswers, deposit_burst_threshold, max_global_pending_deposits, deposit_cap,
  within_cap, below_burst, session_below_limit, below_limits,
}

-- The tables with these deposits.
abbrev pub Rows : List Deposit → Tables → Type 0
Rows ds t = t.deposits ≡ ds

abbrev pub waiting : Tables → ℕ
waiting t = count_deposits_by_states (pending ∷ partial_payment_received ∷ confirming ∷ []) t

pub reserved_by :
    (s t : Tables)
    → s.deposits ≡ t.deposits
    → reserved_cashu_deposit_sats s ≡ reserved_cashu_deposit_sats t
unfolding reserved_cashu_deposit_sats
reserved_by s t e = ap (λ ds. reserved_cashu_deposit_sats (record t { deposits = ds })) e

pub pending_unreserved :
    (t : Tables) (d : Deposit)
    → d.state ≡ pending
    → reserved_cashu_deposit_sats (record t { deposits = t.deposits ++ inserted d ∷ [] })
      ≡ reserved_cashu_deposit_sats t
unfolding reserved_cashu_deposit_sats inserted one_of
pending_unreserved t d e =
    let more =
      sum_where-snoc
        (λ (y : Deposit).
          one_of (partial_payment_received ∷ confirming ∷ minting ∷ delivering ∷ ready ∷ [])
            y.state)
        (λ y. y.amount_sats) t.deposits (inserted d) in
    more ∙ rw e (omega arith)

pub waiting_by : (s t : Tables) → s.deposits ≡ t.deposits → waiting s ≡ waiting t
unfolding count_deposits_by_states
waiting_by s t e = ap (λ ds. waiting (record t { deposits = ds })) e

below :
    (m count : ℕ)
    → m ≡ count
    → denied (leb max_global_pending_deposits count) too_many_requests ≡ pass tt
    → m < max_global_pending_deposits
below m count same e = ground arith

capped :
    (cap amount limit : ℕ)
    → denied (ltb cap amount) invalid_request ≡ pass tt
    → limit ≡ cap
    → amount ≤ limit
capped cap amount limit e same = ground arith

-- What the guards let through, given the tables `t` after the stale deposits expired.
abbrev pub Capped : Settings → DepositAnswers → ℕ → Tables → Type 0
Capped settings x amount t =
    (spendable : ℕ) × (x.balance ≡ some (some spendable))
    × (amount ≤ settings.single_request_cap_ratio (spendable - reserved_cashu_deposit_sats t))

-- The session has fewer deposits waiting than it may.
abbrev pub Spare : Settings → Option Session → Tables → Type 0
Spare settings none t = Unit {0}
Spare settings (some session) t =
    count_deposits_for_session_states session.id
      (pending ∷ partial_payment_received ∷ confirming ∷ []) t
    < settings.max_pending_deposits_per_session

counted_by :
    (id : String) (s t : Tables)
    → s.deposits ≡ t.deposits
    → count_deposits_for_session_states id (pending ∷ partial_payment_received ∷ confirming ∷ []) s
      ≡ count_deposits_for_session_states id
          (pending ∷ partial_payment_received ∷ confirming ∷ [])
          t
unfolding count_deposits_for_session_states
counted_by id s t e =
    ap
      (λ ds.
        count_deposits_for_session_states id (pending ∷ partial_payment_received ∷ confirming ∷ [])
          (record t { deposits = ds }))
      e

spared :
    (most count n : ℕ) → n ≡ count → denied (leb most n) too_many_requests ≡ pass tt → count < most
spared most count n same e = ground arith

-- `F` is a condition under which the deposits are those of `t`.
module _ (t : Tables) (F : Tables → Type 0) (rows : (u : Tables) → F u → Rows t.deposits u)
    {E : Site → Type 0} (weak : (s : Site) → F s.tables → E s) (settings : Settings)
    (x : DepositAnswers) (now : ℕ) where
  pub below_burst-Keeps :
      (client : String) (session : Option Session)
      → Keeps F E (below_burst settings x now client session)
  unfolding below_burst
  below_burst-Keeps client session =
      Holds-bind (λ a s. F s.tables) _ _ (detect_burst-Keeps F weak _ _ _)
        (λ count.
          Holds-if (leb deposit_burst_threshold count)
            (emit_security_alert "deposit_burst_detected" >> refuse too_many_requests) (pure tt)
            (λ e.
              Holds-bind (λ a s. F s.tables) _ _ (emit_security_alert-Keeps F weak _)
                (λ u. Holds-raise _ weak))
            (λ e. Holds-pure tt (λ s h. h)))

  session_below_limit-Holds :
      (session : Option Session)
      → Holds
          (λ s. F s.tables)
          (λ a s. Spare settings session t × F s.tables)
          E
          (session_below_limit settings x now session)
  unfolding selected
  session_below_limit-Holds none = Holds-pure tt (λ s h. (tt, h))
  session_below_limit-Holds (some session) =
      Holds-bind
        (λ n s.
          (n
            ≡ count_deposits_for_session_states session.id
                (pending ∷ partial_payment_received ∷ confirming ∷ []) t)
          × F s.tables)
        _ _ (record { leads = λ s h. (counted_by session.id s.tables t (rows s.tables h), h) })
        (λ n. Holds-lift _ (λ a e s h. (spared _ _ n h.0 e, h.1)) (λ s h. weak s h.1))

  served-Holds :
      {A : Type 0} (o : Option A) (e : ApiError)
      → Holds (λ s. F s.tables) (λ a s. (o ≡ some a) × F s.tables) E (served o e)
  served-Holds none e = Holds-raise _ weak
  served-Holds (some a) e = Holds-pure a (λ s h. (refl, h))

  pub below_limits-Holds :
      (session : Option Session)
      → Holds
          (λ s. F s.tables)
          (λ a s.
            (Spare settings session t × (waiting t < max_global_pending_deposits)) × F s.tables)
          E
          (below_limits settings x now session)
  unfolding below_limits selected
  below_limits-Holds session = Holds-bind _ _ _ (session_below_limit-Holds session) (λ u.
      Holds-given _ (λ spare.
        Holds-bind (λ count s. (waiting t ≡ count) × F s.tables) _ _
          (record { leads = λ s h. (waiting_by t s.tables (sym (rows s.tables h)), h) })
          (λ count. Holds-lift _ (λ a e s h. ((spare, below _ _ h.0 e), h.1)) (λ s h. weak s h.1))))

  pub within_cap-Holds :
      (req : DepositRequest)
      → Holds
          (λ s. F s.tables)
          (λ a s. Capped settings x req.amount_sats t × F s.tables)
          E
          (within_cap settings x now req)
  unfolding within_cap deposit_cap selected
  within_cap-Holds req =
      Holds-bind
        (λ cap s.
          ((spendable : ℕ) × (x.balance ≡ some (some spendable))
            × (settings.single_request_cap_ratio (spendable - reserved_cashu_deposit_sats t) ≡ cap))
          × F s.tables)
        _ _
        (Holds-bind (λ wallet s. (x.balance ≡ some wallet) × F s.tables) _ _
          (served-Holds x.balance service_unavailable)
          (λ wallet. Holds-given _ (λ has.
            Holds-bind (λ spendable s. (wallet ≡ some spendable) × F s.tables) _ _
              (served-Holds wallet server_error)
              (λ spendable. Holds-given _ (λ full.
                Holds-bind (λ n s. (n ≡ reserved_cashu_deposit_sats t) × F s.tables) _ _
                  (record { leads = λ s h. (reserved_by s.tables t (rows s.tables h), h) })
                  (λ n. Holds-pure _ (λ s h. (
                    (
                      spendable,
                      has ∙ ap some full,
                      ap (λ k. settings.single_request_cap_ratio (spendable - k)) (sym h.0),
                    ),
                    h.1,
                  ))))))))
        (λ cap. Holds-given _ (λ known.
          Holds-bind (λ a s. F s.tables) _ _ (lift-Keeps F weak _)
            (λ u.
              Holds-bind (λ a s. F s.tables) _ _ (lift-Keeps F weak _)
                (λ v.
                  Holds-lift _ (λ a e s h. ((known.0, known.1, capped _ _ _ e known.2), h)) weak))))
