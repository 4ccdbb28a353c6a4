-- ===== src/Http/Deposits/Laws.antt =====
-- backend/src/http.rs, `create_deposit`: the row it adds, and what its guards ensure of it.
use shuestand.Http.Deposits.Created.{
  current, Resolves, Assigned, Created, Unchanged, resolved_by, insert-Holds,
}
use shuestand.Prelude.{
  String, ℕ, ◌-◌, ◌≤◌, ◌≡◌, refl, sym, ◌∙◌, ap, subst, arith, inl, inr, Option, [], ◌∷◌, ◌++◌, Bool,
  true, false, ◌||◌, ltb, if◌then◌else◌,
}
use shuestand.Failure.{
  invalid_request, service_unavailable, Checked, Failure, pass, fail, refused_with,
}
use shuestand.Run.Holds.{
  Ended, Holds, Holds-pure, Holds-lift, Holds-bind, Holds-given, Holds-passed, Holds-failed,
}
use shuestand.Db.Tables.{Deposit, Session, Tables}
use shuestand.Db.Addresses.{PoolAddress}
use shuestand.Db.Deposits.{
  insert_deposit, expire_stale_pending_deposits, reserved_cashu_deposit_sats, inserted,
}
use shuestand.Run.{pure, ◌>>=◌, ◌>>◌}
use shuestand.Http.{ApiResult, answer, refusal}
use shuestand.Http.Sessions.{resolve_session}
use shuestand.Http.Site.{
  Site, Settings, denied, statement, require_normal, is_normal, session_of, checked_of,
}
use shuestand.Http.Site.Keeps.{lift-Keeps, resolved}
use shuestand.Http.Deposits.{
  DepositRequest, DepositAnswers, max_deposit_sats, expire_stale, below_burst, below_limits,
  assigned, api_checked, new_deposit, create_deposit,
}
use shuestand.Http.Deposits.Guards.{
  Rows, Capped, reserved_by, pending_unreserved, below_burst-Keeps, within_cap-Holds,
  below_limits-Holds,
}

module _ (settings : Settings) (x : DepositAnswers) (now : ℕ)
    (frame : (id : String) (t : Tables) → (x.assign_address id t).1.deposits ≡ t.deposits)
    (before : Site) where
  abbrev C : Tables → Type 0
  C = Rows (current settings now before.tables).deposits

  weaken : (s : Site) → C s.tables → Unchanged settings now before s
  weaken s h = inr h

  -- Until the session is resolved, the sessions are as before.
  abbrev D : Tables → Type 0
  D t = C t × (t.sessions ≡ before.tables.sessions)

  weaken_both : (s : Site) → D s.tables → Unchanged settings now before s
  weaken_both s h = inr h.0

  api_end :
      (r : Checked PoolAddress) (s : Site) (u : Tables)
      → C u
      → r ≡ (x.assign_address x.fresh_id u).0
      → C s.tables
      → Ended
          (λ a i. Assigned x (current settings now before.tables).deposits a × C i.tables)
          (Unchanged settings now before)
          (api_checked r)
          s
  api_end (pass a) s u same e h = ((u, same, sym e), h)
  api_end (fail e) s u same k h = weaken s h

  assigned-Holds :
      Holds
        (λ s. C s.tables)
        (λ a s. Assigned x (current settings now before.tables).deposits a × C s.tables)
        (Unchanged settings now before)
        (assigned x.assign_address x.fresh_id)
  unfolding assigned
  assigned-Holds = record {
    leads = λ s h. api_end _ _ s.tables h refl (frame x.fresh_id s.tables ∙ h);
  }

  session_end :
      (presented : Option (Option String)) (r : ApiResult (Option Session)) (s : Site)
      → r ≡ (resolve_session settings.session_ttl now presented before.tables).0
      → C s.tables
      → Ended
          (λ session i. Resolves settings now presented before session × C i.tables)
          (Unchanged settings now before)
          (checked_of r)
          s
  session_end presented (answer session) s e h = (sym e, h)
  session_end presented (refusal e) s k h = weaken s h

  session_of-Holds :
      (presented : Option (Option String))
      → Holds
          (λ s. D s.tables)
          (λ session s. Resolves settings now presented before session × C s.tables)
          (Unchanged settings now before)
          (session_of settings.session_ttl now presented)
  unfolding session_of
  session_of-Holds presented = record {
    leads = λ s h.
        session_end presented _ _
          (resolved_by settings.session_ttl now presented s.tables before.tables h.1)
          (resolved C weaken (λ t ss k. k) settings.session_ttl now presented s.tables h.0);
  }

  expired-Holds :
      Holds
        (λ s. s.tables ≡ before.tables)
        (λ a s. D s.tables)
        (Unchanged settings now before)
        (expire_stale (now - settings.pending_deposit_ttl) now)
  unfolding expire_stale_pending_deposits
  expired-Holds = record {
    leads = λ s h. (ap (λ t. (current settings now t).deposits) h, ap (λ t. t.sessions) h);
  }

  normal_end :
      (b : Bool) (s : Site)
      → s.tables ≡ before.tables
      → Ended
          (λ a i. (b ≡ true) × (i.tables ≡ before.tables))
          (Unchanged settings now before)
          (if b then pass tt else fail (refused_with service_unavailable))
          s
  normal_end true s h = (refl, h)
  normal_end false s h = inl (ap (λ t. t.deposits) h)

  require_normal-Holds :
      Holds
        (λ s. s ≡ before)
        (λ a s. (is_normal before.operation_mode ≡ true) × (s.tables ≡ before.tables))
        (Unchanged settings now before)
        require_normal
  unfolding require_normal
  require_normal-Holds = record {
    leads = λ s h.
        subst
          (λ i.
            Ended (λ a k. (is_normal before.operation_mode ≡ true) × (k.tables ≡ before.tables))
              (Unchanged settings now before)
              (if is_normal i.operation_mode
                then pass tt
                else fail (refused_with service_unavailable))
              i)
          (sym h) (normal_end (is_normal before.operation_mode) before refl);
  }

  abbrev Sized : DepositRequest → Type 0
  Sized req = (settings.deposit_min_sats ≤ req.amount_sats) × (req.amount_sats ≤ max_deposit_sats)

  sized :
      (req : DepositRequest)
      → denied
          (ltb req.amount_sats settings.deposit_min_sats || ltb max_deposit_sats req.amount_sats)
          invalid_request
        ≡ pass tt
      → Sized req
  sized req e = ground arith

  -- What follows the session.
  create_within-Holds :
      (presented : Option (Option String)) (client : String) (req : DepositRequest)
      → is_normal before.operation_mode ≡ true
      → Sized req
      → Capped settings x req.amount_sats (current settings now before.tables)
      → (session : Option Session) → Resolves settings now presented before session
      → Holds
          (λ s. C s.tables)
          (λ d s. Created settings x now presented req before d s)
          (Unchanged settings now before)
          (do
            below_burst settings x now client session
            below_limits settings x now session
            address ← assigned x.assign_address x.fresh_id
            let deposit = new_deposit settings x req session address now
            statement (insert_deposit deposit)
            pure deposit)
  create_within-Holds presented client req allowed size cap session known =
      let t = current settings now before.tables in
      Holds-bind (λ a s. C s.tables) _ _
        (below_burst-Keeps t C (λ u h. h) weaken settings x now client session)
        (λ k.
          Holds-bind _ _ _ (below_limits-Holds t C (λ u h. h) weaken settings x now session) (λ l.
            Holds-given _ (λ few. Holds-bind _ _ _ assigned-Holds (λ address.
              Holds-given _ (λ given. Holds-bind _ _ _ (insert-Holds t weaken _) (λ m.
                Holds-pure _ (λ s h. record {
                  allowed = allowed;
                  least = size.0;
                  most = size.1;
                  capped = cap;
                  few = few.1;
                  session = session;
                  resolved = known;
                  spare = few.0;
                  address = address;
                  given = given;
                  id = refl;
                  amount = refl;
                  state = refl;
                  received = refl;
                  owner = refl;
                  paid_to = refl;
                  pickup = refl;
                  target = refl;
                  made_at = refl;
                  added = h;
                })))))))

  create_deposit-Holds :
      (presented : Option (Option String)) (client : String) (req : DepositRequest)
      → Holds
          (λ s. s ≡ before)
          (λ d s. Created settings x now presented req before d s)
          (Unchanged settings now before)
          (create_deposit settings x now presented client req)
  unfolding create_deposit
  create_deposit-Holds presented client req = Holds-bind _ _ _ require_normal-Holds (λ u.
      Holds-given _ (λ allowed.
        Holds-bind (λ a s. D s.tables) _ _ expired-Holds
          (λ v.
            Holds-bind (λ a s. Sized req × D s.tables) _ _
              (Holds-lift _ (λ a e s h. (sized req e, h)) weaken_both)
              (λ w. Holds-given _ (λ size.
                Holds-bind (λ a s. D s.tables) _ _ (lift-Keeps D weaken_both _)
                  (λ y.
                    Holds-bind _ _ _
                      (within_cap-Holds (current settings now before.tables) D (λ u h. h.0)
                        weaken_both settings x now req)
                      (λ z. Holds-given _ (λ cap.
                        Holds-bind _ _ _ (session_of-Holds presented) (λ session.
                          Holds-given _ (λ known.
                            create_within-Holds presented client req allowed size cap session
                              known))))))))))

module _ (settings : Settings) (x : DepositAnswers) (now : ℕ)
    (frame : (id : String) (t : Tables) → (x.assign_address id t).1.deposits ≡ t.deposits)
    (before : Site) (presented : Option (Option String)) (client : String)
    (req : DepositRequest) where
  -- A request that is answered was made in the normal mode, for an amount within the limits and the
  -- share of the float that is not reserved, while fewer deposits than the limits were waiting, of
  -- all and of the session that the request presents; it added one row, pending, for that amount,
  -- of that session and with the address that the pool answered. Assigning an address leaves the
  -- deposits alone.
  pub create_deposit_answered :
      (d : Deposit)
      → (create_deposit settings x now presented client req before).0 ≡ pass d
      → Created settings x now presented req before d
          (create_deposit settings x now presented client req before).1
  create_deposit_answered d e =
      Holds-passed _ (create_deposit-Holds settings x now frame before presented client req) before
        refl d e

  -- A request that is refused adds no row: the deposits are as they were, or as they were with the
  -- stale ones expired. Assigning an address leaves the deposits alone.
  pub create_deposit_refused :
      (e : Failure)
      → (create_deposit settings x now presented client req before).0 ≡ fail e
      → Unchanged settings now before (create_deposit settings x now presented client req before).1
  create_deposit_refused e k =
      Holds-failed _ (create_deposit-Holds settings x now frame before presented client req) before
        refl e k

  -- A deposit that is created takes nothing of the float that the next request is measured by. Once
  -- the stale deposits expired, what is reserved is the same before and after it. Assigning an
  -- address leaves the deposits alone.
  pub create_deposit_unreserved :
      (d : Deposit)
      → (create_deposit settings x now presented client req before).0 ≡ pass d
      → reserved_cashu_deposit_sats
          (create_deposit settings x now presented client req before).1.tables
        ≡ reserved_cashu_deposit_sats (current settings now before.tables)
  create_deposit_unreserved d e =
      let c = create_deposit_answered d e in
      let t = current settings now before.tables in
      reserved_by _ (record t { deposits = t.deposits ++ inserted d ∷ [] }) c.added
      ∙ pending_unreserved t d c.state
