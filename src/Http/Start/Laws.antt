-- ===== src/Http/Start/Laws.antt =====
-- backend/src/http.rs: a session that was started is resumed by its claim code until it expires, and
-- a source that starts too many gets none.
use shuestand.Prelude.{
  String, ℕ, ◌+◌, ◌-◌, ◌/◌, ◌≤◌, ◌<◌, ◌≡◌, refl, sym, ap, ◌∙◌, arith, some, List, [], ◌∷◌, ◌++◌,
  Bool, true, false, leb, ltb, length, length-append, select, str_eq, eq_refl, if◌then◌else◌,
  exists_row, find_row, delete_where,
}
use shuestand.Prelude.Text.{Text}
use shuestand.Failure.{Checked, pass, fail, refused_with, invalid_request, too_many_requests}
use shuestand.Run.{pure, lift, raise, ◌>>=◌}
use shuestand.Run.Holds.{
  Ended, Holds, Holds-bind, Holds-pure, Holds-known, Holds-passed, bind-failed,
}
use shuestand.Db.Tables.{second, Session, Tables, Result, ok, err, unique_violation}
use shuestand.Db.Settings.{
  create_session, delete_expired_sessions, fetch_session_by_token_hash, touch_session, has_id,
  has_hash, is_expired,
}
use shuestand.Http.Client.{ClientHeaders, request_client_hint}
use shuestand.Http.Codes.{normalize_claim_code}
use shuestand.Http.Codes.Loop.{IsPayload}
use shuestand.Http.Codes.Laws.{normalize_claim_code-claim_code}
use shuestand.Http.Site.{
  Site, statement, selected, answered_of, served, deny_if, detect_burst, emit_security_alert,
}
use shuestand.Http.Site.Any.{Any, unasked-Holds, Never, sure_end}
use shuestand.Http.Start.{
  SessionSettings, Drawn, SessionStart, purge, below_threshold, below_subnet_threshold, new_session,
  told, start_session, resume_session, session_burst_window, found_of,
}

module _ (settings : SessionSettings) (now : ℕ) (drawn : Drawn) where
  abbrev row : Session
  row = new_session settings now drawn

  -- The session is the first row of its table.
  abbrev Stored : Site → Type 0
  Stored s = (rest : List Session) × (s.tables.sessions ≡ row ∷ rest)

  created_end :
      (b c : Bool) (s : Site)
      → let r : Result (Unit {0}) × Tables =
          if b
          then (err unique_violation, s.tables)
          else if c
          then (err unique_violation, s.tables)
          else (ok tt, record s.tables { sessions = row ∷ s.tables.sessions }) in
        Ended (λ u i. Stored i) Any (answered_of r.0) (record s { tables = r.1 })
  created_end true c s = tt
  created_end false true s = tt
  created_end false false s = (s.tables.sessions, refl)

  create-Holds : Holds Any (λ u s. Stored s) Any (statement (create_session row))
  unfolding statement create_session
  create-Holds = record {
    leads = λ s h.
        created_end (exists_row (has_id row.id) s.tables.sessions)
          (exists_row (has_hash row.token_hash) s.tables.sessions) s;
  }

  -- A session that was started is stored under the hash of its token.
  start-Holds :
      (headers : ClientHeaders)
      → Holds Any
          (λ a s. (a ≡ told settings now drawn.id drawn.payload) × Stored s)
          Any
          (start_session settings now headers drawn)
  unfolding start_session
  start-Holds headers =
      Holds-bind (λ u s. Any s) (below_threshold settings now "session_start" _ _) _
        (unasked-Holds _)
        λ u.
          Holds-bind (λ u s. Any s) (below_subnet_threshold settings now _) _ (unasked-Holds _)
            λ u.
              Holds-bind (λ u s. Any s) (purge now) _ (unasked-Holds (purge now))
                λ u.
                  Holds-bind (λ u s. Stored s) (statement (create_session row)) _ create-Holds
                    λ u. Holds-pure _ (λ s h. (refl, h))

  module _ (later : ℕ) (live : later < now + settings.session_ttl) where
    purge-Holds : Holds Stored (λ u s. Stored s) Never (purge later)
    unfolding delete_expired_sessions delete_where
    purge-Holds = record {
      leads = λ s (rest, e). (
        delete_where (is_expired later) rest,
        ap (delete_where (is_expired later)) e ∙ ground arith,
      );
    }

    find_row-row :
        (rest : List Session) → find_row (has_hash row.token_hash) (row ∷ rest) ≡ some row
    unfolding find_row
    find_row-row rest = rw (eq_refl row.token_hash) refl

    fetched : (s : Site) → Stored s → fetch_session_by_token_hash row.token_hash s.tables ≡ ok row
    unfolding fetch_session_by_token_hash
    fetched s (rest, e) =
        let hit = ap (find_row (has_hash row.token_hash)) e ∙ find_row-row rest in
        rw (hit, fetch_session_by_token_hash)

    -- The session is found by its claim code.
    resume-Holds :
        (code : Text)
        → normalize_claim_code code ≡ some drawn.payload
        → Holds Stored
            (λ a s. a ≡ told settings later drawn.id drawn.payload)
            Never
            (resume_session settings later code)
    unfolding resume_session selected pure lift statement touch_session
    resume-Holds code e =
        let fresh : ltb row.expires_at later ≡ false = ground arith in
        Holds-bind (λ u s. Stored s) (purge later) _ purge-Holds
          λ u.
            Holds-known (served (normalize_claim_code code) invalid_request) drawn.payload _
              (λ s h. ap (λ o. served o invalid_request s) e)
              (Holds-known (selected (fetch_session_by_token_hash row.token_hash)) (ok row) _
                (λ s h. ap (λ r. (pass r, s)) (fetched s h))
                (Holds-known (lift (found_of (ok row))) row _ (λ s h. refl)
                  (Holds-known (deny_if (ltb row.expires_at later) invalid_request) tt _
                    (λ s h. ap (λ b. deny_if b invalid_request s) fresh)
                    (Holds-bind (λ u s. Any s)
                      (statement (touch_session row.id later (later + settings.session_ttl))) _
                      (record { leads = λ s h. tt }) λ u. Holds-pure _ (λ s h. refl)))))

-- A session that was started is resumed by its claim code, under the same token, at any time before
-- it expires, as long as the tables are as the start left them; and it lives for another full
-- lifetime from then. The payload drawn for the token is one of 32 digits in lower case.
pub resume_started :
    (settings : SessionSettings) (now later : ℕ) (headers : ClientHeaders) (drawn : Drawn)
    (answer : SessionStart) (s : Site)
    → IsPayload drawn.payload
    → (start_session settings now headers drawn s).0 ≡ pass answer
    → later < now + settings.session_ttl
    → (resume_session settings later answer.claim_code
        (start_session settings now headers drawn s).1).0
      ≡ pass (record answer { expires_at = later + settings.session_ttl })
resume_started settings now later headers drawn answer s payload e live =
    let (told_of, stored) = Holds-passed _ (start-Holds settings now drawn headers) s tt answer e in
    let code : normalize_claim_code answer.claim_code ≡ some drawn.payload =
      ap (λ a. normalize_claim_code a.claim_code) told_of
      ∙ normalize_claim_code-claim_code drawn.payload payload in
    let resumed = resume-Holds settings now drawn later live answer.claim_code code in
    let (a, passed, same) =
      sure_end _ _ _ (resumed.leads (start_session settings now headers drawn s).1 stored) in
    passed
    ∙ ap pass (
        same
        ∙ ap (λ (x : SessionStart). record x { expires_at = later + settings.session_ttl })
            (sym told_of))

-- The times in a bucket that the window of new sessions still holds.
abbrev pub starts_within : String → ℕ → Site → List ℕ
starts_within key now s =
    select (λ ts. leb (now / second - session_burst_window) ts) (s.buckets key)

module _ (settings : SessionSettings) (now : ℕ) (s : Site) where
  -- The start that was counted and refused.
  abbrev refused_site : String → Site
  refused_site key = record s {
    buckets =
        λ k. if str_eq k key then starts_within key now s ++ now / second ∷ [] else s.buckets k;
    alerts = "session_start_burst_detected" ∷ s.alerts;
  }

  below_threshold-crowded :
      (scope : String) (client : Text) (threshold : ℕ)
      → (let key = settings.bucket_key scope client in
          threshold ≤ length (starts_within key now s) + 1)
      → ◌≡◌ {A = Checked (Unit {0}) × Site}
          (below_threshold settings now scope client threshold s)
          (fail (refused_with too_many_requests), refused_site (settings.bucket_key scope client))
  unfolding below_threshold detect_burst emit_security_alert ◌>>=◌ raise
  below_threshold-crowded scope client threshold h =
      let key = settings.bucket_key scope client in
      let counted = length-append (starts_within key now s) (now / second ∷ []) in
      let over : leb threshold (length (starts_within key now s ++ now / second ∷ [])) ≡ true =
        ground arith in
      rw over refl

-- A client that the window shows five starts of gets no further session: the answer is that there
-- were too many requests, the tables are as before, and an alert is raised.
pub start_session_crowded :
    (settings : SessionSettings) (now : ℕ) (headers : ClientHeaders) (drawn : Drawn) (s : Site)
    → (let hint = request_client_hint settings.trust_proxy_headers headers in
        5 ≤ length (starts_within (settings.bucket_key "session_start" hint) now s))
    → (let r = start_session settings now headers drawn s in
        (r.0 ≡ fail (refused_with too_many_requests))
        × (r.1.tables ≡ s.tables)
        × (r.1.alerts ≡ "session_start_burst_detected" ∷ s.alerts))
unfolding start_session
start_session_crowded settings now headers drawn s h =
    let hint = request_client_hint settings.trust_proxy_headers headers in
    let ended =
      bind-failed (below_threshold settings now "session_start" hint 6) _ s
        (refused_site settings now s (settings.bucket_key "session_start" hint))
        (refused_with too_many_requests)
        (below_threshold-crowded settings now s "session_start" hint 6 (omega arith)) in
    (ap (λ r. r.0) ended, ap (λ r. r.1.tables) ended, ap (λ r. r.1.alerts) ended)
