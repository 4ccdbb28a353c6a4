-- ===== src/Http/Site/Keeps.antt =====
-- backend/src/http.rs: what the steps shared by the handlers leave alone: a condition on the tables
-- that says nothing of the sessions.
use shuestand.Prelude.{
  String, ℕ, ◌+◌, Option, none, some, List, Bool, true, false, ltb, if◌then◌else◌,
}
use shuestand.Failure.{ApiError, Checked, pass, fail}
use shuestand.Run.{lift}
use shuestand.Run.Holds.{Ended, Holds, Holds-pure, Holds-raise, Holds-lift}
use shuestand.Db.Tables.{Session, Tables, Result, ok, err}
use shuestand.Db.Settings.{fetch_session_by_token_hash, touch_session}
use shuestand.Http.{ApiResult, answer, refusal, unauthorized}
use shuestand.Http.Sessions.{resolve_session, admit}
use shuestand.Http.Site.{
  Site, Handler, served, selected, session_of, require_normal, detect_burst, emit_security_alert,
  alert_if,
}

-- `F` holds before and after, and `E` where the action fails.
abbrev pub Keeps : (Tables → Type 0) → (Site → Type 0) → {A : Type 0} → Handler A → Type 0
Keeps F E m = Holds (λ s. F s.tables) (λ a s. F s.tables) E m

module _ (F : Tables → Type 0) {E : Site → Type 0} (weak : (s : Site) → F s.tables → E s) where
  kept_end : {A : Type 0} (r : Checked A) (s : Site) → F s.tables → Ended (λ a i. F i.tables) E r s
  kept_end (pass a) s h = h
  kept_end (fail e) s h = weak s h

  pub lift-Keeps : {A : Type 0} (r : Checked A) → Keeps F E (lift r)
  lift-Keeps r = Holds-lift r (λ a e s h. h) weak

  pub served-Keeps : {A : Type 0} (o : Option A) (e : ApiError) → Keeps F E (served o e)
  served-Keeps none e = Holds-raise _ weak
  served-Keeps (some a) e = Holds-pure a (λ s h. h)

  pub selected-Keeps : {A : Type 0} (f : Tables → A) → Keeps F E (selected f)
  unfolding selected
  selected-Keeps f = record { leads = λ s h. h }

  pub require_normal-Keeps : Keeps F E require_normal
  unfolding require_normal
  require_normal-Keeps = record { leads = λ s h. kept_end _ s h }

  pub detect_burst-Keeps :
      (bucket : String) (window now : ℕ) → Keeps F E (detect_burst bucket window now)
  unfolding detect_burst
  detect_burst-Keeps bucket window now = record { leads = λ s h. h }

  pub emit_security_alert-Keeps : (kind : String) → Keeps F E (emit_security_alert kind)
  unfolding emit_security_alert
  emit_security_alert-Keeps kind = record { leads = λ s h. h }

  pub alert_if-Keeps : (b : Bool) (kind : String) → Keeps F E (alert_if b kind)
  unfolding alert_if
  alert_if-Keeps true kind = emit_security_alert-Keeps kind
  alert_if-Keeps false kind = Holds-pure tt (λ s h. h)

  module _ (free : (t : Tables) (ss : List Session) → F t → F (record t { sessions = ss })) where
    admitted : (ttl now : ℕ) (session : Session) (t : Tables) → F t → F (admit ttl now session t).1
    unfolding admit touch_session
    admitted ttl now session t h = go (ltb session.expires_at now)
      where
        go :
            (b : Bool)
            → let r : ApiResult (Option Session) × Tables =
                if b then (refusal unauthorized, t) else (
                  answer (some (record session { last_seen_at = now; expires_at = now + ttl })),
                  (touch_session session.id now (now + ttl) t).1,
                ) in
              F r.1
        go true = h
        go false = free t _ h

    pub resolved :
        (ttl now : ℕ) (presented : Option (Option String)) (t : Tables)
        → F t
        → F (resolve_session ttl now presented t).1
    unfolding resolve_session
    resolved ttl now none t h = h
    resolved ttl now (some none) t h = h
    resolved ttl now (some (some hash)) t h = go (fetch_session_by_token_hash hash t)
      where
        go :
            (r : Result Session)
            → F
                (elim r as (λ x. ApiResult (Option Session) × Tables) [
                  | err e ↦ (refusal unauthorized, t)
                  | ok s ↦ admit ttl now s t
                ]).1
        go (err e) = h
        go (ok s) = admitted ttl now s t h

    pub session_of-Keeps :
        (ttl now : ℕ) (presented : Option (Option String))
        → Keeps F E (session_of ttl now presented)
    unfolding session_of
    session_of-Keeps ttl now presented = record {
      leads = λ s h. kept_end _ _ (resolved ttl now presented s.tables h);
    }
