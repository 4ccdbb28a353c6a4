-- ===== src/Http/Access/Laws.antt =====
-- backend/src/http.rs: who passes as an operator, and what a change of the operation mode leaves.
use shuestand.Prelude.{
  String, ℕ, ◌≡◌, ◌↔◌, refl, ap, sym, ◌∙◌, Option, none, some, [], Bool, true, false, if◌then◌else◌,
  Bool-cases, inl, inr,
}
use mathlib.Core.Option.{some_inj}
use shuestand.Prelude.Text.{Text, text_eq, text_eq_iff}
use shuestand.Failure.{Checked, pass, fail, refused_with, unauthorized, service_unavailable}
use shuestand.Run.{pure, raise, lift, ◌>>=◌, ◌>>◌}
use shuestand.Config.{Floats, Env, from_env}
use shuestand.Http.Site.{Site, refuse, served, detect_burst, emit_security_alert, alert_if}
use shuestand.Http.Access.{
  AccessSettings, OperatorHeaders, access_settings, provided, turned_away, require_operator_token,
}

-- What a caller who is turned away leaves: the tables and the mode as they were.
abbrev pub Untouched : Site → Site → Type 0
Untouched s s' = (s'.tables ≡ s.tables) × (s'.operation_mode ≡ s.operation_mode)

alerted :
    (b : Bool) (kind : String) (s : Site)
    → let r = (do alert_if b kind; refuse {A = Unit {0}} unauthorized) s in
      (r.0 ≡ fail (refused_with unauthorized)) × Untouched s r.1
unfolding alert_if emit_security_alert ◌>>=◌ pure raise lift
alerted true kind s = (refl, (refl, refl))
alerted false kind s = (refl, (refl, refl))

module _ (settings : AccessSettings) (headers : OperatorHeaders) (now : ℕ) (s : Site) where
  turned_away_lem :
      ((turned_away settings headers now s).0 ≡ fail (refused_with unauthorized))
      × Untouched s (turned_away settings headers now s).1
  unfolding turned_away detect_burst ◌>>=◌ pure raise lift
  turned_away_lem = let (refused, kept) = alerted _ "operator_auth_401_burst" _ in (refused, kept)

  checked_token :
      (token : Text)
      → let r =
          (if text_eq (provided headers.authorization) token
              then pure tt
              else turned_away settings headers now)
            s in
        ((r.0 ≡ pass tt) ↔ (provided headers.authorization ≡ token)) × Untouched s r.1
  unfolding pure
  checked_token token =
      let (refused, kept) = turned_away_lem in
      let same = text_eq_iff (provided headers.authorization) token in
      elim (Bool-cases (text_eq (provided headers.authorization) token)) [
        | inl right ↦ rw right ((λ _. same.0 right, λ _. refl), (refl, refl))
        | inr wrong ↦ rw wrong (
          (
            λ passed.
                let e : ◌≡◌ {A = Checked (Unit {0})} (pass tt) (fail (refused_with unauthorized)) =
                  sym passed ∙ refused in
                cc,
            λ e. let right = same.1 e in cc,
          ),
          kept,
        )
      ]

  answered_for :
      (expected : Option Text)
      → let r =
          (do
            token ← served expected service_unavailable
            if text_eq (provided headers.authorization) token
                then pure tt
                else turned_away settings headers now)
            s in
        ((r.0 ≡ pass tt) ↔ (expected ≡ some (provided headers.authorization))) × Untouched s r.1
  unfolding ◌>>=◌ pure raise lift
  answered_for none = ((λ e. cc, λ e. cc), (refl, refl))
  answered_for (some token) =
      let (passes, kept) = checked_token token in
      (
        (λ e. let right = passes.0 e in ap some (sym right), λ e. passes.1 (sym (some_inj.0 e))),
        kept,
      )

  -- A caller passes as the operator exactly with the token of the settings after `Bearer `, or with no
  -- token where that of the settings is the empty text; and whoever calls, the tables and the mode
  -- stay as they were.
  pub require_operator_token_iff :
      (((require_operator_token settings headers now s).0 ≡ pass tt)
        ↔ (settings.wallet_api_token ≡ some (provided headers.authorization)))
      × Untouched s (require_operator_token settings headers now s).1
  unfolding require_operator_token
  require_operator_token_iff = answered_for settings.wallet_api_token

-- Where the variable of the token is set to the empty text, every caller without an `Authorization`
-- header passes as the operator.
pub empty_token_open :
    (floats : Floats) (env : Env) (bucket_key : String → Text → String) (headers : OperatorHeaders)
    (now : ℕ) (s : Site)
    → env "WALLET_API_TOKEN" ≡ some []
    → headers.authorization ≡ none
    → (require_operator_token (access_settings (from_env floats env) bucket_key) headers now s).0
      ≡ pass tt
unfolding access_settings from_env provided
empty_token_open floats env bucket_key headers now s e none_sent =
    let passes =
      (require_operator_token_iff (access_settings (from_env floats env) bucket_key) headers now
        s).0 in
    passes.1 (e ∙ sym (ap (λ a. some (provided a)) none_sent))
