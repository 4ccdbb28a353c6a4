-- ===== src/Http/Sessions.antt =====
-- backend/src/http.rs: sessions, and who may read a deposit or a withdrawal. A presented token is `none` without the
-- header, and `some none` where it does not parse; what stands in it otherwise is the hash of the
-- normalized token, which is all that the code keeps of it. Failures of the database are left out.
use shuestand.Prelude.{
  String, ℕ, ◌+◌, ◌≤◌, ◌≡◌, refl, ◌∙◌, ap, inl, inr, Option, none, some, Bool, true, false, arith,
  str_eq, ltb, eq_iff, if◌then◌else◌, find_row, find_row-update_where, Bool-cases, Option-cases,
}
use shuestand.Http.{ApiResult, answer, refusal, unauthorized, fetch_error}
use shuestand.Db.Tables.{Session, Deposit, Withdrawal, Tables, Result, ok, err}
use shuestand.Db.Settings.{
  fetch_session_by_token_hash, touch_session, delete_expired_sessions, names_expired,
}
use shuestand.Db.Deposits
use shuestand.Db.Deposits.{fetch_deposit}
use shuestand.Db.Withdrawals.{fetch_withdrawal}

-- The session after its row is found: expired, or refreshed.
unfoldable pub admit : ℕ → ℕ → Session → Tables → ApiResult (Option Session) × Tables
admit ttl now s t = if ltb s.expires_at now then (refusal unauthorized, t) else (
  answer (some (record s { last_seen_at = now; expires_at = now + ttl })),
  (touch_session s.id now (now + ttl) t).1,
)

unfoldable pub resolve_session :
    ℕ → ℕ → Option (Option String) → Tables → ApiResult (Option Session) × Tables
resolve_session ttl now none t = (answer none, t)
resolve_session ttl now (some none) t = (refusal unauthorized, t)
resolve_session ttl now (some (some hash)) t = elim (fetch_session_by_token_hash hash t) [
  | err e ↦ (refusal unauthorized, t)
  | ok s ↦ admit ttl now s t
]

-- Whether the owner, if there is one, is the session that asks.
unfoldable pub ensure_session_access : Option String → Option Session → Bool
ensure_session_access none current = true
ensure_session_access (some expected) none = false
ensure_session_access (some expected) (some active) = str_eq active.id expected

-- What follows the session where a row is read: the row, if there is one, under its owner.
unfoldable pub show_row :
    {A : Type 0} → (Tables → Result A) → (A → Option String) → Option Session → Tables → ApiResult A
show_row fetch owner_of current t = elim (fetch t) [
  | err e ↦ refusal (fetch_error e)
  | ok a ↦ if ensure_session_access (owner_of a) current then answer a else refusal unauthorized
]

unfoldable pub read_row :
    {A : Type 0}
    → (Tables → Result A)
    → (A → Option String)
    → ℕ
    → ℕ
    → Option (Option String)
    → Tables
    → ApiResult A × Tables
read_row fetch owner_of ttl now presented t =
    let (r, t') = resolve_session ttl now presented t in
    (elim r [ refusal e ↦ refusal e | answer current ↦ show_row fetch owner_of current t' ], t')

abbrev pub deposit_owner : Deposit → Option String
deposit_owner d = d.session_id

abbrev pub withdrawal_owner : Withdrawal → Option String
withdrawal_owner w = w.session_id

unfoldable pub get_deposit :
    ℕ → ℕ → Option (Option String) → String → Tables → ApiResult Deposit × Tables
get_deposit ttl now presented id = read_row (fetch_deposit id) deposit_owner ttl now presented

unfoldable pub get_withdrawal :
    ℕ → ℕ → Option (Option String) → String → Tables → ApiResult Withdrawal × Tables
get_withdrawal ttl now presented id =
    read_row (fetch_withdrawal id) withdrawal_owner ttl now presented

-- The owner of a row presented a live session: its hash is in the table, and not expired.
pub record Presents (now : ℕ) (presented : Option (Option String)) (owner : String) (t : Tables)
    : Type 0 where
  pub hash : String
  pub shown : presented ≡ some (some hash)
  pub session : Session
  pub found : fetch_session_by_token_hash hash t ≡ ok session
  pub live : now ≤ session.expires_at
  pub owns : session.id ≡ owner

id_of : Option Session → String
id_of none = ""
id_of (some s) = s.id

module _ {A : Type 0} (fetch : Tables → Result A) (owner_of : A → Option String) where
  owned :
      (s : Session) (owner : String) (x d : A)
      → (if ensure_session_access (owner_of x) (some s) then answer x else refusal unauthorized)
        ≡ answer d
      → owner_of d ≡ some owner
      → s.id ≡ owner
  unfolding ensure_session_access
  owned s owner x d e own = elim (Bool-cases (ensure_session_access (owner_of x) (some s))) [
    | inl open_to ↦
        let e' : answer x ≡ answer d = rw open_to at e in
        let same : x ≡ d = cc in
        let x_own : owner_of x ≡ some owner = ap owner_of same ∙ own in
        (eq_iff s.id owner).0 (rw x_own at open_to)
    | inr shut ↦ cc (rw shut at e)
  ]

  unshown :
      (owner : String) (x d : A)
      → (if ensure_session_access (owner_of x) none then answer x else refusal unauthorized)
        ≡ answer d
      → owner_of d ≡ some owner
      → ⊥
  unfolding ensure_session_access
  unshown owner x d e own = elim (Option-cases (owner_of x)) [
    | inl free ↦
        let e' : answer x ≡ answer d = rw free at e in
        let same : x ≡ d = cc in let x_own : owner_of x ≡ some owner = ap owner_of same ∙ own in cc
    | inr (o, taken) ↦ cc (rw taken at e)
  ]

  -- What the rest answers, from the row that was found.
  shown_row :
      (owner : String) (current : Option Session) (r : Result A) (d : A)
      → elim r as (λ _. ApiResult A) [
        | err e ↦ refusal (fetch_error e)
        | ok a ↦
            if ensure_session_access (owner_of a) current then answer a else refusal unauthorized
      ]
        ≡ answer d
      → owner_of d ≡ some owner
      → (s : Session) × (current ≡ some s) × (s.id ≡ owner)
  shown_row owner current (err x) d e own = cc
  shown_row owner none (ok x) d e own = absurd (unshown owner x d e own)
  shown_row owner (some s) (ok x) d e own = (s, refl, owned s owner x d e own)

  show-owner :
      (owner : String) (current : Option Session) (t : Tables) (d : A)
      → show_row fetch owner_of current t ≡ answer d
      → owner_of d ≡ some owner
      → (s : Session) × (current ≡ some s) × (s.id ≡ owner)
  unfolding show_row
  show-owner owner current t d e own = shown_row owner current (fetch t) d e own

  admitted-Presents :
      (ttl now : ℕ) (hash owner : String) (s : Session) (t : Tables) (d : A)
      → fetch_session_by_token_hash hash t ≡ ok s
      → elim (admit ttl now s t).0 as (λ _. ApiResult A) [
        | refusal e ↦ refusal e
        | answer current ↦ show_row fetch owner_of current (admit ttl now s t).1
      ]
        ≡ answer d
      → owner_of d ≡ some owner
      → Presents now (some (some hash)) owner t
  unfolding admit id_of
  admitted-Presents ttl now hash owner s t d found e own =
      elim (Bool-cases (ltb s.expires_at now)) [
        | inl late ↦ cc (rw late at e)
        | inr live ↦
            let e' = rw live at e in
            let (s', same, owns) = show-owner owner _ _ d e' own in
            record {
              hash = hash;
              shown = refl;
              session = s;
              found = found;
              live = ground arith;
              owns = ap id_of same ∙ owns;
            }
      ]

  presented-Presents :
      (ttl now : ℕ) (hash owner : String) (r : Result Session) (t : Tables) (d : A)
      → fetch_session_by_token_hash hash t ≡ r
      → (let u = elim r as (λ _. ApiResult (Option Session) × Tables) [
        | err e ↦ (refusal unauthorized, t)
        | ok s ↦ admit ttl now s t
      ] in
          elim u.0 as (λ _. ApiResult A) [
            | refusal e ↦ refusal e
            | answer current ↦ show_row fetch owner_of current u.1
          ])
        ≡ answer d
      → owner_of d ≡ some owner
      → Presents now (some (some hash)) owner t
  presented-Presents ttl now hash owner (err x) t d found e own = cc
  presented-Presents ttl now hash owner (ok s) t d found e own =
      admitted-Presents ttl now hash owner s t d found e own

  read_row-owner :
      (ttl now : ℕ) (presented : Option (Option String)) (owner : String) (t : Tables) (d : A)
      → (read_row fetch owner_of ttl now presented t).0 ≡ answer d
      → owner_of d ≡ some owner
      → Presents now presented owner t
  unfolding read_row resolve_session
  read_row-owner ttl now none owner t d e own =
      let (s, none_there, _) = show-owner owner none t d e own in cc
  read_row-owner ttl now (some none) owner t d e own = cc
  read_row-owner ttl now (some (some hash)) owner t d e own =
      presented-Presents ttl now hash owner (fetch_session_by_token_hash hash t) t d refl e own

-- A deposit that belongs to a session is read only under that session's token, before it expires.
pub get_deposit_owner :
    (ttl now : ℕ) (presented : Option (Option String)) (id owner : String) (t : Tables)
    (d : Deposit)
    → (get_deposit ttl now presented id t).0 ≡ answer d
    → d.session_id ≡ some owner
    → Presents now presented owner t
unfolding get_deposit
get_deposit_owner ttl now presented id owner t d =
    read_row-owner (fetch_deposit id) deposit_owner ttl now presented owner t d

-- A withdrawal that belongs to a session is read only under that session's token, before it expires.
pub get_withdrawal_owner :
    (ttl now : ℕ) (presented : Option (Option String)) (id owner : String) (t : Tables)
    (w : Withdrawal)
    → (get_withdrawal ttl now presented id t).0 ≡ answer w
    → w.session_id ≡ some owner
    → Presents now presented owner t
unfolding get_withdrawal
get_withdrawal_owner ttl now presented id owner t w =
    read_row-owner (fetch_withdrawal id) withdrawal_owner ttl now presented owner t w

shown_open :
    (id : String) (t : Tables) (d : Deposit)
    → find_row (Deposits.has_id id) t.deposits ≡ some d
    → d.session_id ≡ none
    → show_row (fetch_deposit id) deposit_owner none t ≡ answer d
unfolding show_row fetch_deposit ensure_session_access
shown_open id t d found free = rw (found, show_row, free)

shown_refused :
    (id owner : String) (t : Tables) (d : Deposit)
    → find_row (Deposits.has_id id) t.deposits ≡ some d
    → d.session_id ≡ some owner
    → show_row (fetch_deposit id) deposit_owner none t ≡ refusal unauthorized
unfolding show_row fetch_deposit ensure_session_access
shown_refused id owner t d found own = rw (found, show_row, own)

swept_row :
    (now : ℕ) (id owner : String) (t : Tables) (d : Deposit)
    → find_row (Deposits.has_id id) t.deposits ≡ some d
    → d.session_id ≡ some owner
    → names_expired now t.sessions (some owner) ≡ true
    → find_row (Deposits.has_id id) (delete_expired_sessions now t).1.deposits
      ≡ some (record d { session_id = none })
unfolding delete_expired_sessions
swept_row now id owner t d found own expired =
    find_row-update_where (Deposits.has_id id) (λ x. names_expired now t.sessions x.session_id)
      (λ x. record x { session_id = none }) t.deposits (λ x. refl)
    ∙ rw (found, own, expired) refl

-- A sweep that deletes the owner's session once it has expired leaves the deposit to anyone who
-- names it, without a token, its pickup token included.
pub swept_deposit_open :
    (ttl now : ℕ) (id owner : String) (t : Tables) (d : Deposit)
    → find_row (Deposits.has_id id) t.deposits ≡ some d
    → d.session_id ≡ some owner
    → names_expired now t.sessions (some owner) ≡ true
    → ((get_deposit ttl now none id t).0 ≡ refusal unauthorized)
      × ((get_deposit ttl now none id (delete_expired_sessions now t).1).0
          ≡ answer (record d { session_id = none }))
unfolding get_deposit read_row resolve_session
swept_deposit_open ttl now id owner t d found own expired = (
  shown_refused id owner t d found own,
  shown_open id (delete_expired_sessions now t).1 (record d { session_id = none })
      (swept_row now id owner t d found own expired) refl,
)
