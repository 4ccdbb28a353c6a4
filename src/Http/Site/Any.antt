-- ===== src/Http/Site/Any.antt =====
-- backend/src/http.rs: actions of which nothing is asked, and those that cannot fail.
use shuestand.Prelude.{◌≡◌, refl}
use shuestand.Failure.{Checked, pass, fail}
use shuestand.Run.Holds.{Ended, Holds}
use shuestand.Http.Site.{Site, Handler}

abbrev pub Any : Site → Type 0
Any s = Unit

unasked_end : {A : Type 0} (r : Checked A) (s : Site) → Ended (λ a i. Any i) Any r s
unasked_end (pass a) s = tt
unasked_end (fail e) s = tt

pub unasked-Holds : {A : Type 0} (m : Handler A) → Holds Any (λ a s. Any s) Any m
unasked-Holds m = record { leads = λ s h. unasked_end (m s).0 (m s).1 }

-- The condition at the end of an action that cannot fail.
abbrev pub Never : Site → Type 0
Never s = ⊥

pub sure_end :
    {A : Type 0} (Q : A → Site → Type 0) (r : Checked A) (s : Site)
    → Ended Q Never r s
    → (a : A) × (r ≡ pass a) × Q a s
sure_end Q (pass a) s h = (a, refl, h)
sure_end Q (fail e) s h = absurd h
