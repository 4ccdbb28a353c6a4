-- ===== src/Runtime/Laws.antt =====
-- What a call of the database leaves alone: every log outside it.
use shuestand.Prelude.{◌≡◌, ◌⊎◌, inl, inr, refl, List, [], ◌∷◌, arith}
use shuestand.Db.Tables.{Tables, Result, ok, err}
use shuestand.Failure.{Checked, Failure, pass, fail}
use shuestand.Runtime.{World, Link, up, down, reply_lost, reply, through, call, query}

-- Two worlds with the same effects outside the database.
pub record SameEffects (s s' : World) : Type 0 where
  pub redemptions : s'.redemptions ≡ s.redemptions
  pub mintings : s'.mintings ≡ s.mintings
  pub issued : s'.issued ≡ s.issued
  pub payouts : s'.payouts ≡ s.payouts
  pub posts : s'.posts ≡ s.posts

module _ {A : Type 0} (st : Tables → Result A × Tables) where
  through-SameEffects :
      (l : Link) (rest : List Link) (s : World) → SameEffects s (through l rest st s).1
  through-SameEffects up rest s = record {
    redemptions = refl;
    mintings = refl;
    issued = refl;
    payouts = refl;
    posts = refl;
  }
  through-SameEffects down rest s = record {
    redemptions = refl;
    mintings = refl;
    issued = refl;
    payouts = refl;
    posts = refl;
  }
  through-SameEffects reply_lost rest s = record {
    redemptions = refl;
    mintings = refl;
    issued = refl;
    payouts = refl;
    posts = refl;
  }

  pub call-SameEffects : (s : World) → SameEffects s (call st s).1
  unfolding call
  call-SameEffects s = go s.links
    where
      go :
          (ls : List Link)
          → SameEffects s
              (elim ls as (λ _. Checked A × World) [
                | [] ↦ through up [] st s
                | l ∷ rest ↦ through l rest st s
              ]).1
      go [] = through-SameEffects up [] s
      go (l ∷ rest) = through-SameEffects l rest s

-- A SELECT is answered from the tables, or fails; it changes no row.
module _ {A : Type 0} (f : Tables → A) where
  through_cases :
      (l : Link) (rest : List Link) (s : World)
      → ((through l rest (λ t. (ok (f t), t)) s).0 ≡ pass (f s.tables))
        ⊎ ((e : Failure) × ((through l rest (λ t. (ok (f t), t)) s).0 ≡ fail e))
  through_cases up rest s = inl refl
  through_cases down rest s = inr (_, refl)
  through_cases reply_lost rest s = inr (_, refl)

  pub query_cases :
      (s : World) → ((query f s).0 ≡ pass (f s.tables)) ⊎ ((e : Failure) × ((query f s).0 ≡ fail e))
  unfolding query call
  query_cases s = go s.links
    where
      go :
          (ls : List Link)
          → let r = elim ls as (λ _. Checked A × World) [
            | [] ↦ through up [] (λ t. (ok (f t), t)) s
            | l ∷ rest ↦ through l rest (λ t. (ok (f t), t)) s
          ] in
            (r.0 ≡ pass (f s.tables)) ⊎ ((e : Failure) × (r.0 ≡ fail e))
      go [] = inl refl
      go (l ∷ rest) = through_cases l rest s

  pub query-SameEffects : (s : World) → SameEffects s (query f s).1
  unfolding query
  query-SameEffects s = call-SameEffects (λ t. (ok (f t), t)) s

-- The tables after a call: what they were, or what the statement made of them.
module _ {A : Type 0} (st : Tables → Result A × Tables) where
  reply_passed : (r : Result A) (a : A) → reply r ≡ pass a → r ≡ ok a
  reply_passed (ok b) a e = ground arith
  reply_passed (err b) a e = cc

  through_answered :
      (l : Link) (rest : List Link) (s : World) (a : A)
      → (through l rest st s).0 ≡ pass a
      → ((st s.tables).0 ≡ ok a) × ((through l rest st s).1.tables ≡ (st s.tables).1)
  through_answered up rest s a e = (reply_passed _ a e, refl)
  through_answered down rest s a e = cc
  through_answered reply_lost rest s a e = cc

  pub call_answered :
      (s : World) (a : A)
      → (call st s).0 ≡ pass a
      → ((st s.tables).0 ≡ ok a) × ((call st s).1.tables ≡ (st s.tables).1)
  unfolding call
  call_answered s a = go s.links
    where
      go :
          (ls : List Link)
          → let r = elim ls as (λ _. Checked A × World) [
            | [] ↦ through up [] st s
            | l ∷ rest ↦ through l rest st s
          ] in
            r.0 ≡ pass a → ((st s.tables).0 ≡ ok a) × (r.1.tables ≡ (st s.tables).1)
      go [] = through_answered up [] s a
      go (l ∷ rest) = through_answered l rest s a

  through-tables :
      (P : Tables → Type 0) (l : Link) (rest : List Link) (s : World)
      → P s.tables
      → P (st s.tables).1
      → P (through l rest st s).1.tables
  through-tables P up rest s h k = k
  through-tables P down rest s h k = h
  through-tables P reply_lost rest s h k = k

  pub call-tables :
      (P : Tables → Type 0) (s : World) → P s.tables → P (st s.tables).1 → P (call st s).1.tables
  unfolding call
  call-tables P s h k = go s.links
    where
      go :
          (ls : List Link)
          → P
              (elim ls as (λ _. Checked A × World) [
                | [] ↦ through up [] st s
                | l ∷ rest ↦ through l rest st s
              ]).1.tables
      go [] = through-tables P up [] s h k
      go (l ∷ rest) = through-tables P l rest s h k
