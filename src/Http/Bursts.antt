-- ===== src/Http/Bursts.antt =====
-- backend/src/http.rs, `detect_burst`: its buckets, which forget what left the window, against the
-- whole history of the calls.
use shuestand.Prelude.{
  String, ℕ, ◌+◌, ◌-◌, ◌≤◌, ◌≡◌, refl, sym, ◌∙◌, ap, arith, Bool, true, false, ◌&&◌, leb, str_eq,
  if◌then◌else◌, List, [], ◌∷◌, ◌++◌, length, length-append, select, count_where, eq_iff,
}
use shuestand.Failure.{pass}
use shuestand.Http.Site.{Site, detect_burst}

pub record Call : Type 0 where
  pub bucket : String
  pub now : ℕ

-- The calls, newest first, at times that do not decrease, up to a time.
abbrev pub Ordered : ℕ → List Call → Type 0
Ordered now [] = Unit {0}
Ordered now (c ∷ older) = (c.now ≤ now) × Ordered c.now older

-- Each bucket has its window: the scope in its key settles it.
abbrev pub after_calls : (String → ℕ) → List Call → Site → Site
after_calls window [] s = s
after_calls window (c ∷ older) s =
    (detect_burst c.bucket (window c.bucket) c.now (after_calls window older s)).1

-- The calls of a bucket since a time, of the whole history.
abbrev pub calls_since : String → ℕ → List Call → ℕ
calls_since bucket lower cs = count_where (λ c. str_eq bucket c.bucket && leb lower c.now) cs

abbrev at_least : ℕ → ℕ → Bool
at_least lower ts = leb lower ts

count-select :
    (low high : ℕ) (xs : List ℕ)
    → low ≤ high
    → count_where (at_least high) (select (at_least low) xs) ≡ count_where (at_least high) xs
unfolding count_where select
count-select low high [] h = refl
count-select low high (x ∷ xs) h = go (leb low x) refl (count-select low high xs h)
  where
    go :
        (b : Bool)
        → leb low x ≡ b
        → count_where (at_least high) (select (at_least low) xs) ≡ count_where (at_least high) xs
        → count_where
            (at_least high)
            (let rest = select (at_least low) xs in if b then x ∷ rest else rest)
          ≡ (if leb high x then 1 else 0) + count_where (at_least high) xs
    go true e ih = ap (λ n. (if leb high x then 1 else 0) + n) ih
    go false e ih = ground arith

length-select : (p : ℕ → Bool) (xs : List ℕ) → length (select p xs) ≡ count_where p xs
unfolding count_where select
length-select p [] = refl
length-select p (x ∷ xs) = go (p x) (length-select p xs)
  where
    go :
        (b : Bool)
        → length (select p xs) ≡ count_where p xs
        → length (let rest = select p xs in if b then x ∷ rest else rest)
          ≡ (if b then 1 else 0) + count_where p xs
    go true ih = omega (arith, ih)
    go false ih = omega (arith, ih)

count-snoc :
    (p : ℕ → Bool) (xs : List ℕ) (x : ℕ)
    → count_where p (xs ++ x ∷ []) ≡ (if p x then 1 else 0) + count_where p xs
unfolding count_where
count-snoc p [] x = refl
count-snoc p (y ∷ xs) x = omega (arith, count-snoc p xs x)

module _ (window : String → ℕ) (s : Site) (fresh : (bucket : String) → s.buckets bucket ≡ []) where
  -- A bucket counts what the history does, from any time that its window still holds.
  tracked :
      (cs : List Call) (last : ℕ)
      → Ordered last cs
      → (bucket : String) (lower : ℕ) → last - window bucket ≤ lower
      → count_where (at_least lower) ((after_calls window cs s).buckets bucket)
        ≡ calls_since bucket lower cs
  unfolding detect_burst count_where
  tracked [] last o bucket lower h = ap (count_where (at_least lower)) (fresh bucket)
  tracked (c ∷ older) last o bucket lower h =
      go (str_eq bucket c.bucket) refl
        (tracked older c.now o.1 bucket lower (omega (arith, o.0, h)))
    where
      go :
          (b : Bool)
          → str_eq bucket c.bucket ≡ b
          → count_where (at_least lower) ((after_calls window older s).buckets bucket)
            ≡ calls_since bucket lower older
          → count_where (at_least lower) (
              if b
              then select
                  (λ ts. leb (c.now - window c.bucket) ts)
                  ((after_calls window older s).buckets c.bucket)
                ++ c.now ∷ []
              else (after_calls window older s).buckets bucket)
            ≡ (if b && leb lower c.now then 1 else 0) + calls_since bucket lower older
      go false e ih = omega (arith, ih)
      go true e ih =
          ap
            (λ k. count_where (at_least lower) (
              select (λ ts. leb (c.now - window k) ts) ((after_calls window older s).buckets k)
              ++ c.now ∷ []))
            (sym ((eq_iff bucket c.bucket).0 e))
          ∙ count-snoc (at_least lower) _ c.now
          ∙ ap (λ n. (if leb lower c.now then 1 else 0) + n)
              (count-select (c.now - window bucket) lower _ (omega (arith, o.0, h)) ∙ ih)

  -- The count that a call is answered with is the number of calls of its bucket in the whole history
  -- that its window holds, and one for itself: what the buckets forget is never counted again. The
  -- times of the calls do not decrease, and the buckets start empty.
  pub detect_burst_counts :
      (cs : List Call) (bucket : String) (now : ℕ)
      → Ordered now cs
      → (detect_burst bucket (window bucket) now (after_calls window cs s)).0
        ≡ pass (calls_since bucket (now - window bucket) cs + 1)
  unfolding detect_burst
  detect_burst_counts cs bucket now o = ap pass (
      length-append
        (select (at_least (now - window bucket)) ((after_calls window cs s).buckets bucket))
        (now ∷ [])
      ∙ ap (λ n. n + 1)
          (length-select _ _ ∙ tracked cs now o bucket (now - window bucket) (omega arith)))
