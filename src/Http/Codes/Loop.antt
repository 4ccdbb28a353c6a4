-- ===== src/Http/Codes/Loop.antt =====
-- backend/src/http.rs: what the loop of normalize_claim_code makes of a grouped, cased or spaced text.
use shuestand.Prelude.{
  ℕ, zero, suc, ◌-◌, ◌≡◌, refl, sym, ap, ◌∙◌, arith, some, List, [], ◌∷◌, ◌++◌, Bool, true, false,
  ◌&&◌, ◌||◌, leb, map, length, All, if◌then◌else◌,
}
use shuestand.Prelude.Text.{
  Text, cons_first, trim, trim_start, trim_end, is_empty, is_whitespace, is_ascii_digit,
  is_ascii_hexdigit, to_ascii_lowercase, to_uppercase,
}
use shuestand.Http.Codes.{
  session_token_hex_len, chunked, chunks, join, filtered, is_skipped, digit_before,
}
use mathlib.Core.List

abbrev pub is_payload_digit : ℕ → Bool
is_payload_digit c = is_ascii_digit c || (leb b'a' c && leb c b'f')

-- The payload of a token: 32 digits in lower case, as `hex::encode` writes 16 bytes.
abbrev pub IsPayload : Text → Type 0
IsPayload p = (length p ≡ session_token_hex_len) × All (λ c. is_payload_digit c ≡ true) p

pub concat : List Text → Text
concat [] = []
concat (p ∷ ps) = p ++ concat ps

concat-cons_first : (c : ℕ) (ps : List Text) → concat (cons_first c ps) ≡ c ∷ concat ps
unfolding concat
concat-cons_first c [] = refl
concat-cons_first c (p ∷ ps) = refl

concat-chunked : (n room : ℕ) (s : Text) → concat (chunked n room s) ≡ s
unfolding concat chunked
concat-chunked n room [] = refl
concat-chunked n zero (c ∷ s) =
    concat-cons_first c (chunked n (n - 1) s) ∙ ap (λ x. c ∷ x) (concat-chunked n (n - 1) s)
concat-chunked n (suc room) (c ∷ s) =
    concat-cons_first c (chunked n room s) ∙ ap (λ x. c ∷ x) (concat-chunked n room s)

pub concat-chunks : (n : ℕ) (s : Text) → concat (chunks n s) ≡ s
unfolding concat chunks
concat-chunks n [] = refl
concat-chunks n (c ∷ s) =
    concat-cons_first c (chunked n (n - 1) s) ∙ ap (λ x. c ∷ x) (concat-chunked n (n - 1) s)

-- What the loop makes of a text depends on what it makes of the rest.
filtered-append : (p s t : Text) → filtered s ≡ filtered t → filtered (p ++ s) ≡ filtered (p ++ t)
unfolding filtered
filtered-append [] s t e = e
filtered-append (c ∷ p) s t e =
    ap (λ r. if is_skipped c then r else digit_before c r) (filtered-append p s t e)

pub filtered-join : (ps : List Text) → filtered (join ps) ≡ filtered (concat ps)
unfolding join concat filtered
filtered-join [] = refl
filtered-join (p ∷ []) = ap filtered (sym (List.append-nil p))
filtered-join (p ∷ q ∷ ps) = filtered-append p _ _ (filtered-join (q ∷ ps))

-- A digit of a payload survives the trip through upper case.
digit_kept :
    (c : ℕ)
    → is_payload_digit c ≡ true
    → (is_skipped (to_uppercase c) ≡ false)
      × (is_ascii_hexdigit (to_uppercase c) ≡ true)
      × (to_ascii_lowercase (to_uppercase c) ≡ c)
unfolding is_whitespace
digit_kept c h = (ground arith, ground arith, ground arith)

pub filtered-upper :
    (p : Text) → All (λ c. is_payload_digit c ≡ true) p → filtered (map to_uppercase p) ≡ some p
unfolding filtered
filtered-upper [] h = refl
filtered-upper (c ∷ p) h =
    let (seen, digit, same) = digit_kept c h.0 in rw (seen, digit, filtered-upper p h.1, same) refl

-- Blanks at either end change nothing.
filtered-trim_start : (s : Text) → filtered (trim_start s) ≡ filtered s
unfolding filtered trim_start
filtered-trim_start [] = refl
filtered-trim_start (c ∷ s) = ground (arith, filtered-trim_start s)

filtered-trim_end : (s : Text) → filtered (trim_end s) ≡ filtered s
unfolding filtered trim_end
filtered-trim_end [] = refl
filtered-trim_end (c ∷ s) = ends (trim_end s) (filtered-trim_end s)
  where
    ends :
        (rest : Text)
        → filtered rest ≡ filtered s
        → filtered (if is_whitespace c && is_empty rest then [] else c ∷ rest)
          ≡ (if is_skipped c then filtered s else digit_before c (filtered s))
    ends [] e = ground arith
    ends (d ∷ r) e = ground arith

pub filtered-trim : (s : Text) → filtered (trim s) ≡ filtered s
unfolding trim
filtered-trim s = filtered-trim_end (trim_start s) ∙ filtered-trim_start s
