-- ===== src/Http/Codes/Laws.antt =====
-- backend/src/http.rs: a claim code is read back as the payload it was made of, however it is cased,
-- grouped or spaced.
use shuestand.Prelude.{
  ℕ, ◌≡◌, refl, ap, subst, ◌∙◌, arith, Option, none, some, [], ◌∷◌, ◌++◌, Bool, true, false, ◌&&◌,
  ◌==◌, map, length, All, if◌then◌else◌, Bool-cases, inl, inr,
}
use shuestand.Prelude.Text.{
  Text, codes, trim, trim_start, trim_end, is_empty, strip_prefix, is_whitespace, is_ascii_hexdigit,
  to_ascii_lowercase, to_uppercase,
}
use shuestand.Http.Codes.{
  session_token_prefix, session_token_hex_len, session_claim_group_len, chunks,
  claim_code_from_token_payload, normalize_session_token, all_hexdigits, filtered, is_skipped,
  digit_before, normalize_claim_code, normal_payload, of_length, unprefixed,
}
use shuestand.Http.Codes.Loop.{
  is_payload_digit, IsPayload, concat-chunks, filtered-join, filtered-upper, filtered-trim,
}
use mathlib.Core.Option.{some_inj}

unprefixed_other : (c : ℕ) (s : Text) → (b's' == c) ≡ false → unprefixed (c ∷ s) ≡ c ∷ s
unfolding strip_prefix
unprefixed_other c s miss =
    ap
      (λ b. elim (if b then strip_prefix (codes "t_") s else none) as (λ _. Text) [
        | none ↦ c ∷ s
        | some rest ↦ rest
      ])
      miss

-- A text that the loop reads does not begin with the token's prefix.
unprefixed_read : (s p : Text) → filtered s ≡ some p → filtered (unprefixed s) ≡ some p
unfolding strip_prefix filtered is_whitespace
unprefixed_read [] p e = e
unprefixed_read (c ∷ s) p e = elim (Bool-cases (b's' == c)) [
  | inl hit ↦
      let letter : b's' ≡ c = ground arith in
      let none_read : filtered (c ∷ s) ≡ none = subst (λ x. filtered (x ∷ s) ≡ none) letter refl in
      cc
  | inr miss ↦ ap filtered (unprefixed_other c s miss) ∙ e
]

-- A text whose characters, but for hyphens and blanks, are the digits of a payload is read as it.
read_code : (s p : Text) → filtered s ≡ some p → IsPayload p → normalize_claim_code s ≡ some p
unfolding normalize_claim_code
read_code s p e h =
    ap (λ r. elim r as (λ _. Option Text) [ none ↦ none | some q ↦ of_length q ])
      (unprefixed_read (trim s) p (filtered-trim s ∙ e))
    ∙ rw h.0 refl

-- A claim code is read back as the payload of the token that it stands for.
pub normalize_claim_code-claim_code :
    (p : Text) → IsPayload p → normalize_claim_code (claim_code_from_token_payload p) ≡ some p
unfolding claim_code_from_token_payload
normalize_claim_code-claim_code p h =
    read_code _ p
      (filtered-join (chunks session_claim_group_len (map to_uppercase p))
        ∙ ap filtered (concat-chunks session_claim_group_len (map to_uppercase p))
        ∙ filtered-upper p h.1)
      h

-- What is written in digits of a payload is kept as it is.
abbrev IsDigits : Text → Type 0
IsDigits p = All (λ c. is_payload_digit c ≡ true) p

trim_end-IsDigits : (p : Text) → IsDigits p → trim_end p ≡ p
unfolding trim_end is_whitespace
trim_end-IsDigits [] h = refl
trim_end-IsDigits (c ∷ p) h =
    let ih = trim_end-IsDigits p h.1 in
    let seen : (is_whitespace c && is_empty (trim_end p)) ≡ false = let d = h.0 in ground arith in
    rw seen (ap (λ x. c ∷ x) ih)

all_hexdigits-IsDigits : (p : Text) → IsDigits p → all_hexdigits p ≡ true
unfolding all_hexdigits
all_hexdigits-IsDigits [] h = refl
all_hexdigits-IsDigits (c ∷ p) h =
    let ih = all_hexdigits-IsDigits p h.1 in let d = h.0 in ground arith

lower-IsDigits : (p : Text) → IsDigits p → map to_ascii_lowercase p ≡ p
lower-IsDigits [] h = refl
lower-IsDigits (c ∷ p) h =
    let ih = lower-IsDigits p h.1 in
    let d = h.0 in let same : to_ascii_lowercase c ≡ c = ground arith in cc

normal_payload-IsPayload :
    (p : Text) → IsPayload p → normal_payload p ≡ some (session_token_prefix ++ p)
normal_payload-IsPayload p h = rw (h.0, all_hexdigits-IsDigits p h.1, lower-IsDigits p h.1) refl

-- The token of a payload is normal as it is.
pub normalize_session_token-token :
    (p : Text)
    → IsPayload p
    → normalize_session_token (session_token_prefix ++ p) ≡ some (session_token_prefix ++ p)
unfolding normalize_session_token trim trim_start strip_prefix is_whitespace
normalize_session_token-token p h =
    ap normal_payload (trim_end-IsDigits p h.1) ∙ normal_payload-IsPayload p h

-- Whatever the loop reads is in digits of a payload.
filtered-IsDigits : (s p : Text) → filtered s ≡ some p → IsDigits p
unfolding filtered
filtered-IsDigits [] p e = subst IsDigits (some_inj.0 e) tt
filtered-IsDigits (c ∷ s) p e = go (is_skipped c) (filtered s) (filtered-IsDigits s) e
  where
    digit_low : is_ascii_hexdigit c ≡ true → is_payload_digit (to_ascii_lowercase c) ≡ true
    digit_low h = ground arith

    go :
        (b : Bool) (rest : Option Text)
        → ((q : Text) → rest ≡ some q → IsDigits q)
        → (if b then rest else digit_before c rest) ≡ some p
        → IsDigits p
    go true rest ih k = ih p k
    go false none ih k = absurd (ground arith)
    go false (some q) ih k = elim (Bool-cases (is_ascii_hexdigit c)) [
      | inl hex ↦ subst IsDigits (some_inj.0 (rw hex at k)) (digit_low hex, ih q refl)
      | inr other ↦ let k' : ◌≡◌ {A = Option Text} none (some p) = rw other at k in cc
    ]

of_length-IsPayload : (q p : Text) → IsDigits q → of_length q ≡ some p → IsPayload p
of_length-IsPayload q p h e = elim (Bool-cases (length q == session_token_hex_len)) [
  | inl long ↦
      let same : q ≡ p = some_inj.0 (rw long at e) in subst IsPayload same (ground arith, h)
  | inr short ↦ let e' : ◌≡◌ {A = Option Text} none (some p) = rw short at e in cc
]

-- Whatever is read as a claim code is the payload of a token.
pub normalize_claim_code-IsPayload : (s p : Text) → normalize_claim_code s ≡ some p → IsPayload p
unfolding normalize_claim_code
normalize_claim_code-IsPayload s p e =
    go (filtered (unprefixed (trim s))) (filtered-IsDigits (unprefixed (trim s))) e
  where
    go :
        (r : Option Text)
        → ((q : Text) → r ≡ some q → IsDigits q)
        → elim r as (λ _. Option Text) [ none ↦ none | some q ↦ of_length q ] ≡ some p
        → IsPayload p
    go none h k = cc
    go (some q) h k = of_length-IsPayload q p (h q refl) k
