-- ===== src/Http/Codes.antt =====
-- backend/src/http.rs: the token of a session and the claim code that a user writes down for it.
pub mod Loop
pub mod Laws
use shuestand.Prelude.{
  ℕ, zero, suc, ◌-◌, Option, none, some, List, [], ◌∷◌, ◌++◌, Bool, true, ◌&&◌, ◌||◌, ◌==◌, map,
  length, if◌then◌else◌,
}
use shuestand.Prelude.Text.{
  Text, codes, cons_first, trim, strip_prefix, is_whitespace, is_ascii_hexdigit, to_ascii_lowercase,
  to_uppercase,
}
use mathlib.Core.Option

abbrev pub session_token_prefix : Text
session_token_prefix = codes "st_"

abbrev pub session_token_hex_len : ℕ
session_token_hex_len = 32

abbrev pub session_claim_group_len : ℕ
session_claim_group_len = 8

abbrev pub hyphen : ℕ
hyphen = b'-'

-- `slice::chunks`: the rest of a chunk that has room for some more, and the chunks after it.
unfoldable pub chunked : ℕ → ℕ → Text → List Text
chunked n room [] = [] ∷ []
chunked n zero (c ∷ s) = [] ∷ cons_first c (chunked n (n - 1) s)
chunked n (suc room) (c ∷ s) = cons_first c (chunked n room s)

unfoldable pub chunks : ℕ → Text → List Text
unfolding chunked
chunks n [] = []
chunks n (c ∷ s) = cons_first c (chunked n (n - 1) s)

-- `join("-")`.
unfoldable pub join : List Text → Text
join [] = []
join (p ∷ []) = p
join (p ∷ q ∷ ps) = p ++ hyphen ∷ join (q ∷ ps)

unfoldable pub claim_code_from_token_payload : Text → Text
unfolding chunks join
claim_code_from_token_payload payload =
    join (chunks session_claim_group_len (map to_uppercase payload))

unfoldable pub all_hexdigits : Text → Bool
all_hexdigits [] = true
all_hexdigits (c ∷ s) = is_ascii_hexdigit c && all_hexdigits s

-- The two checks on the payload: its length in bytes is that in characters once all are digits.
abbrev pub normal_payload : Text → Option Text
normal_payload payload =
    if length payload == session_token_hex_len
    then (if all_hexdigits payload
        then some (session_token_prefix ++ map to_ascii_lowercase payload)
        else none)
    else none

unfoldable pub normalize_session_token : Text → Option Text
unfolding all_hexdigits
normalize_session_token value = elim (strip_prefix session_token_prefix (trim value)) [
  | none ↦ none
  | some payload ↦ normal_payload payload
]

-- The loop over the characters: hyphens and blanks are left out, and any other character that is no
-- digit ends it without a code.
abbrev pub is_skipped : ℕ → Bool
is_skipped c = c == hyphen || is_whitespace c

abbrev pub digit_before : ℕ → Option Text → Option Text
digit_before c rest =
    if is_ascii_hexdigit c then Option.map (λ p. to_ascii_lowercase c ∷ p) rest else none

unfoldable pub filtered : Text → Option Text
filtered [] = some []
filtered (c ∷ s) = let rest = filtered s in if is_skipped c then rest else digit_before c rest

abbrev pub of_length : Text → Option Text
of_length p = if length p == session_token_hex_len then some p else none

abbrev pub unprefixed : Text → Text
unprefixed trimmed = elim (strip_prefix session_token_prefix trimmed) [
  | none ↦ trimmed
  | some rest ↦ rest
]

unfoldable pub normalize_claim_code : Text → Option Text
unfolding filtered
normalize_claim_code input = elim (filtered (unprefixed (trim input))) [
  | none ↦ none
  | some p ↦ of_length p
]
