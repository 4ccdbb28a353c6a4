-- ===== src/Http/Client.antt =====
-- backend/src/http.rs: where a request is from, `request_client_hint` and `client_subnet_hint`. A
-- header is `none` where it is missing or no text.
use shuestand.Prelude.{
  ℕ, ◌<◌, ◌≡◌, refl, arith, ap, ◌∙◌, Option, none, some, List, [], ◌∷◌, ◌++◌, Bool, true, false,
  ◌==◌, if◌then◌else◌, Bool-cases, inl, inr, ltb, All,
}
use shuestand.Prelude.Text.{
  Text, codes, is_empty, split, trim, parse_u8, print_u8, parse_u8-print_u8,
}

pub record ClientHeaders : Type 0 where
  pub forwarded_for : Option Text
  pub real_ip : Option Text

abbrev pub comma : ℕ
comma = b','

abbrev pub dot : ℕ
dot = b'.'

-- The trimmed value, unless it is blank.
abbrev pub non_blank : Text → Option Text
non_blank s = if is_empty (trim s) then none else some (trim s)

abbrev pub first_of : List Text → Option Text
first_of [] = none
first_of (p ∷ ps) = non_blank p

-- The client that the first proxy saw.
unfoldable pub forwarded : Option Text → Option Text
forwarded none = none
forwarded (some raw) = first_of (split comma raw)

abbrev pub direct : Option Text → Text
direct none = codes "unknown"
direct (some raw) = elim (non_blank raw) [ none ↦ codes "unknown" | some value ↦ value ]

unfoldable pub request_client_hint : Bool → ClientHeaders → Text
request_client_hint false headers = codes "proxy-untrusted"
request_client_hint true headers = elim (forwarded headers.forwarded_for) [
  | some value ↦ value
  | none ↦ direct headers.real_ip
]

abbrev pub dotted : ℕ → ℕ → ℕ → Text
dotted a b c = print_u8 a ++ dot ∷ (print_u8 b ++ dot ∷ print_u8 c)

infixl 5 ◌>>=◌
abbrev ◌>>=◌ : {A B : Type 0} → Option A → (A → Option B) → Option B
none >>= f = none
some a >>= f = f a

-- The four parts of an IPv4 address, and no more; the last is parsed and left out.
abbrev pub subnet_of : List Text → Option Text
subnet_of (p ∷ q ∷ r ∷ s ∷ []) = do
  a ← parse_u8 p
  b ← parse_u8 q
  c ← parse_u8 r
  d ← parse_u8 s
  some (dotted a b c)
subnet_of _ = none

unfoldable pub client_subnet_hint : Text → Option Text
client_subnet_hint client_hint = subnet_of (split dot client_hint)

Without : ℕ → Text → Type 0
Without sep p = All (λ c. (c == sep) ≡ false) p

split-part :
    (sep : ℕ) (p rest : Text) → Without sep p → split sep (p ++ sep ∷ rest) ≡ p ∷ split sep rest
unfolding Without split
split-part sep [] rest h = ground arith
split-part sep (c ∷ p) rest h = rw (h.0, split-part sep p rest h.1) refl

split-last : (sep : ℕ) (p : Text) → Without sep p → split sep p ≡ p ∷ []
unfolding Without split
split-last sep [] h = refl
split-last sep (c ∷ p) h = rw (h.0, split-last sep p h.1) refl

print_u8-Without : (n : ℕ) → n < 256 → Without dot (print_u8 n)
unfolding Without print_u8
print_u8-Without n h = elim (Bool-cases (ltb n 10)) [
  | inl small ↦ rw small (ground arith, tt)
  | inr more ↦ rw more (elim (Bool-cases (ltb n 100)) [
    | inl two ↦ rw two (ground arith, (ground arith, tt))
    | inr three ↦ rw three (ground arith, (ground arith, (ground arith, tt)))
  ])
]

-- The subnet of an IPv4 address is its first three numbers, whatever the last one is.
pub client_subnet_hint-dotted :
    (a b c d : ℕ)
    → a < 256
    → b < 256
    → c < 256
    → d < 256
    → client_subnet_hint
        (print_u8 a ++ dot ∷ (print_u8 b ++ dot ∷ (print_u8 c ++ dot ∷ print_u8 d)))
      ≡ some (dotted a b c)
unfolding client_subnet_hint
client_subnet_hint-dotted a b c d ha hb hc hd =
    let parts =
      split-part dot (print_u8 a) _ (print_u8-Without a ha)
      ∙ ap (λ ps. print_u8 a ∷ ps)
          (split-part dot (print_u8 b) _ (print_u8-Without b hb)
            ∙ ap (λ ps. print_u8 b ∷ ps)
                (split-part dot (print_u8 c) (print_u8 d) (print_u8-Without c hc)
                  ∙ ap (λ ps. print_u8 c ∷ ps)
                      (split-last dot (print_u8 d) (print_u8-Without d hd)))) in
    ap subnet_of parts
    ∙ rw
        (
          parse_u8-print_u8 a ha,
          parse_u8-print_u8 b hb,
          parse_u8-print_u8 c hc,
          parse_u8-print_u8 d hd,
        )
        refl
