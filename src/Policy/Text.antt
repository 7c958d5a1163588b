-- ===== src/Policy/Text.antt =====
-- The obfuscation-resistant text matching of gateway.go: normal forms, tokens, bounded decoding of
-- nested encodings, and the search of terms among the variants.
use Prim.Native.Char.{code}
use Prim.Native.String.{len, ◌++◌ as cat}
use open_agentic_threat_defe.Go.Runtime.{Platform}
use open_agentic_threat_defe.Go.Strings.{contains, elem, fields_func, keep_chars, lower, trim_space}
use open_agentic_threat_defe.Prelude.{
  Bool, List, Option, String, [], false, find, if◌then◌else◌, leb, ltb, nat_eq, none, not, some,
  suc, true, zero, ℕ, ◌%◌, ◌&&◌, ◌++◌, ◌==◌, ◌||◌, ◌∷◌,
}

module _ ⦃p : Platform⦄ where
  unfoldable pub normalize_gateway_text : String → String
  normalize_gateway_text text = trim_space (lower text)

  unfoldable pub compact_gateway_text : String → String
  compact_gateway_text text = keep_chars (λ c. p.is_letter c || p.is_digit c) (lower text)

  unfoldable pub tokenize_gateway_text : String → List String
  tokenize_gateway_text text =
      fields_func
        (λ c. not (p.is_letter c || p.is_digit c || nat_eq (code c) b'+' || nat_eq (code c) b'/'))
        text

  -- The printable characters of a decoded text, and line breaks and tabs.
  unfoldable pub printable_gateway_bytes : String → String
  printable_gateway_bytes decoded =
      keep_chars
        (λ c. nat_eq (code c) 10 || nat_eq (code c) 13 || nat_eq (code c) 9 || p.is_print c) decoded

  -- The loop over the characters of `looksBase64Like`.
  base64_chars : String → Bool
  base64_chars String.[] = true
  base64_chars (String.◌∷◌ c s) =
      (p.is_letter c
        || p.is_digit c
        || nat_eq (code c) b'+'
        || nat_eq (code c) b'/'
        || nat_eq (code c) b'-'
        || nat_eq (code c) b'_'
        || nat_eq (code c) b'=')
      && base64_chars s

  unfoldable pub looks_base64_like : String → Bool
  unfolding base64_chars
  looks_base64_like token = if ltb (len token) 8 then false else base64_chars token

  unfoldable pub pad_base64 : String → String
  pad_base64 token =
      let t = trim_space token in
      if nat_eq (len t % 4) 2 then cat t "==" else if nat_eq (len t % 4) 3 then cat t "=" else t

-- The loop over the characters of `looksHexLike`.
hex_chars : String → Bool
hex_chars String.[] = true
hex_chars (String.◌∷◌ c s) =
    (leb b'0' (code c) && leb (code c) b'9'
      || leb b'a' (code c) && leb (code c) b'f'
      || leb b'A' (code c) && leb (code c) b'F')
    && hex_chars s

unfoldable pub looks_hex_like : String → Bool
unfolding hex_chars
looks_hex_like token =
    if ltb (len token) 8 || not (nat_eq (len token % 2) 0) then false else hex_chars token

module _ ⦃p : Platform⦄ where
  -- The closure `add` of `decodeGatewayCandidatesDepth`: the candidates that one decoding gives,
  -- where `deeper` decodes what it holds. A failed decoding gives none.
  unfoldable pub add_decoded : (String → List String) → String → Option String → List String
  add_decoded deeper token none = []
  add_decoded deeper token (some decoded) =
      let raw = printable_gateway_bytes decoded in
      let normalized = normalize_gateway_text raw in
      if trim_space raw == "" || raw == token
      then []
      else if normalized == ""
      then deeper raw
      else normalized ∷ deeper raw

  unfoldable pub decode_gateway_candidates_depth : ℕ → String → List String
  unfolding add_decoded
  decode_gateway_candidates_depth zero token = []
  decode_gateway_candidates_depth (suc depth) token =
      let deeper = decode_gateway_candidates_depth depth in
      let padded = pad_base64 token in
      let from_base64 =
        add_decoded deeper token (p.base64_std padded)
        ++ (add_decoded deeper token (p.base64_raw_std padded)
            ++ (add_decoded deeper token (p.base64_url padded)
                ++ add_decoded deeper token (p.base64_raw_url padded))) in
      let from_hex = add_decoded deeper token (p.hex_decode token) in
      (if looks_base64_like token then from_base64 else [])
      ++ (if looks_hex_like token then from_hex else [])

  unfoldable pub decode_gateway_candidates : String → List String
  decode_gateway_candidates token = decode_gateway_candidates_depth 3 token

  -- The closure `add` of `gatewayTextVariants` and `termVariants`; `seen` holds what is in
  -- `variants`.
  unfoldable pub add_variant : List String → String → List String
  add_variant variants text =
      let t = normalize_gateway_text text in
      if t == "" || elem t variants then variants else variants ++ t ∷ []

  add_variants : List String → List String → List String
  unfolding add_variant
  add_variants variants [] = variants
  add_variants variants (text ∷ texts) = add_variants (add_variant variants text) texts

  with_compact : List String → List String
  with_compact [] = []
  with_compact (x ∷ xs) = x ∷ compact_gateway_text x ∷ with_compact xs

  -- What is added for the tokens of one value, in order.
  token_texts : List String → List String
  unfolding with_compact
  token_texts [] = []
  token_texts (token ∷ tokens) =
      token ∷ compact_gateway_text token ∷ with_compact (decode_gateway_candidates token)
      ++ token_texts tokens

  -- What is added for all values, in order.
  value_texts : List String → List String
  unfolding token_texts
  value_texts [] = []
  value_texts (value ∷ values) =
      value ∷ compact_gateway_text value ∷ token_texts (tokenize_gateway_text value)
      ++ value_texts values

  unfoldable pub gateway_text_variants : List String → List String
  unfolding add_variants value_texts
  gateway_text_variants values = add_variants [] (value_texts values)

  unfoldable pub term_variants : String → List String
  unfolding add_variants
  term_variants term = add_variants [] (term ∷ compact_gateway_text term ∷ [])

-- A hit: the term, and the variant in which it was found.
pub record TermMatch : Type 0 where
  pub term : String
  pub variant : String

-- The loop over the variants.
find_needle : String → List String → Option String
find_needle needle variants = find (λ v. not (needle == "") && contains v needle) variants

-- The loop over the needles of one term.
find_needles : List String → List String → Option String
unfolding find_needle
find_needles [] variants = none
find_needles (needle ∷ needles) variants =
    let rest = find_needles needles variants in
    elim (find_needle needle variants) [ some v ↦ some v | none ↦ rest ]

module _ ⦃p : Platform⦄ where
  unfoldable pub gateway_contains_any : List String → List String → Option TermMatch
  unfolding find_needles
  gateway_contains_any variants [] = none
  gateway_contains_any variants (term ∷ terms) =
      let rest = gateway_contains_any variants terms in
      elim (find_needles (term_variants term) variants) [
        | some v ↦ some (record { term = term; variant = v })
        | none ↦ rest
      ]
