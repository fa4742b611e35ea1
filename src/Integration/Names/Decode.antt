-- ===== src/Integration/Names/Decode.antt =====
-- Escaping loses nothing: the directory decodes an escaped value to the value.
use rustdesk_server_nemo.Base.{
  ℕ, zero, suc, ◌+◌, ◌-◌, ◌*◌, ◌≡◌, refl, ap, ◌∙◌, [], ◌∷◌, ◌++◌, Str, arith, ltb, ◌==◌,
  if◌then◌else◌,
}
use rustdesk_server_nemo.Integration.Names.{backslash, escape_char, escape_filter}

-- The value of a lower-case hexadecimal digit.
abbrev hex_digit : ℕ → ℕ
hex_digit c = if ltb c b'a' then c - b'0' else c - b'a' + 10

abbrev hex_pair : Str → ℕ
hex_pair [] = 0
hex_pair (h ∷ []) = 0
hex_pair (h ∷ l ∷ s) = hex_digit h * 16 + hex_digit l

-- RFC 4515: a backslash and two hexadecimal digits stand for the octet of that value.
pub decode_from : ℕ → Str → Str
decode_from skip [] = []
decode_from (suc skip) (c ∷ s) = decode_from skip s
decode_from zero (c ∷ s) =
    let after = decode_from 2 s in
    let on = decode_from 0 s in if c == backslash then hex_pair s ∷ after else c ∷ on

decode-escape_char : (c : ℕ) (s : Str) → decode_from 0 (escape_char c ++ s) ≡ c ∷ decode_from 0 s
unfolding decode_from escape_char
decode-escape_char c s = ground arith

decode_nil : decode_from 0 [] ≡ []
unfolding decode_from
decode_nil = refl

-- Decoding an escaped value gives the value back.
pub decode-escape_filter : (s : Str) → decode_from 0 (escape_filter s) ≡ s
unfolding escape_filter
decode-escape_filter [] = decode_nil
decode-escape_filter (c ∷ s) =
    decode-escape_char c (escape_filter s) ∙ ap (◌∷◌ c) (decode-escape_filter s)
