-- ===== src/Uuid/Guid/RoundTrip.antt =====
-- uuid/Guid.cpp: reading what `ToString` writes.
use linux_stage_asio.Prelude.{
  ℕ, ◌^◌, ◌<◌, ◌≡◌, refl, sym, ap, subst, ◌∙◌, ◌≢◌, [], ◌∷◌, ◌++◌, append-nil, arith, length, take,
  drop,
}
use linux_stage_asio.Prelude.Words.{Bytes, IsBytes}
use linux_stage_asio.Uuid.Guid.{
  Guid, ToStringFormat, format_d, format_n, format_b, format_p, format_x, print_hex, print_bytes,
  dashed, to_string, char_kind, separator, hex_to_number, hex_from, read_bytes, parse_exact,
}
use linux_stage_asio.Uuid.Guid.Digits.{
  read_short, read_word, hex_to_number-separator, read_bytes-print_bytes, read_bytes-separator,
  more,
}

-- The members have their width.
pub record IsGuid (g : Guid) : Type 0 where
  pub word : g.data1 < 2 ^ 32
  pub short2 : g.data2 < 2 ^ 16
  pub short3 : g.data3 < 2 ^ 16
  pub eight : length g.data4 ≡ 8
  pub octets : IsBytes g.data4

-- What `ParseExact` makes of the number and the rest that it has read last.
abbrev with_data3 : ℕ → ℕ → ℕ × Bytes → Guid
with_data3 d1 d2 r = record { data1 = d1; data2 = d2; data3 = r.0; data4 = read_bytes 8 r.1 }

abbrev with_data2 : ℕ → ℕ × Bytes → Guid
with_data2 d1 r = with_data3 d1 r.0 (hex_to_number 2 r.1)

abbrev assembled : ℕ × Bytes → Guid
assembled r = with_data2 r.0 (hex_to_number 2 r.1)

parse_exact_reads : (text : Bytes) → parse_exact text ≡ assembled (hex_to_number 4 text)
unfolding parse_exact
parse_exact_reads [] = refl
parse_exact_reads (ch ∷ text) = refl

parse_exact_chain :
    (text s1 s2 s3 : Bytes) (d1 d2 d3 : ℕ) (d4 : Bytes)
    → hex_to_number 4 text ≡ (d1, s1)
    → hex_to_number 2 s1 ≡ (d2, s2)
    → hex_to_number 2 s2 ≡ (d3, s3)
    → read_bytes 8 s3 ≡ d4
    → parse_exact text ≡ record { data1 = d1; data2 = d2; data3 = d3; data4 = d4 }
parse_exact_chain text s1 s2 s3 d1 d2 d3 d4 a b c d =
    parse_exact_reads text
    ∙ ap assembled a
    ∙ ap (with_data2 d1) b
    ∙ ap (with_data3 d1 d2) c
    ∙ ap (λ data4. record { data1 = d1; data2 = d2; data3 = d3; data4 = data4 }) d

read_bytes_none : (stream : Bytes) → read_bytes 0 stream ≡ []
unfolding read_bytes
read_bytes_none stream = refl

module _ (g : Guid) (h : IsGuid g) where
  eight_split :
      (a b : ℕ) × (rest : Bytes) × (g.data4 ≡ a ∷ b ∷ rest)
      × (length rest ≡ 6)
      × (a < 2 ^ 8)
      × (b < 2 ^ 8)
      × IsBytes rest
  eight_split = go g.data4 h.eight h.octets
    where
      go :
          (d : Bytes)
          → length d ≡ 8
          → IsBytes d
          → (a b : ℕ) × (rest : Bytes) × (d ≡ a ∷ b ∷ rest)
            × (length rest ≡ 6)
            × (a < 2 ^ 8)
            × (b < 2 ^ 8)
            × IsBytes rest
      go [] e o = absurd (omega (arith, e))
      go (a ∷ []) e o = absurd (omega (arith, e))
      go (a ∷ b ∷ rest) e o = (a, b, rest, refl, omega (arith, e), o.0, o.1.0, o.1.1)

  read_tail : (close : Bytes) → read_bytes 8 (print_bytes g.data4 ++ close) ≡ g.data4
  read_tail close =
      subst (λ n. read_bytes (more n 0) (print_bytes g.data4 ++ close) ≡ g.data4) h.eight
        (read_bytes-print_bytes g.data4 close 0 h.octets
          ∙ (ap (λ r. g.data4 ++ r) (read_bytes_none close) ∙ append-nil g.data4))

  read_dashed_tail :
      (close : Bytes)
      → read_bytes 8
          (print_bytes (take 2 g.data4) ++ (b'-' ∷ (print_bytes (drop 2 g.data4) ++ close)))
        ≡ g.data4
  read_dashed_tail close =
      let (a, b, rest, e, six, ha, hb, hr) = eight_split in
      subst
        (λ (d : Bytes).
          read_bytes 8 (print_bytes (take 2 d) ++ (b'-' ∷ (print_bytes (drop 2 d) ++ close))) ≡ d)
        (sym e)
        (read_bytes-print_bytes (a ∷ b ∷ []) (b'-' ∷ (print_bytes rest ++ close)) 6 (ha, (hb, tt))
          ∙ ap (λ r. a ∷ b ∷ r)
              (read_bytes-separator 5 b'-' (print_bytes rest ++ close) refl
                ∙ subst (λ n. read_bytes (more n 0) (print_bytes rest ++ close) ≡ rest) six
                    (read_bytes-print_bytes rest close 0 hr
                      ∙ ap (λ r. rest ++ r) (read_bytes_none close)
                      ∙ append-nil rest)))

  -- The four members one after the other, between what is passed over.
  read_dashed : (close : Bytes) → parse_exact (dashed g close) ≡ g
  read_dashed close =
      let t3 : Bytes =
        print_bytes (take 2 g.data4) ++ (b'-' ∷ (print_bytes (drop 2 g.data4) ++ close)) in
      let t2 : Bytes = print_hex 4 g.data3 ++ (b'-' ∷ t3) in
      let t1 : Bytes = print_hex 4 g.data2 ++ (b'-' ∷ t2) in
      parse_exact_chain (dashed g close) (b'-' ∷ t1) (b'-' ∷ t2) (b'-' ∷ t3) g.data1 g.data2 g.data3
        g.data4 (read_word g.data1 (b'-' ∷ t1) h.word)
        (hex_to_number-separator 2 b'-' t1 (omega arith) refl
          ∙ read_short g.data2 (b'-' ∷ t2) h.short2)
        (hex_to_number-separator 2 b'-' t2 (omega arith) refl
          ∙ read_short g.data3 (b'-' ∷ t3) h.short3)
        (read_bytes-separator 7 b'-' t3 refl ∙ read_dashed_tail close)

  read_plain : parse_exact (to_string g format_n) ≡ g
  unfolding to_string
  read_plain =
      let t3 : Bytes = print_bytes g.data4 in
      let t2 : Bytes = print_hex 4 g.data3 ++ t3 in
      let t1 : Bytes = print_hex 4 g.data2 ++ t2 in
      parse_exact_chain (to_string g format_n) t1 t2 t3 g.data1 g.data2 g.data3 g.data4
        (read_word g.data1 t1 h.word) (read_short g.data2 t2 h.short2)
        (read_short g.data3 t3 h.short3)
        (ap (read_bytes 8) (sym (append-nil (print_bytes g.data4))) ∙ read_tail [])

  read_closed :
      (open_char close_char : ℕ)
      → char_kind open_char ≡ separator
      → parse_exact (open_char ∷ dashed g (close_char ∷ [])) ≡ g
  read_closed open_char close_char e =
      parse_exact_reads (open_char ∷ dashed g (close_char ∷ []))
      ∙ ap assembled
          (hex_to_number-separator 4 open_char (dashed g (close_char ∷ [])) (omega arith) e)
      ∙ sym (parse_exact_reads (dashed g (close_char ∷ [])))
      ∙ read_dashed (close_char ∷ [])

-- `ParseExact` reads back what `ToString` writes of an identifier whose members have their width, in
-- each format but the one with prefixes `0x`.
pub parse_exact-to_string :
    (g : Guid) (format : ToStringFormat)
    → IsGuid g
    → format ≢ format_x
    → parse_exact (to_string g format) ≡ g
unfolding to_string
parse_exact-to_string g format_d h n = read_dashed g h []
parse_exact-to_string g format_n h n = read_plain g h
parse_exact-to_string g format_b h n = read_closed g h b'{' b'}' refl
parse_exact-to_string g format_p h n = read_closed g h b'(' b')' refl
parse_exact-to_string g format_x h n = absurd (n refl)

-- The format with prefixes is not read back: its first number comes out as 0, whatever it was.
pub parse_exact-to_string_prefixed : (g : Guid) → (parse_exact (to_string g format_x)).data1 ≡ 0
unfolding to_string parse_exact hex_to_number hex_from
parse_exact-to_string_prefixed g = refl
