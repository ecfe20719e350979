-- ===== src/Tests/Identifiers.antt =====
-- Identifiers and hashes of concrete texts.
use linux_stage_asio.Prelude.{◌≡◌, refl, ◌↔◌, true, some, [], ◌∷◌, arith, take}
use linux_stage_asio.Prelude.Words.{Bytes}
use linux_stage_asio.Prelude.Outcome.{done}
use linux_stage_asio.Core.Random.{quality_table, hash_byte, get_hash_code}
use linux_stage_asio.Core.Random.Crc.{crc32, get_hash_code-crc32}
use linux_stage_asio.Uuid.Guid.{
  Guid, format_b, format_x, to_string, parse_exact, hex_to_number, hex_from, equal, not_equal,
}
use linux_stage_asio.Uuid.Guid.RoundTrip.{IsGuid, parse_exact-to_string}
use linux_stage_asio.Uuid.Guid.Memory.{equal_iff}

abbrev a_guid : Guid
a_guid = record {
  data1 = 0x6f9619ff;
  data2 = 0x8b86;
  data3 = 0xd011;
  data4 = 0xb4 ∷ 0x2d ∷ 0x00 ∷ 0xc0 ∷ 0x4f ∷ 0xc9 ∷ 0x64 ∷ 0xff ∷ [];
}

a_guid-IsGuid : IsGuid a_guid
a_guid-IsGuid = record {
  word = omega arith;
  short2 = omega arith;
  short3 = omega arith;
  eight = refl;
  octets = (
    omega arith,
    (
      omega arith,
      (omega arith, (omega arith, (omega arith, (omega arith, (omega arith, (omega arith, tt)))))),
    ),
  );
}

-- The first characters are `{6f96`.
a_guid_text : take 5 (to_string a_guid format_b) ≡ 123 ∷ 54 ∷ 102 ∷ 57 ∷ 54 ∷ []
unfolding to_string
a_guid_text = refl

parse_exact-to_string_example : parse_exact (to_string a_guid format_b) ≡ a_guid
parse_exact-to_string_example = parse_exact-to_string a_guid format_b a_guid-IsGuid (λ e. cc)

-- With the prefixes `0x` the number is lost.
prefixed_lost : (parse_exact (to_string a_guid format_x)).data1 ≡ 0
unfolding parse_exact hex_to_number hex_from to_string
prefixed_lost = refl

equal_iff_example : (equal a_guid a_guid ≡ true) ↔ (a_guid ≡ a_guid)
equal_iff_example = equal_iff a_guid a_guid a_guid-IsGuid a_guid-IsGuid

-- The operator `!=` of an identifier and itself.
not_equal_self : not_equal a_guid a_guid ≡ true
not_equal_self = refl

-- `123456789`
abbrev nine_digits : Bytes
nine_digits = 49 ∷ 50 ∷ 51 ∷ 52 ∷ 53 ∷ 54 ∷ 55 ∷ 56 ∷ 57 ∷ []

get_hash_code-crc32_example : get_hash_code (some nine_digits) 9 ≡ done (crc32 nine_digits)
get_hash_code-crc32_example =
    get_hash_code-crc32 nine_digits
      (
        omega arith,
        (
          omega arith,
          (
            omega arith,
            (
              omega arith,
              (omega arith, (omega arith, (omega arith, (omega arith, (omega arith, tt))))),
            ),
          ),
        ),
      )
      (omega arith)

nine_digits_hash : get_hash_code (some nine_digits) 9 ≡ done 0xCBF43926
unfolding get_hash_code hash_byte quality_table
nine_digits_hash = refl
