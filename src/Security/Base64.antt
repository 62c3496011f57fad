-- ===== src/Security/Base64.antt =====
-- src/main/cpp/security/Base64Util.cpp: Base64Util.
use ezbake_common.Common.{
  ℕ, ◌%◌, ◌^◌, Option, none, some, [], Bytes, Outcome, ok, throw, Exception, length_error,
  bad_alloc, length, ltb, if◌then◌else◌,
}
use ezbake_common.OpenSsl.{Bio}
use ezbake_common.Text

-- `static_cast<int>` of a size, with an int of 32 bits; `none` is a negative number.
unfoldable pub to_int : ℕ → Option ℕ
to_int n = let m = n % 2 ^ 32 in if ltb m (2 ^ 31) then some m else none

-- A std::string of a negative length, and an array of a negative length.
abbrev pub too_long : Exception
too_long = record { kind = length_error; what = [] }

abbrev pub bad_length : Exception
bad_length = record { kind = bad_alloc; what = [] }

-- `encode(data, length)`; nothing is written of a negative length.
unfoldable pub encode_data : Bio → Bytes → Option ℕ → Bytes
unfolding Text.take
encode_data bio bytes none = bio.write []
encode_data bio bytes (some n) = bio.write (Text.take n bytes)

-- The overloads for arrays of unsigned char, whose bytes are those of the arrays of char.
unfoldable pub encode_unsigned : Bio → Bytes → Option ℕ → Bytes
unfolding encode_data
encode_unsigned bio bytes n = encode_data bio bytes n

unfoldable pub encode : Bio → Bytes → Bytes
unfolding to_int encode_data
encode bio bytes = encode_data bio bytes (to_int (length bytes))

-- `decode(data, length)`: `BIO_read` into `new char[length]`, and a string of what it returns.
unfoldable pub decode_data : Bio → Bytes → Option ℕ → Outcome Bytes
unfolding Text.take
decode_data bio bytes none = throw bad_length
decode_data bio bytes (some n) = elim (bio.read (Text.take n bytes) n) [
  | none ↦ throw too_long
  | some raw ↦ ok raw
]

unfoldable pub decode_unsigned : Bio → Bytes → Option ℕ → Outcome Bytes
unfolding decode_data
decode_unsigned bio bytes n = decode_data bio bytes n

unfoldable pub decode : Bio → Bytes → Outcome Bytes
unfolding to_int decode_data
decode bio bytes = decode_data bio bytes (to_int (length bytes))
