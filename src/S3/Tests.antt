-- ===== src/S3/Tests.antt =====
-- The theorems of the S3 texts at concrete inputs.
use ngs3fs.Prelude.{inl, ◌≡◌, ◌↔◌, ◌⊎◌, ℕ, refl, true, [], ◌∷◌, arith, some}
use ngs3fs.S3.Text.{Text, bytes}
use ngs3fs.S3.Path.{uri_encode, is_encoded_request_path}
use ngs3fs.S3.Path.Encode.{IsBytes, is_encoded_request_path-uri_encode}
use ngs3fs.S3.Checksum.{parse_checksum_algorithm, crc64nvme, checksum_option_name}
use ngs3fs.S3.Checksum.Names.{lower_text, parse_checksum_algorithm-option_name}
use ngs3fs.S3.Header.{normalize_header_value}
use ngs3fs.S3.Header.Normal.{normalize_header_value-words, joined, words_of}
use ngs3fs.S3.Range.{Response, cache_response_matches}
use ngs3fs.S3.Range.Exact.{NamesRange, cache_response_matches_iff}

-- "a b/%", and its encoding "a%20b/%25".
abbrev key : Text
key = b'a' ∷ 0x20 ∷ b'b' ∷ b'/' ∷ b'%' ∷ []

key-IsBytes : IsBytes key
key-IsBytes = (omega arith, (omega arith, (omega arith, (omega arith, (omega arith, tt)))))

encoded_key :
    uri_encode key true ≡ b'a' ∷ b'%' ∷ b'2' ∷ b'0' ∷ b'b' ∷ b'/' ∷ b'%' ∷ b'2' ∷ b'5' ∷ []
unfolding uri_encode ngs3fs.S3.Path.is_unreserved ngs3fs.S3.Path.hex_digit
encoded_key = refl

is_encoded_request_path-uri_encode_example :
    is_encoded_request_path (b'/' ∷ uri_encode key true) ≡ true
is_encoded_request_path-uri_encode_example = is_encoded_request_path-uri_encode key true key-IsBytes

mixed_case : lower_text (bytes "CRC64nvme") ≡ checksum_option_name crc64nvme
unfolding lower_text checksum_option_name ngs3fs.S3.Text.to_lower
mixed_case = refl

parse_checksum_algorithm-option_name_example :
    parse_checksum_algorithm (bytes "CRC64nvme") ≡ some crc64nvme
parse_checksum_algorithm-option_name_example =
    parse_checksum_algorithm-option_name crc64nvme (bytes "CRC64nvme") mixed_case

-- " a \t b "
abbrev value : Text
value = 0x20 ∷ b'a' ∷ 0x20 ∷ 0x09 ∷ b'b' ∷ 0x20 ∷ []

normalized : normalize_header_value value ≡ b'a' ∷ 0x20 ∷ b'b' ∷ []
unfolding normalize_header_value ngs3fs.S3.Header.has_header_whitespace ngs3fs.S3.Header.is_space
    ngs3fs.S3.Header.normalize_loop ngs3fs.S3.Header.is_empty
normalized = refl

normalize_header_value-words_example : normalize_header_value value ≡ joined (words_of value)
normalize_header_value-words_example = normalize_header_value-words value

-- The bytes from 8 to 15 of an object of 40.
abbrev partial : Response
partial = record { status = 206; content_range = bytes "bytes 8-15/40"; body_bytes = 8 }

cache_response_matches_iff_example : (cache_response_matches partial 8 8 40 ≡ true) ↔ (
    (partial.body_bytes ≡ 8)
    × (((partial.status ≡ 206) × NamesRange partial.content_range 8 8 40)
        ⊎ ((partial.status ≡ 200) × ◌≡◌ {A = ℕ} 8 0 × ◌≡◌ {A = ℕ} 8 40)))
cache_response_matches_iff_example = cache_response_matches_iff partial 8 8 40

-- It is accepted.
names_range : NamesRange partial.content_range 8 8 40
names_range = record {
  first = bytes "8";
  last = bytes "15";
  total = bytes "40";
  not_empty = omega arith;
  text = refl;
  first_byte = omega arith;
  last_byte = omega arith;
  object_size = omega arith;
}

accepted : cache_response_matches partial 8 8 40 ≡ true
accepted = (cache_response_matches_iff partial 8 8 40).1 (refl, inl (refl, names_range))
