-- ===== src/Fuse/Multipart/Checksum.antt =====
-- The checksums of the parts make that of the whole object.
use ngs3fs.Prelude.{
  ℕ, suc, ◌+◌, ◌^◌, ◌<◌, List, [], ◌∷◌, ◌++◌, map, some, length, add64, ◌≡◌, refl, arith, ap, sym,
  ◌∙◌,
}
use ngs3fs.S3.Path.Encode.{IsBytes}
use ngs3fs.S3.Checksum.{Algorithm}
use ngs3fs.S3.Crc.Update.{IsBytes-append}
use ngs3fs.S3.Combine.{data_crc64, crc64_polynomial}
use ngs3fs.S3.Combine.Whole.{combine_crc64-data_crc64}
use ngs3fs.Fuse.Multipart.{combine_parts, checked_size, combined_multipart_checksum}

-- The object that the parts make.
abbrev pub whole : List (List ℕ) → List ℕ
whole [] = []
whole (p ∷ parts) = p ++ whole parts

abbrev pub AllBytes : List (List ℕ) → Type 0
AllBytes [] = Unit {0}
AllBytes (p ∷ parts) = IsBytes p × AllBytes parts

length-append : (a b : List ℕ) → length (a ++ b) ≡ length a + length b
length-append [] b = omega arith
length-append (x ∷ a) b = omega (arith, length-append a b)

append_assoc : (a b c : List ℕ) → (a ++ b) ++ c ≡ a ++ (b ++ c)
append_assoc [] b c = refl
append_assoc (x ∷ a) b c = ap (λ (t : List ℕ). x ∷ t) (append_assoc a b c)

append_nil : (a : List ℕ) → a ++ [] ≡ a
append_nil [] = refl
append_nil (x ∷ a) = ap (λ (t : List ℕ). x ∷ t) (append_nil a)

-- The loop, with the text `a` behind it.
combine_parts-data_crc64 :
    (g : Algorithm) (p : ℕ) (a : List ℕ) (parts : List (List ℕ))
    → crc64_polynomial g ≡ some p
    → IsBytes a
    → AllBytes parts
    → length (a ++ whole parts) < 2 ^ 64
    → combine_parts g (map (data_crc64 p) parts) (map length parts) (data_crc64 p a) (length a)
      ≡ some (data_crc64 p (a ++ whole parts), length (a ++ whole parts))
unfolding combine_parts
combine_parts-data_crc64 g p a [] found ha hp small =
    ap (λ (t : List ℕ). some (data_crc64 p t, length t)) (sym (append_nil a))
combine_parts-data_crc64 g p a (b ∷ parts) found ha hp small =
    let size = length-append a (b ++ whole parts) in
    let size' = length-append b (whole parts) in
    let one = combine_crc64-data_crc64 g p a b found ha hp.0 (omega (arith, small, size, size')) in
    let joined = append_assoc a b (whole parts) in
    let count : add64 (length a) (length b) ≡ length (a ++ b) =
      omega (arith, small, size, size', length-append a b) in
    rw (one, count)
      (combine_parts-data_crc64 g p (a ++ b) parts found (IsBytes-append a b ha hp.0) hp.1
          (rw joined small)
        ∙ ap (λ (t : List ℕ). some (data_crc64 p t, length t)) joined)

length-map : {B : Type 0} (f : List ℕ → B) (l : List (List ℕ)) → length (map f l) ≡ length l
length-map f [] = refl
length-map f (x ∷ l) = ap suc (length-map f l)

-- Of an algorithm with a CRC-64, and parts that make an object of less than 2 ^ 64 bytes, one part at
-- least: from the checksums and the sizes of the parts, `combined_multipart_checksum` returns the
-- checksum of the object.
pub combined_multipart_checksum-data_crc64 :
    (g : Algorithm) (p : ℕ) (first : List ℕ) (parts : List (List ℕ))
    → crc64_polynomial g ≡ some p
    → AllBytes (first ∷ parts)
    → length (whole (first ∷ parts)) < 2 ^ 64
    → combined_multipart_checksum g
        (map (data_crc64 p) (first ∷ parts))
        (map length (first ∷ parts))
        (length (whole (first ∷ parts)))
      ≡ some (data_crc64 p (whole (first ∷ parts)))
unfolding combined_multipart_checksum checked_size
combined_multipart_checksum-data_crc64 g p first parts found h small =
    let counts : length (map (data_crc64 p) parts) ≡ length (map length parts) =
      length-map (data_crc64 p) parts ∙ sym (length-map length parts) in
    rw (counts, combine_parts-data_crc64 g p first parts found h.0 h.1 small) (ground arith)
