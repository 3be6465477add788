-- ===== src/Cache/Bitmap/Update.antt =====
-- Writing a page's state is seen at that page, and at no other.
use ngs3fs.Prelude.{
  ℕ, zero, suc, ◌*◌, ◌/◌, ◌%◌, ◌^◌, ◌≤◌, ◌<◌, ◌≡◌, refl, ◌≢◌, arith, word, ◌==◌, if◌then◌else◌, ap,
  Bool-cases, inl, inr, ◌∙◌, ==_iff,
}
use ngs3fs.Cache.Bitmap.{
  PageState, missing, read_pending, clean, bad, bits, from_bits, Words, store_word, put_bits, shl,
  not64, page_state, set_page_state,
}
use ngs3fs.Cache.Bitmap.Field.{
  field, field_lem, write_field, others, pow_room, field-write_field_self, field-write_field_ne,
}

pub from_bits-bits : (s : PageState) → from_bits (bits s) ≡ s
unfolding from_bits bits
from_bits-bits missing = refl
from_bits-bits read_pending = refl
from_bits-bits clean = refl
from_bits-bits bad = refl

pub bits-from_bits : (n : ℕ) → n < 4 → bits (from_bits n) ≡ n
unfolding from_bits bits
bits-from_bits zero h = refl
bits-from_bits (suc zero) h = refl
bits-from_bits (suc (suc zero)) h = refl
bits-from_bits (suc (suc (suc n))) h = omega arith

pub bits-lt : (s : PageState) → bits s < 4
unfolding bits
bits-lt missing = omega arith
bits-lt read_pending = omega arith
bits-lt clean = omega arith
bits-lt bad = omega arith

pub page_state-field :
    (w : Words) (p : ℕ) → page_state w p ≡ from_bits (field (w (p / 32)) (p % 32))
unfolding page_state
page_state-field w p = ap from_bits (field_lem (p % 32) (w (p / 32)))

mul-le-three : (v t : ℕ) → v < 4 → v * t ≤ 3 * t
mul-le-three zero t h = omega arith
mul-le-three (suc zero) t h = omega arith
mul-le-three (suc (suc zero)) t h = omega arith
mul-le-three (suc (suc (suc v))) t h = let e : v ≡ 0 = omega arith in rw e (omega arith)

-- No shift of the code loses a bit of the field.
put_bits-eq-write_field : (x i v : ℕ) → i < 32 → v < 4 → put_bits x (i * 2) v ≡ write_field 32 i x v
unfolding put_bits write_field
put_bits-eq-write_field x i v hi hv = rw (mask, value)
  where
    room : 4 * 2 ^ (i * 2) ≤ word
    room = pow_room 32 i hi

    small : v * 2 ^ (i * 2) < word
    small = omega (arith, mul-le-three v (2 ^ (i * 2)) hv, room)

    value : shl v (i * 2) ≡ v * 2 ^ (i * 2)
    value = omega (arith, small)

    mask : not64 (shl 3 (i * 2)) ≡ others 32 i
    mask = omega (arith, room)

put_bits_self : (x i v : ℕ) → i < 32 → v < 4 → field (put_bits x (i * 2) v) i ≡ v
put_bits_self x i v hi hv =
    rw (put_bits-eq-write_field x i v hi hv) (field-write_field_self 32 i x v hi hv)

put_bits_ne :
    (x i j v : ℕ) → i < 32 → j < 32 → i ≢ j → v < 4 → field (put_bits x (i * 2) v) j ≡ field x j
put_bits_ne x i j v hi hj ne hv =
    rw (put_bits-eq-write_field x i v hi hv) (field-write_field_ne 32 i j x v hi hj ne hv)

set_self : (w : Words) (p : ℕ) (s : PageState) → page_state (set_page_state w p s) p ≡ s
unfolding set_page_state store_word
set_self w p s =
    rw (page_state-field, (==_iff (p / 32) (p / 32)).1 refl)
      (ap from_bits (put_bits_self (w (p / 32)) (p % 32) (bits s) (omega arith) (bits-lt s))
        ∙ from_bits-bits s)

set_ne :
    (w : Words) (p q : ℕ) (s : PageState)
    → p ≢ q
    → page_state (set_page_state w p s) q ≡ page_state w q
unfolding set_page_state store_word
set_ne w p q s ne =
    rw (page_state-field (set_page_state w p s) q, page_state-field w q)
      (elim (Bool-cases (p / 32 == q / 32)) [
        | inl same ↦ rw same (
            ap from_bits (
              let e : p / 32 ≡ q / 32 = (==_iff (p / 32) (q / 32)).0 same in
              put_bits_ne (w (p / 32)) (p % 32) (q % 32) (bits s) (omega arith) (omega arith)
                (λ m. ne (omega arith)) (bits-lt s)
              ∙ ap (λ (t : ℕ). field (w t) (q % 32)) e))
        | inr other ↦ rw other refl
      ])

-- A page state reads back as it was last written, and every other page keeps its state, also
-- where the two pages share a word.
pub page_state-set_page_state :
    (w : Words) (p q : ℕ) (s : PageState)
    → page_state (set_page_state w p s) q ≡ (if p == q then s else page_state w q)
page_state-set_page_state w p q s = elim (Bool-cases (p == q)) [
  | inl e ↦ rw e (rw (← (==_iff p q).0 e) (set_self w p s))
  | inr n ↦ rw n (set_ne w p q s (λ e. ground (arith, e)))
]
