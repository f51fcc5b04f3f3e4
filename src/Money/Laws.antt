-- ===== src/Money/Laws.antt =====
-- What the amounts of paisa.go look like in print.
use omnigo_app.Common.{ℕ, ◌≡◌, refl, ◌/◌, ◌%◌, ◌<◌, ◌^◌, ◌≤◌, arith, ◌++◌, ◌∷◌, suc, zero}
use omnigo_app.Common.{false, if◌then◌else◌}
use omnigo_app.Common.Int.{pos, negsuc, neg, int64, quot, rem, ltb_ℤ}
use omnigo_app.Common.Text.{Text, codes}
use omnigo_app.Common.Decimal.{
  format_int, format_two, read_digits, read_digits-append, read_digits-format_nat,
  read_digits-format_two,
}
use omnigo_app.Money.{format_paisa}

print_parts : ℕ → ℕ → Text
print_parts rupees remaining_paisa =
    format_int (pos rupees) ++ (codes "." ++ format_two remaining_paisa)

format_paisa-pos : (p : ℕ) → format_paisa (pos p) ≡ print_parts (p / 100) (p % 100)
unfolding format_paisa print_parts
format_paisa-pos p = rw (not_negative (p % 100))
  where
    not_negative : (m : ℕ) → ltb_ℤ (pos m) (pos 0) ≡ false
    not_negative m = ground arith

-- The printed form of an amount that is not negative has all its digits: read with the point left
-- out, it is the amount in paisa again.
pub read_digits-format_paisa : (p : ℕ) → read_digits 0 (format_paisa (pos p)) ≡ p
unfolding print_parts
read_digits-format_paisa p =
    rw (format_paisa-pos p, read_digits-append)
      (rw (read_digits-append (read_digits 0 (format_int (pos (p / 100)))) (codes ".")) (
        rw (rupees (p / 100), point, read_digits-format_two (p / 100) (p % 100) (omega arith))
          (omega arith)))
  where
    rupees : (n : ℕ) → read_digits 0 (format_int (pos n)) ≡ n
    rupees n = unfold format_int in read_digits-format_nat n

    point : read_digits (p / 100) (codes ".") ≡ p / 100
    point = unfold read_digits in refl

negated_parts :
    (p : ℕ)
    → 0 < p
    → p < 2 ^ 63
    → (quot (neg (pos p)) 100 ≡ neg (pos (p / 100)))
      × ((if ltb_ℤ (rem (neg (pos p)) 100) (pos 0)
            then int64 (neg (rem (neg (pos p)) 100))
            else rem (neg (pos p)) 100)
          ≡ pos (p % 100))
unfolding int64 neg
negated_parts zero h k = elim h [ ]
negated_parts (suc p) h k = ground arith

format_paisa-neg_parts :
    (p : ℕ)
    → 0 < p
    → p < 2 ^ 63
    → format_paisa (neg (pos p))
      ≡ format_int (neg (pos (p / 100))) ++ (codes "." ++ format_two (p % 100))
unfolding format_paisa
format_paisa-neg_parts p h k = rw ((negated_parts p h k).0, (negated_parts p h k).1)

-- Between -1 rupee and 0 the sign is lost: -50 paisa prints as 50 paisa does.
pub format_paisa-drops_sign :
    (p : ℕ) → 0 < p → p < 100 → format_paisa (neg (pos p)) ≡ format_paisa (pos p)
unfolding print_parts neg
format_paisa-drops_sign p h k =
    let no_rupees : p / 100 ≡ 0 = omega arith in
    rw (format_paisa-pos p, format_paisa-neg_parts p h (omega arith), no_rupees)

format_int-neg : (n : ℕ) → 0 < n → format_int (neg (pos n)) ≡ b'-' ∷ format_int (pos n)
unfolding format_int neg
format_int-neg zero h = elim h [ ]
format_int-neg (suc n) h = rw (minus n)
  where
    minus : (n : ℕ) → neg (pos (suc n)) ≡ negsuc n
    minus n = ground arith

-- From -1 rupee down the printed form is that of the opposite amount behind a minus sign.
pub format_paisa-neg :
    (p : ℕ) → 100 ≤ p → p < 2 ^ 63 → format_paisa (neg (pos p)) ≡ b'-' ∷ format_paisa (pos p)
unfolding print_parts
format_paisa-neg p h k =
    rw (format_paisa-pos p, format_paisa-neg_parts p (omega arith) k)
      (rw (format_int-neg (p / 100) (omega arith)))
