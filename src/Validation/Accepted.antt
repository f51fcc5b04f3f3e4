-- ===== src/Validation/Accepted.antt =====
-- Which account numbers are accepted.
use omnigo_app.Common.{
  ◌≡◌, refl, ap, ◌∙◌, sym, ℕ, zero, suc, ◌+◌, ◌-◌, Bool, true, false, ◌&&◌, ◌||◌, not, leb, ltb,
  ◌==◌, List, [], ◌∷◌, if◌then◌else◌, all, take, drop, length, arith,
}
use omnigo_app.Common.Text.{Text, codes, text_eq}
use omnigo_app.Validation.Iban.{
  is_alnum, cleaned_iban, is_before, slice, IbanValidationResult, Answer, panics, returns,
  mod97_check, check_account, iban_validate,
}

zero_shift : (m : ℕ) → m ≡ 0 + m
zero_shift m = omega arith

suc_shift : (m n : ℕ) → suc (n + m) ≡ suc n + m
suc_shift m n = omega arith

module _ {ℓ} {A : Type ℓ} where
  length-drop : (n : ℕ) (s : List A) → length (drop n s) ≡ length s - n
  length-drop zero s = omega arith
  length-drop (suc n) [] = omega arith
  length-drop (suc n) (c ∷ s) = omega (arith, length-drop n s)

  drop_nothing : (n : ℕ) → drop {A = A} n [] ≡ []
  drop_nothing zero = refl
  drop_nothing (suc n) = refl

  drop-drop : (m n : ℕ) (s : List A) → drop m (drop n s) ≡ drop (n + m) s
  drop-drop m zero s = ap (λ k. drop k s) (zero_shift m)
  drop-drop m (suc n) (c ∷ s) = drop-drop m n s ∙ ap (λ k. drop k (c ∷ s)) (suc_shift m n)
  drop-drop m (suc n) [] = drop_nothing m ∙ sym (drop_nothing (suc n + m))

  all-parts : (p : A → Bool) (n : ℕ) (s : List A) → (all p (take n s) && all p (drop n s)) ≡ all p s
  all-parts p zero s = refl
  all-parts p (suc n) [] = refl
  all-parts p (suc n) (c ∷ s) = ground (arith, all-parts p n s)

-- An account number by its shape: 24 characters, with `PK`, check digits, letters and digits.
abbrev pub has_shape : Text → Bool
has_shape s =
    length s == 24
    && (text_eq (take 2 s) (codes "PK")
        && (not (is_before (slice 2 2 s) (codes "02"))
            && (not (is_before (codes "97") (slice 2 2 s)) && all is_alnum (drop 4 s))))

abbrev pub accepts : Answer IbanValidationResult → Bool
accepts panics = false
accepts (returns r) = r.valid

accepts-either :
    (b : Bool) (a a' : Answer IbanValidationResult)
    → accepts (if b then a else a') ≡ (b && accepts a || not b && accepts a')
accepts-either true a a' = ground arith
accepts-either false a a' = refl

judged :
    (m a : Bool) (r r' r'' : IbanValidationResult)
    → r.valid ≡ false
    → r'.valid ≡ false
    → r''.valid ≡ true
    → (if not m then r else if not a then r' else r'').valid ≡ (m && a)
judged true true r r' r'' h h' h'' = h''
judged true false r r' r'' h h' h'' = h'
judged false a r r' r'' h h' h'' = h

-- The checks one after another, and all at once.
checks-shape :
    (n : ℕ) (pk low high bank account sum : Bool)
    → ((ltb n 22 || ltb 30 n) && false
        || not (ltb n 22 || ltb 30 n)
          && (not pk && false
              || not (not pk)
                && ((low || high) && false
                    || not (low || high)
                      && (not bank && false
                          || not (not bank)
                            && (ltb n 24 && false
                                || not (ltb n 24)
                                  && (sum && (account && (leb 12 (n - 8) && leb (n - 8) 16))))))))
      ≡ ((n == 24 && (pk && (not low && (not high && (bank && account))))) && sum)
checks-shape n pk low high bank account sum = ground arith

module _ (undefined : Text → ℕ) where
  check_account-valid :
      (input s : Text)
      → (check_account undefined input s).valid ≡ (
          mod97_check undefined s
          && (all is_alnum (drop 8 s) && (leb 12 (length s - 8) && leb (length s - 8) 16)))
  unfolding check_account
  check_account-valid input s = rw (← length-drop 8 s) (
      judged (mod97_check undefined s)
        (all is_alnum (drop 8 s) && (leb 12 (length (drop 8 s)) && leb (length (drop 8 s)) 16)) _ _
        _ refl refl refl)

  -- An account number is accepted exactly if it has the shape and its checksum is right, once spaces
  -- and dashes are left out and letters made upper case.
  pub iban_validate-accepts :
      (input : Text)
      → let s = cleaned_iban input in
        accepts (iban_validate undefined input) ≡ (has_shape s && mod97_check undefined s)
  unfolding iban_validate
  iban_validate-accepts input =
      let s = cleaned_iban input in
      let parts : (all is_alnum (slice 4 4 s) && all is_alnum (drop 8 s))
          ≡ all is_alnum (drop 4 s) =
        rw (← drop-drop 4 4 s) (all-parts is_alnum 4 (drop 4 s)) in
      rw
        (
          accepts-either,
          accepts-either,
          accepts-either,
          accepts-either,
          accepts-either,
          check_account-valid,
          ← parts,
        )
        (checks-shape (length s) (text_eq (take 2 s) (codes "PK"))
          (is_before (slice 2 2 s) (codes "02")) (is_before (codes "97") (slice 2 2 s))
          (all is_alnum (slice 4 4 s)) (all is_alnum (drop 8 s)) (mod97_check undefined s))
