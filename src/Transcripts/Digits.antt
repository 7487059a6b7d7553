-- ===== src/Transcripts/Digits.antt =====
-- How the numbers in a time stamp of backend/apps/transcripts/rendering.py are read: a strict reader
-- of WebVTT time stamps, and the widths of what the renderer writes.
use e_platform.Prelude.{
  ℕ, zero, suc, ◌+◌, ◌*◌, ◌-◌, ◌/◌, ◌%◌, ◌<◌, ◌≤◌, ◌≡◌, inl, inr, refl, ap, ◌∙◌, Bool, true, false,
  ◌==◌, ◌&&◌, [], ◌∷◌, ◌++◌, ltb, leb, if◌then◌else◌, arith, Bool-cases,
}
use e_platform.Prelude.Result.{Result, ok, err, ◌>>=◌, ◌>>◌, require}
use e_platform.Prelude.Text.{Text}
use e_platform.Transcripts.Rendering.{
  RenderError, value_error, digit, decimal_by, decimal, pad2, pad3,
}

-- The digits at the head of a text: how many, their value, and what follows.
abbrev pub is_digit : ℕ → Bool
is_digit c = leb 48 c && leb c 57

abbrev pub take_digits : ℕ → ℕ → Text → ℕ × ℕ × Text
take_digits k acc [] = (k, acc, [])
take_digits k acc (c ∷ s) =
    let more = take_digits (k + 1) (acc * 10 + (c - 48)) s in
    if is_digit c then more else (k, acc, c ∷ s)

-- A number of a fitting width, and a single character.
abbrev pub field : (ℕ → Bool) → Text → Result RenderError (ℕ × Text)
field width s =
    let (k, n, rest) = take_digits 0 0 s in require (width k) value_error >> ok (n, rest)

abbrev pub expect : ℕ → Text → Result RenderError Text
expect c [] = err value_error
expect c (d ∷ s) = require (d == c) value_error >> ok s

abbrev pub is_end : Text → Bool
is_end [] = true
is_end (c ∷ s) = false

-- A WebVTT time stamp: hours of two digits or more, a colon, two digits of minutes, a colon, two
-- digits of seconds, a full stop, three digits of milliseconds, and no more; in milliseconds.
abbrev pub read_timestamp : Text → Result RenderError ℕ
read_timestamp s = do
  h ← field (leb 2) s
  after_h ← expect 58 h.1
  m ← field (λ k. k == 2) after_h
  after_m ← expect 58 m.1
  sec ← field (λ k. k == 2) after_m
  after_s ← expect 46 sec.1
  ms ← field (λ k. k == 3) after_s
  require (is_end ms.1 && ltb m.0 60 && ltb sec.0 60) value_error
  ok (((h.0 * 60 + m.0) * 60 + sec.0) * 1000 + ms.0)

read_digit :
    (k acc n : ℕ) (rest : Text)
    → n < 10
    → take_digits k acc (digit n ∷ rest) ≡ take_digits (k + 1) (acc * 10 + n) rest
read_digit k acc n rest l =
    let same : 48 + n - 48 ≡ n = omega arith in
    let low : leb 48 (48 + n) ≡ true = ground arith in
    let high : leb (48 + n) 57 ≡ true = ground arith in
    rw (low, high) (ap (λ j. take_digits (k + 1) (acc * 10 + j) rest) same)

pub append_assoc : (a b c : Text) → (a ++ b) ++ c ≡ a ++ (b ++ c)
append_assoc [] b c = refl
append_assoc (x ∷ a) b c = ap (λ t. x ∷ t) (append_assoc a b c)

-- How many digits a number has.
digits_by : ℕ → ℕ → ℕ
digits_by zero n = 0
digits_by (suc fuel) n = let rest = digits_by fuel (n / 10) in if ltb n 10 then 1 else rest + 1

read_decimal_by :
    (fuel k n : ℕ) (rest : Text)
    → n < fuel
    → take_digits k 0 (decimal_by fuel n ++ rest) ≡ take_digits (k + digits_by fuel n) n rest
unfolding digits_by
read_decimal_by zero k n rest l = absurd (omega arith)
read_decimal_by (suc fuel) k n rest l = elim (Bool-cases (ltb n 10)) [
  | inl e ↦
      rw e
        (read_digit k 0 n rest (ground arith) ∙ ap (λ j. take_digits (k + 1) j rest) (omega arith))
  | inr e ↦
      let ten : 10 ≤ n = ground arith in
      let shorter : n / 10 < fuel = omega arith in
      let whole : n / 10 * 10 + n % 10 ≡ n = omega arith in
      let width : k + digits_by fuel (n / 10) + 1 ≡ k + (digits_by fuel (n / 10) + 1) =
        omega arith in
      rw e (
        ap (take_digits k 0) (append_assoc (decimal_by fuel (n / 10)) (digit (n % 10) ∷ []) rest)
        ∙ read_decimal_by fuel k (n / 10) (digit (n % 10) ∷ rest) shorter
        ∙ read_digit (k + digits_by fuel (n / 10)) (n / 10) (n % 10) rest (omega arith)
        ∙ ap (λ j. take_digits j (n / 10 * 10 + n % 10) rest) width
        ∙ ap (λ j. take_digits (k + (digits_by fuel (n / 10) + 1)) j rest) whole)
]

pub width : ℕ → ℕ
width n = digits_by (suc n) n

pub read_decimal :
    (k n : ℕ) (rest : Text) → take_digits k 0 (decimal n ++ rest) ≡ take_digits (k + width n) n rest
unfolding decimal width
read_decimal k n rest = read_decimal_by (suc n) k n rest (omega arith)

one_digit : (fuel n : ℕ) → n < 10 → digits_by (suc fuel) n ≡ 1
unfolding digits_by
one_digit fuel n l = let small : ltb n 10 ≡ true = ground arith in rw small refl

two_digits : (fuel n : ℕ) → 10 ≤ n → n < 100 → digits_by (suc (suc fuel)) n ≡ 2
unfolding digits_by
two_digits fuel n l m =
    let large : ltb n 10 ≡ false = ground arith in
    let small : ltb (n / 10) 10 ≡ true = ground arith in rw (large, small) refl

three_digits : (fuel n : ℕ) → 100 ≤ n → n < 1000 → digits_by (suc (suc (suc fuel))) n ≡ 3
unfolding digits_by
three_digits fuel n l m =
    let large : ltb n 10 ≡ false = ground arith in
    let tens : ltb (n / 10) 10 ≡ false = ground arith in
    let small : ltb (n / 10 / 10) 10 ≡ true = ground arith in rw (large, tens, small) refl

width_one : (n : ℕ) → n < 10 → width n ≡ 1
unfolding width
width_one n l = one_digit n n l

width_two : (n : ℕ) → 10 ≤ n → n < 100 → width n ≡ 2
unfolding width
width_two zero l m = absurd (omega arith)
width_two (suc n) l m = two_digits n (suc n) l m

width_three : (n : ℕ) → 100 ≤ n → n < 1000 → width n ≡ 3
unfolding width
width_three zero l m = absurd (omega arith)
width_three (suc zero) l m = absurd (omega arith)
width_three (suc (suc n)) l m = three_digits n (suc (suc n)) l m

-- At least two digits, from ten on.
width_more : (n : ℕ) → 10 ≤ n → 2 ≤ width n
unfolding width digits_by
width_more zero l = absurd (omega arith)
width_more (suc n) l =
    let large : ltb (suc n) 10 ≡ false = ground arith in
    elim (Bool-cases (ltb (suc n / 10) 10)) [
      | inl e ↦ rw (large, e) (omega arith)
      | inr e ↦ rw (large, e) (omega arith)
    ]

pub pad2_wide :
    (n : ℕ) (rest : Text)
    → (k : ℕ) × (leb 2 k ≡ true) × (take_digits 0 0 (pad2 n ++ rest) ≡ take_digits k n rest)
unfolding pad2
pad2_wide n rest = elim (Bool-cases (ltb n 10)) [
  | inl e ↦
      let one = width_one n (ground arith) in
      (
        1 + width n,
        ground arith,
        rw e (read_digit 0 0 0 (decimal n ++ rest) (omega arith) ∙ read_decimal 1 n rest),
      )
  | inr e ↦
      let more = width_more n (ground arith) in
      (0 + width n, ground arith, rw e (read_decimal 0 n rest))
]

pub pad2_two :
    (n : ℕ) (rest : Text) → n < 100 → take_digits 0 0 (pad2 n ++ rest) ≡ take_digits 2 n rest
unfolding pad2
pad2_two n rest l = elim (Bool-cases (ltb n 10)) [
  | inl e ↦
      let two : 1 + width n ≡ 2 = omega (arith, width_one n (ground arith)) in
      rw e (
        read_digit 0 0 0 (decimal n ++ rest) (omega arith)
        ∙ read_decimal 1 n rest
        ∙ ap (λ k. take_digits k n rest) two)
  | inr e ↦
      let two : 0 + width n ≡ 2 = omega (arith, width_two n (ground arith) l) in
      rw e (read_decimal 0 n rest ∙ ap (λ k. take_digits k n rest) two)
]

pub pad3_three :
    (n : ℕ) (rest : Text) → n < 1000 → take_digits 0 0 (pad3 n ++ rest) ≡ take_digits 3 n rest
unfolding pad3 pad2
pad3_three n rest l = elim (Bool-cases (ltb n 100)) [
  | inl e ↦ elim (Bool-cases (ltb n 10)) [
    | inl f ↦
        let three : 2 + width n ≡ 3 = omega (arith, width_one n (ground arith)) in
        rw (e, f)
          (read_digit 0 0 0 (digit 0 ∷ (decimal n ++ rest)) (omega arith)
            ∙ read_digit 1 0 0 (decimal n ++ rest) (omega arith)
            ∙ read_decimal 2 n rest
            ∙ ap (λ k. take_digits k n rest) three)
    | inr f ↦
        let three : 1 + width n ≡ 3 = omega (arith, width_two n (ground arith) (ground arith)) in
        rw (e, f)
          (read_digit 0 0 0 (decimal n ++ rest) (omega arith)
            ∙ read_decimal 1 n rest
            ∙ ap (λ k. take_digits k n rest) three)
  ]
  | inr e ↦
      let three : 0 + width n ≡ 3 = omega (arith, width_three n (ground arith) l) in
      rw e (read_decimal 0 n rest ∙ ap (λ k. take_digits k n rest) three)
]

pub append_nil : (a : Text) → a ++ [] ≡ a
append_nil [] = refl
append_nil (x ∷ a) = ap (λ t. x ∷ t) (append_nil a)
