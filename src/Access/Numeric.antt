-- ===== src/Access/Numeric.antt =====
-- The words and the digits of numeric codes (server/internal/otpcode/otpcode.go).
use agentra.Base.{
  ◌-◌, ◌≤◌, ◌∙◌, sym, ap, [], ◌∷◌, Bool-cases, inl, inr, ℕ, zero, suc, ◌+◌, ◌*◌, ◌/◌, ◌%◌, ◌<◌, ◌≡◌,
  ◌↔◌, refl, subst, ◌≢◌, Bool, true, false, Option, none, some, Text, arith, ltb, leb, length, ◌&&◌,
  is_some, not, some_of,
}
use agentra.Access.Otp.{
  max_multiple, six_digits, generate, attempt, Draw, drawn, failed, rejected, finish, print_under,
}

-- The number that a text of six digits stands for.
value : Text → ℕ
value (a ∷ b ∷ c ∷ d ∷ e ∷ f ∷ []) =
    (a - 48) * 100000
    + (b - 48) * 10000
    + (c - 48) * 1000
    + (d - 48) * 100
    + (e - 48) * 10
    + (f - 48)
value _ = 0

value-six_digits : (n : ℕ) → n < 1000000 → value (six_digits n) ≡ n
unfolding value
value-six_digits n h = omega (arith, h)

some_inj : (a b : Text) → some a ≡ some b → a ≡ b
some_inj a b h = cc

printed : (n r : ℕ) → r < 1000000 → print_under n ≡ six_digits r → n % 1000000 ≡ r
printed n r h e =
    sym (value-six_digits (n % 1000000) (omega arith)) ∙ ap value e ∙ value-six_digits r h

-- A word that comes again and again.
abbrev always : ℕ → ℕ → Option ℕ
always n i = some n

attempt_accepts :
    (n left i : ℕ) → ltb n max_multiple ≡ true → attempt (always n) (suc left) i ≡ drawn n
attempt_accepts n left i h = rw h refl

attempt_rejects : (n left i : ℕ) → ltb n max_multiple ≡ false → attempt (always n) left i ≡ rejected
attempt_rejects n zero i h = refl
attempt_rejects n (suc left) i h = rw h (attempt_rejects n left (suc i) h)

accepted : (n : ℕ) → n < 4294000000 → generate (always n) none ≡ some (print_under n)
unfolding generate
accepted n h = ap (finish none) (attempt_accepts n 9 0 (ground (arith, h)))

refused : (n : ℕ) → 4294000000 ≤ n → generate (always n) none ≡ none
unfolding generate
refused n h = ap (finish none) (attempt_rejects n 10 0 (ground (arith, h)))

word_of :
    (n r : ℕ)
    → r < 1000000
    → generate (always n) none ≡ some (six_digits r)
    → (q : ℕ) × (q < 4294) × (n ≡ q * 1000000 + r)
word_of n r h e = elim (Bool-cases (ltb n 4294000000)) [
  | inl b ↦
      let low : n < 4294000000 = ground arith in
      let same = printed n r h (some_inj _ _ (sym (accepted n low) ∙ e)) in
      (n / 1000000, omega arith, omega arith)
  | inr b ↦ absurd (cc (refused n (ground arith), e))
]

code_of :
    (n r : ℕ)
    → r < 1000000
    → (q : ℕ) × (q < 4294) × (n ≡ q * 1000000 + r)
    → generate (always n) none ≡ some (six_digits r)
code_of n r h (q, low, e) = accepted n (omega arith) ∙ ap (λ x. some (six_digits x)) (omega arith)

-- With random bytes that give one word again and again, and no fallback, the code `r` (below a million)
-- is generated exactly when the word is one of the 4294 words `q * 1000000 + r` with `q` below 4294: as
-- many words for every code.
pub generate_words :
    (n r : ℕ)
    → r < 1000000
    → (generate (λ i. some n) none ≡ some (six_digits r))
      ↔ ((q : ℕ) × (q < 4294) × (n ≡ q * 1000000 + r))
generate_words n r h = (word_of n r h, code_of n r h)

abbrev pub is_digit : ℕ → Bool
is_digit c = leb 48 c && leb c 57

six_digits-digits : (n : ℕ) → some_of (λ c. not (is_digit c)) (six_digits n) ≡ false
six_digits-digits n = ground arith

abbrev pub IsCode : Text → Type 0
IsCode code = (length code ≡ 6) × (some_of (λ c. not (is_digit c)) code ≡ false)

six_digits-IsCode : (n : ℕ) → IsCode (six_digits n)
six_digits-IsCode n = (refl, six_digits-digits n)

finish-IsCode :
    (uniform : Option ℕ) (d : Draw) (code : Text) → finish uniform d ≡ some code → IsCode code
finish-IsCode uniform (drawn n) code h =
    subst IsCode (some_inj (print_under n) code h) (six_digits-IsCode (n % 1000000))
finish-IsCode uniform failed code h = cc
finish-IsCode none rejected code h = cc
finish-IsCode (some n) rejected code h =
    subst IsCode (some_inj (six_digits n) code h) (six_digits-IsCode n)

attempt_not_failed :
    (draws : ℕ → Option ℕ) (left i : ℕ)
    → ((i : ℕ) → is_some (draws i) ≡ true)
    → attempt draws left i ≢ failed
attempt_not_failed draws zero i h e = cc
attempt_not_failed draws (suc left) i h e =
    ground (arith, h i, attempt_not_failed draws left (suc i) h)

finish_some :
    (uniform : Option ℕ) (d : Draw)
    → is_some uniform ≡ true
    → d ≢ failed
    → is_some (finish uniform d) ≡ true
finish_some uniform d u n = ground arith

-- A generated code has six decimal digits.
pub generate-IsCode :
    (draws : ℕ → Option ℕ) (uniform : Option ℕ) (code : Text)
    → generate draws uniform ≡ some code
    → IsCode code
unfolding generate
generate-IsCode draws uniform code h = finish-IsCode uniform (attempt draws 10 0) code h

-- A code is generated whenever no reading of random bytes fails.
pub generate_some :
    (draws : ℕ → Option ℕ) (uniform : Option ℕ)
    → ((i : ℕ) → is_some (draws i) ≡ true)
    → is_some uniform ≡ true
    → is_some (generate draws uniform) ≡ true
unfolding generate
generate_some draws uniform h u =
    finish_some uniform (attempt draws 10 0) u (attempt_not_failed draws 10 0 h)
