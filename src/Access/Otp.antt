-- ===== src/Access/Otp.antt =====
-- Numeric codes of six digits (server/internal/otpcode/otpcode.go).
use agentra.Base.{
  ℕ, zero, suc, ◌+◌, ◌*◌, ◌/◌, ◌%◌, ◌^◌, [], ◌∷◌, Option, none, some, Text, if◌then◌else◌, ltb,
}

abbrev pub max_multiple : ℕ
max_multiple = 1000000 * 4294 % 2 ^ 32

abbrev pub digit : ℕ → ℕ → ℕ
digit n place = 48 + n / place % 10

-- fmt.Sprintf "%06d" of a number below a million.
abbrev pub six_digits : ℕ → Text
six_digits n =
    digit n 100000 ∷ digit n 10000 ∷ digit n 1000 ∷ digit n 100 ∷ digit n 10 ∷ digit n 1 ∷ []

abbrev pub print_under : ℕ → Text
print_under n = six_digits (n % 1000000)

-- The first word of at most so many that is not rejected; `draws i` is the i-th reading of four
-- random bytes, or none where the reading fails.
pub data Draw : Type 0 where
  drawn : ℕ → Draw
  failed rejected : Draw

abbrev pub attempt : (ℕ → Option ℕ) → ℕ → ℕ → Draw
attempt draws zero i = rejected
attempt draws (suc left) i =
    let rest = attempt draws left (suc i) in
    elim (draws i) [ none ↦ failed | some n ↦ if ltb n max_multiple then drawn n else rest ]

abbrev pub fall_back : Option ℕ → Option Text
fall_back none = none
fall_back (some n) = some (six_digits n)

abbrev pub finish : Option ℕ → Draw → Option Text
finish uniform (drawn n) = some (print_under n)
finish uniform failed = none
finish uniform rejected = fall_back uniform

-- Ten attempts, then the draw of rand.Int below a million.
unfoldable pub generate : (ℕ → Option ℕ) → Option ℕ → Option Text
generate draws uniform = finish uniform (attempt draws 10 0)
