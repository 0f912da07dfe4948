-- ===== src/Base/Decimal.antt =====
-- `strconv.FormatInt(n, 10)` and `strconv.Itoa(n)` for n ≥ 0: the decimal digits of a number.
use text.Mathlib.TextLemmas.{append_inj, length-append}
use Prim.Native.Char.{code}
use Prim.Native.String.{count}
use bitcoin_controller.Base.Int.{ℤ, pos, negsuc}
use bitcoin_controller.Base.Tests.{ltb, if◌then◌else◌}
use Prim.Native.Nat.{ℕ, zero, suc, ◌-◌, ◌/◌, ◌%◌, ◌<◌, ◌≤◌}
use Prim.Native.String.{String, ◌++◌ as ◌<>◌}
use mathlib.Core.Path.{◌≡◌, refl, ap, sym, ◌∙◌}
use mathlib.Core.Logic.{◌≢◌}
use native.Mathlib.Decide.{dec_lt}
use native.Mathlib.Omega.{arith}

digit : ℕ → String
digit zero = "0"
digit (suc zero) = "1"
digit (suc (suc zero)) = "2"
digit (suc (suc (suc zero))) = "3"
digit (suc (suc (suc (suc zero)))) = "4"
digit (suc (suc (suc (suc (suc zero))))) = "5"
digit (suc (suc (suc (suc (suc (suc zero)))))) = "6"
digit (suc (suc (suc (suc (suc (suc (suc zero))))))) = "7"
digit (suc (suc (suc (suc (suc (suc (suc (suc zero)))))))) = "8"
digit (suc (suc (suc (suc (suc (suc (suc (suc (suc n))))))))) = "9"

-- Each round writes the last digit of what is left. The number falls with the fuel.
digits_of : ℕ → ℕ → String
unfolding digit
digits_of zero n = ""
digits_of (suc f) n =
    let rest = digits_of f (n / 10) in if ltb n 10 then digit n else rest <> digit (n % 10)

unfoldable pub format_int : ℕ → String
unfolding digits_of
format_int n = digits_of (suc n) n

count-digit : (n : ℕ) → count (digit n) ≡ 1
unfolding digit
count-digit zero = refl
count-digit (suc zero) = refl
count-digit (suc (suc zero)) = refl
count-digit (suc (suc (suc zero))) = refl
count-digit (suc (suc (suc (suc zero)))) = refl
count-digit (suc (suc (suc (suc (suc zero))))) = refl
count-digit (suc (suc (suc (suc (suc (suc zero)))))) = refl
count-digit (suc (suc (suc (suc (suc (suc (suc zero))))))) = refl
count-digit (suc (suc (suc (suc (suc (suc (suc (suc zero)))))))) = refl
count-digit (suc (suc (suc (suc (suc (suc (suc (suc (suc n))))))))) = refl

-- The value of a digit.
value : String → ℕ
value String.[] = 0
value (String.◌∷◌ c s) = code c - 48

value-digit : (n : ℕ) → n < 10 → value (digit n) ≡ n
unfolding digit value
value-digit zero h = refl
value-digit (suc zero) h = refl
value-digit (suc (suc zero)) h = refl
value-digit (suc (suc (suc zero))) h = refl
value-digit (suc (suc (suc (suc zero)))) h = refl
value-digit (suc (suc (suc (suc (suc zero))))) h = refl
value-digit (suc (suc (suc (suc (suc (suc zero)))))) h = refl
value-digit (suc (suc (suc (suc (suc (suc (suc zero))))))) h = refl
value-digit (suc (suc (suc (suc (suc (suc (suc (suc zero)))))))) h = refl
value-digit (suc (suc (suc (suc (suc (suc (suc (suc (suc zero))))))))) h = refl
value-digit (suc (suc (suc (suc (suc (suc (suc (suc (suc (suc n)))))))))) h = absurd (omega arith)

digit-injective : (m n : ℕ) → m < 10 → n < 10 → digit m ≡ digit n → m ≡ n
digit-injective m n h k e = sym (value-digit m h) ∙ ap value e ∙ value-digit n k

digits_of-small : (f n : ℕ) → n < 10 → digits_of (suc f) n ≡ digit n
unfolding digits_of
digits_of-small f n h = ground arith

digits_of-large : (f n : ℕ) → 10 ≤ n → digits_of (suc f) n ≡ digits_of f (n / 10) <> digit (n % 10)
unfolding digits_of
digits_of-large f n h = ground arith

count-digits_of : (f n : ℕ) → n < f → 0 < count (digits_of f n)
count-digits_of zero n h = elim h [ ]
count-digits_of (suc f) n h = elim (dec_lt n 10) [
  | yes p ↦ rw (digits_of-small f n p) (omega (arith, count-digit n))
  | no p ↦
      rw (digits_of-large f n (omega arith), length-append) (omega (arith, count-digit (n % 10)))
]

-- A number of one digit and one of more differ in length.
digits_of-small-ne-large :
    (f g m n : ℕ) → m < 10 → 10 ≤ n → n < suc g → digits_of (suc f) m ≢ digits_of (suc g) n
digits_of-small-ne-large f g m n p q k e = omega (
  arith,
  ap count (sym (digits_of-small f m p) ∙ e ∙ digits_of-large g n q),
  length-append (digits_of g (n / 10)) (digit (n % 10)),
  count-digit m,
  count-digit (n % 10),
  count-digits_of g (n / 10) (omega arith),
)

last-eq : (s t : String) (m n : ℕ) → s <> digit m ≡ t <> digit n → (s ≡ t) × (digit m ≡ digit n)
last-eq s t m n e = append_inj e (
    omega (
      arith,
      ap count e,
      length-append s (digit m),
      length-append t (digit n),
      count-digit m,
      count-digit n,
    ))

-- One round: the last digits agree, and so does what stands before them.
digits_of-step :
    (f g m n : ℕ)
    → m < suc f
    → n < suc g
    → digits_of (suc f) m ≡ digits_of (suc g) n
    → (10 ≤ m → 10 ≤ n → digits_of f (m / 10) ≡ digits_of g (n / 10) → m / 10 ≡ n / 10)
    → m ≡ n
digits_of-step f g m n h k e ih = by_length (dec_lt m 10) (dec_lt n 10)
  where
    by_length : Dec (m < 10) → Dec (n < 10) → m ≡ n
    by_length (yes p) (yes q) =
        digit-injective m n p q (sym (digits_of-small f m p) ∙ e ∙ digits_of-small g n q)
    by_length (yes p) (no q) = absurd (digits_of-small-ne-large f g m n p (omega arith) k e)
    by_length (no p) (yes q) = absurd (digits_of-small-ne-large g f n m q (omega arith) h (sym e))
    by_length (no p) (no q) =
        let p' : 10 ≤ m = omega arith in
        let q' : 10 ≤ n = omega arith in
        let both = last-eq _ _ _ _ (sym (digits_of-large f m p') ∙ e ∙ digits_of-large g n q') in
        let last = digit-injective (m % 10) (n % 10) (omega arith) (omega arith) both.1 in
        omega (arith, ih p' q' both.0, last)

digits_of-injective : (f g m n : ℕ) → m < f → n < g → digits_of f m ≡ digits_of g n → m ≡ n
digits_of-injective zero g m n h k e = elim h [ ]
digits_of-injective (suc f) zero m n h k e = elim k [ ]
digits_of-injective (suc f) (suc g) m n h k e =
    digits_of-step f g m n h k e
      (λ p q. digits_of-injective f g (m / 10) (n / 10) (omega arith) (omega arith))

-- Different numbers print differently.
pub format_int-injective : (m n : ℕ) → format_int m ≡ format_int n → m ≡ n
unfolding format_int
format_int-injective m n e = digits_of-injective (suc m) (suc n) m n (omega arith) (omega arith) e

-- `%d` of a signed number.
unfoldable pub format_signed : ℤ → String
unfolding format_int
format_signed (pos n) = format_int n
format_signed (negsuc n) = "-" <> format_int (suc n)
