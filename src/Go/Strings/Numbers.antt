-- ===== src/Go/Strings/Numbers.antt =====
-- Printing a number and reading it back.
use Prim.Native.Char.{code}
use Prim.Native.String.{◌++◌ as cat}
use Prim.Native.String.append
use open_agentic_threat_defe.Go.Strings.{digit_char, itoa, itoa_fuel}
use open_agentic_threat_defe.Prelude.{
  Bool-cases, String, inl, inr, ltb→lt, ltb→le, ap, arith, ltb, refl, suc, sym, zero, ℕ, ◌%◌, ◌*◌,
  ◌+◌, ◌-◌, ◌/◌, ◌<◌, ◌∙◌, ◌≡◌,
}

-- The number that the digits of a text write, after those read before.
unfoldable read_digits : ℕ → String → ℕ
read_digits n String.[] = n
read_digits n (String.◌∷◌ c s) = read_digits (n * 10 + (code c - 48)) s

read_digits-cat : (n : ℕ) (s t : String) → read_digits n (cat s t) ≡ read_digits (read_digits n s) t
unfolding read_digits
read_digits-cat n String.[] t = rw (append.nil t) refl
read_digits-cat n (String.◌∷◌ c s) t =
    rw (append.cons c s t) (read_digits-cat (n * 10 + (code c - 48)) s t)

read_digits-digit_char : (n d : ℕ) → d < 10 → read_digits n (digit_char d) ≡ n * 10 + d
unfolding read_digits digit_char
read_digits-digit_char n zero h = refl
read_digits-digit_char n (suc zero) h = refl
read_digits-digit_char n (suc (suc zero)) h = refl
read_digits-digit_char n (suc (suc (suc zero))) h = refl
read_digits-digit_char n (suc (suc (suc (suc zero)))) h = refl
read_digits-digit_char n (suc (suc (suc (suc (suc zero))))) h = refl
read_digits-digit_char n (suc (suc (suc (suc (suc (suc zero)))))) h = refl
read_digits-digit_char n (suc (suc (suc (suc (suc (suc (suc zero))))))) h = refl
read_digits-digit_char n (suc (suc (suc (suc (suc (suc (suc (suc zero)))))))) h = refl
read_digits-digit_char n (suc (suc (suc (suc (suc (suc (suc (suc (suc zero))))))))) h = refl
read_digits-digit_char n (suc (suc (suc (suc (suc (suc (suc (suc (suc (suc d)))))))))) h =
    absurd (omega arith)

read_digits-itoa_fuel : (f n : ℕ) → n < f → read_digits 0 (itoa_fuel f n) ≡ n
unfolding itoa_fuel
read_digits-itoa_fuel zero n h = absurd (omega arith)
read_digits-itoa_fuel (suc f) n h = elim (Bool-cases (ltb n 10)) [
  | inl e ↦ rw e (read_digits-digit_char 0 n (ltb→lt n 10 e) ∙ omega arith)
  | inr e ↦ rw e (
      read_digits-cat 0 (itoa_fuel f (n / 10)) (digit_char (n % 10))
      ∙ rw (read_digits-itoa_fuel f (n / 10) (omega (arith, ltb→le n 10 e)))
          (read_digits-digit_char (n / 10) (n % 10) (omega arith) ∙ omega arith))
]

pub itoa_injective : (m n : ℕ) → itoa m ≡ itoa n → m ≡ n
unfolding itoa
itoa_injective m n h =
    sym (read_digits-itoa_fuel (suc m) m (omega arith))
    ∙ ap (read_digits 0) h
    ∙ read_digits-itoa_fuel (suc n) n (omega arith)
