-- ===== src/Prelude/Decimal.antt =====
-- `fmt.Sprintf("%d", n)` of a natural number, and that different numbers have different texts.
use Prim.Native.Nat.{ℕ, zero, suc, ◌+◌, ◌*◌, ◌/◌, ◌%◌, ◌≤◌, ◌<◌, ◌-◌}
use Prim.Native.String.{String, ◌++◌ as ◌+ₛ◌}
use Prim.Native.String.append
use Prim.Native.Char.{code}
use mathlib.Core.Path.{◌≡◌, refl, sym, ap, ◌∙◌}
use mathlib.Core.Logic.{◌≢◌}
use mathlib.Core.List.{List, [], ◌∷◌, ◌++◌}
use native.Mathlib.Omega.{arith}
use helppi_scim_go.Prelude.Tests.{ltb, if◌then◌else◌}

-- The code points of a text: its bytes, if it is ASCII.
abbrev pub codes : String → List ℕ
codes String.[] = []
codes (String.◌∷◌ c s) = code c ∷ codes s

digit : ℕ → String
digit zero = "0"
digit (suc zero) = "1"
digit (suc (suc zero)) = "2"
digit (suc (suc (suc zero))) = "3"
digit (suc (suc (suc (suc zero)))) = "4"
digit (suc (suc (suc (suc (suc zero))))) = "5"
digit (suc (suc (suc (suc (suc (suc zero)))))) = "6"
digit (suc (suc (suc (suc (suc (suc (suc zero))))))) = "7"
digit (suc (suc (suc (suc (suc (suc (suc (suc zero)))))))) = "8"
digit _ = "9"

-- The digits of `n`, most significant first; `n` is below 10 to the fuel.
itoa_fuel : ℕ → ℕ → String
itoa_fuel zero n = digit n
itoa_fuel (suc f) n =
    let rest = itoa_fuel f (n / 10) in if ltb n 10 then digit n else rest +ₛ digit (n % 10)

unfoldable pub itoa : ℕ → String
unfolding itoa_fuel digit
itoa n = itoa_fuel n n

value : List ℕ → ℕ → ℕ
value [] n = n
value (c ∷ s) n = value s (n * 10 + (c - 48))

value-append : (s t : List ℕ) (n : ℕ) → value (s ++ t) n ≡ value t (value s n)
unfolding value
value-append [] t n = refl
value-append (c ∷ s) t n = value-append s t (n * 10 + (c - 48))

codes-append : (s t : String) → codes (s +ₛ t) ≡ codes s ++ codes t
codes-append String.[] t = ap codes (append.nil t)
codes-append (String.◌∷◌ c s) t =
    ap codes (append.cons c s t) ∙ ap (◌∷◌ (code c)) (codes-append s t)

digit-value : (d n : ℕ) → d < 10 → value (codes (digit d)) n ≡ n * 10 + d
unfolding digit value
digit-value zero n h = refl
digit-value (suc zero) n h = refl
digit-value (suc (suc zero)) n h = refl
digit-value (suc (suc (suc zero))) n h = refl
digit-value (suc (suc (suc (suc zero)))) n h = refl
digit-value (suc (suc (suc (suc (suc zero))))) n h = refl
digit-value (suc (suc (suc (suc (suc (suc zero)))))) n h = refl
digit-value (suc (suc (suc (suc (suc (suc (suc zero))))))) n h = refl
digit-value (suc (suc (suc (suc (suc (suc (suc (suc zero)))))))) n h = refl
digit-value (suc (suc (suc (suc (suc (suc (suc (suc (suc zero))))))))) n h = refl
digit-value (suc (suc (suc (suc (suc (suc (suc (suc (suc (suc d)))))))))) n h = absurd (omega arith)

value-itoa_fuel : (f n : ℕ) → n ≤ f → value (codes (itoa_fuel f n)) 0 ≡ n
unfolding itoa_fuel
value-itoa_fuel zero n h = digit-value n 0 (omega arith) ∙ omega arith
value-itoa_fuel (suc f) n h =
    let rest = itoa_fuel f (n / 10) in
    ground (
      arith,
      digit-value n 0,
      codes-append rest (digit (n % 10)),
      value-append (codes rest) (codes (digit (n % 10))) 0,
      digit-value (n % 10) (value (codes rest) 0),
      value-itoa_fuel f (n / 10),
    )

-- Different numbers have different texts.
pub itoa-injective : (m n : ℕ) → itoa m ≡ itoa n → m ≡ n
unfolding itoa
itoa-injective m n h =
    sym (value-itoa_fuel m m (omega arith))
    ∙ ap (λ (s : String). value (codes s) 0) h
    ∙ value-itoa_fuel n n (omega arith)

pub itoa-ne-empty : (n : ℕ) → 0 < n → itoa n ≢ ""
unfolding itoa value
itoa-ne-empty n pos_n h =
    let e : value (codes (itoa_fuel n n)) 0 ≡ value (codes "") 0 =
      ap (λ (s : String). value (codes s) 0) h in
    absurd (omega (arith, value-itoa_fuel n n, e))

itoa_1203 : itoa 1203 ≡ "1203"
unfolding itoa
itoa_1203 = refl
