-- ===== src/Cli/Numbers.antt =====
-- `int` of cli/main.py reads back what `str` of api/main.py writes, and no number has a line break.
use Prim.Native.Char.{code}
use Prim.Native.String.{◌++◌}
use cloudagentperform.Base.{
  ℕ, zero, suc, ◌+◌, ◌-◌, ◌*◌, ◌/◌, ◌%◌, ◌<◌, String, Bool, true, false, ◌&&◌, ◌||◌, ◌≡◌, refl, ap,
  ◌∙◌, subst, Option, none, some, if◌then◌else◌, leb, ltb, nat_eq, arith, Bool-cases, inl, inr,
}
use text.Mathlib.TextLemmas.{nil-append, cons-append}
use cloudagentperform.Agent.Text.{digit, decimal_on, decimal}
use cloudagentperform.Cli.Parse.{value_on, int}

-- The characters at which `str.splitlines` breaks a text.
abbrev pub is_break : ℕ → Bool
is_break c =
    (leb 10 c && leb c 13)
    || (leb 28 c && leb c 30)
    || nat_eq c 0x85
    || nat_eq c 0x2028
    || nat_eq c 0x2029

unfoldable pub has_break : String → Bool
has_break String.[] = false
has_break (String.◌∷◌ c s) = is_break (code c) || has_break s

unfoldable pub is_text : String → Bool
is_text String.[] = false
is_text (String.◌∷◌ c s) = true

pub has_break-append : (s t : String) → has_break (s ++ t) ≡ (has_break s || has_break t)
unfolding has_break
has_break-append String.[] t = rw (nil-append t) refl
has_break-append (String.◌∷◌ c s) t =
    rw (cons-append c s t, has_break) (ground (arith, has_break-append s t))

is_text-append : (s t : String) → is_text t ≡ true → is_text (s ++ t) ≡ true
unfolding is_text
is_text-append String.[] t h = rw (nil-append t) h
is_text-append (String.◌∷◌ c s) t h = rw (cons-append c s t) refl

-- How a number is read whose text stands behind the digits that make `acc`.
record Reads (acc v : ℕ) (s : String) : Type 0 where
  value : value_on acc s ≡ some v
  whole : has_break s ≡ false
  full : is_text s ≡ true

digit-Reads : (d acc : ℕ) → d < 10 → Reads acc (acc * 10 + d) (digit d)
unfolding digit value_on has_break is_text
digit-Reads zero acc h = record { value = ap some (omega arith); whole = refl; full = refl }
digit-Reads (suc zero) acc h = record { value = ap some (omega arith); whole = refl; full = refl }
digit-Reads (suc (suc zero)) acc h = record {
  value = ap some (omega arith);
  whole = refl;
  full = refl;
}
digit-Reads (suc (suc (suc zero))) acc h = record {
  value = ap some (omega arith);
  whole = refl;
  full = refl;
}
digit-Reads (suc (suc (suc (suc zero)))) acc h = record {
  value = ap some (omega arith);
  whole = refl;
  full = refl;
}
digit-Reads (suc (suc (suc (suc (suc zero))))) acc h = record {
  value = ap some (omega arith);
  whole = refl;
  full = refl;
}
digit-Reads (suc (suc (suc (suc (suc (suc zero)))))) acc h = record {
  value = ap some (omega arith);
  whole = refl;
  full = refl;
}
digit-Reads (suc (suc (suc (suc (suc (suc (suc zero))))))) acc h = record {
  value = ap some (omega arith);
  whole = refl;
  full = refl;
}
digit-Reads (suc (suc (suc (suc (suc (suc (suc (suc zero)))))))) acc h = record {
  value = ap some (omega arith);
  whole = refl;
  full = refl;
}
digit-Reads (suc (suc (suc (suc (suc (suc (suc (suc (suc zero))))))))) acc h = record {
  value = ap some (omega arith);
  whole = refl;
  full = refl;
}
digit-Reads (suc (suc (suc (suc (suc (suc (suc (suc (suc (suc n)))))))))) acc h =
    absurd (omega (arith, h))

digits_only :
    (b : Bool) (x y z : Option ℕ) {v : ℕ}
    → (x ≡ some v → y ≡ z)
    → (if b then x else none) ≡ some v
    → (if b then y else none) ≡ z
digits_only true x y z f h = f h
digits_only false x y z f h = cc h

value_on-append :
    (s t : String) (acc : ℕ) {v : ℕ}
    → value_on acc s ≡ some v
    → value_on acc (s ++ t) ≡ value_on v t
unfolding value_on
value_on-append String.[] t acc h = rw (nil-append t) (cc h)
value_on-append (String.◌∷◌ c s) t acc h =
    rw (cons-append c s t, value_on)
      (digits_only _ _ _ _ (value_on-append s t (acc * 10 + (code c - 48))) h)

-- A number with one digit more.
more-Reads :
    (n acc : ℕ) (s : String) → acc ≡ n / 10 → Reads 0 acc s → Reads 0 n (s ++ digit (n % 10))
more-Reads n acc s e r =
    let d = digit-Reads (n % 10) acc (omega arith) in
    record {
      value = value_on-append s (digit (n % 10)) 0 r.value ∙ (d.value ∙ ap some (omega (arith, e)));
      whole = ground (arith, has_break-append s (digit (n % 10)), r.whole, d.whole);
      full = is_text-append s (digit (n % 10)) d.full;
    }

decimal_on-Reads : (fuel n : ℕ) → n < fuel → Reads 0 n (decimal_on fuel n)
unfolding decimal_on
decimal_on-Reads zero n h = absurd (omega (arith, h))
decimal_on-Reads (suc fuel) n h = elim (Bool-cases (ltb n 10)) [
  | inl small ↦
      rw (small, decimal_on)
        (subst (λ v. Reads 0 v (digit n)) (omega arith) (digit-Reads n 0 (ground (arith, small))))
  | inr large ↦
      rw (large, decimal_on)
        (more-Reads n (n / 10) (decimal_on fuel (n / 10)) refl
          (decimal_on-Reads fuel (n / 10) (ground (arith, large, h))))
]

int_of_text : (s : String) → is_text s ≡ true → int s ≡ value_on 0 s
unfolding int is_text
int_of_text String.[] h = cc h
int_of_text (String.◌∷◌ c s) h = refl

pub int-decimal : (n : ℕ) → int (decimal n) ≡ some n
unfolding decimal
int-decimal n =
    let r = decimal_on-Reads (n + 1) n (omega arith) in
    int_of_text (decimal_on (n + 1) n) r.full ∙ r.value

pub decimal_whole : (n : ℕ) → has_break (decimal n) ≡ false
unfolding decimal
decimal_whole n = (decimal_on-Reads (n + 1) n (omega arith)).whole
