-- ===== src/Agent/Text.antt =====
-- Texts of agent/loop.py and agent/tools.py: slices, decimal numbers, `str.strip`, `shlex.quote`, and
-- the regular expression that drops a model's reasoning.
use Prim.Native.Char.{code}
use Prim.Native.String.{String, [], ◌∷◌, ◌++◌}
use text.Mathlib.Text.{starts_with}
use cloudagentperform.Base.{
  ℕ, zero, suc, ◌+◌, ◌/◌, ◌%◌, Bool, true, false, ◌||◌, ◌&&◌, if◌then◌else◌, leb, ltb, nat_eq, ◌==◌,
  Option, none, some,
}

-- `text[:n]`
unfoldable pub take_chars : ℕ → String → String
take_chars zero s = []
take_chars (suc n) [] = []
take_chars (suc n) (c ∷ s) = c ∷ take_chars n s

-- `text[n:]`
unfoldable pub drop_chars : ℕ → String → String
drop_chars zero s = s
drop_chars (suc n) [] = []
drop_chars (suc n) (c ∷ s) = drop_chars n s

-- `len(text)`
unfoldable pub size : String → ℕ
size [] = 0
size (c ∷ s) = suc (size s)

unfoldable pub digit : ℕ → String
digit n =
    if nat_eq n 0
    then "0"
    else if nat_eq n 1
    then "1"
    else if nat_eq n 2
    then "2"
    else if nat_eq n 3
    then "3"
    else if nat_eq n 4
    then "4"
    else if nat_eq n 5
    then "5"
    else if nat_eq n 6
    then "6"
    else if nat_eq n 7
    then "7"
    else if nat_eq n 8
    then "8"
    else "9"

unfoldable pub decimal_on : ℕ → ℕ → String
decimal_on zero n = ""
decimal_on (suc fuel) n = elim (ltb n 10) [
  | true ↦ digit n
  | false ↦ decimal_on fuel (n / 10) ++ digit (n % 10)
]

-- `str(n)`: `n + 1` rounds are enough, since each divides by ten.
unfoldable pub decimal : ℕ → String
unfolding decimal_on digit
decimal n = decimal_on (n + 1) n

-- `str.isspace`, and `\s` in a regular expression.
unfoldable pub is_space : ℕ → Bool
is_space c =
    (leb 9 c && leb c 13)
    || (leb 28 c && leb c 32)
    || nat_eq c 0x85
    || nat_eq c 0xa0
    || nat_eq c 0x1680
    || (leb 0x2000 c && leb c 0x200a)
    || nat_eq c 0x2028
    || nat_eq c 0x2029
    || nat_eq c 0x202f
    || nat_eq c 0x205f
    || nat_eq c 0x3000

unfoldable pub left_strip : String → String
unfolding is_space
left_strip [] = []
left_strip (c ∷ s) = elim (is_space (code c)) [ true ↦ left_strip s | false ↦ c ∷ s ]

-- A space is kept only before something that is kept.
unfoldable pub right_strip : String → String
unfolding is_space
right_strip [] = []
right_strip (c ∷ s) =
    let rest = right_strip s in if is_space (code c) && rest == "" then "" else c ∷ rest

unfoldable pub strip : String → String
unfolding left_strip right_strip
strip s = right_strip (left_strip s)

-- Where a scan for `<think>.*?</think>\s*|<think>.*\Z` stands: before a block, in the tag that opens
-- it, in the block, in the tag that closes it (with the characters left), or in the space behind it.
pub data Scan : Type 0 where
  outside : Scan
  opening : ℕ → Scan
  thinking : Scan
  closing : ℕ → Scan
  spaces : Scan

-- The mode for the next character, and whether this one is kept.
unfoldable pub scan_step : Scan → String → ℕ → Scan × Bool
unfolding is_space
scan_step outside s c = if starts_with s "<think>" then (opening 6, false) else (outside, true)
scan_step (opening zero) s c =
    if starts_with s "</think>" then (closing 7, false) else (thinking, false)
scan_step (opening (suc zero)) s c = (thinking, false)
scan_step (opening (suc (suc n))) s c = (opening (suc n), false)
scan_step thinking s c = if starts_with s "</think>" then (closing 7, false) else (thinking, false)
scan_step (closing zero) s c = (spaces, false)
scan_step (closing (suc zero)) s c = (spaces, false)
scan_step (closing (suc (suc n))) s c = (closing (suc n), false)
scan_step spaces s c =
    if is_space c
    then (spaces, false)
    else if starts_with s "<think>"
    then (opening 6, false)
    else (outside, true)

-- `_THINK.sub("", text)`. A block with no closing tag runs to the end of the text.
unfoldable pub drop_thinking : Scan → String → String
unfolding scan_step
drop_thinking m [] = []
drop_thinking m (c ∷ s) =
    let (m', kept) = scan_step m (c ∷ s) (code c) in
    let rest = drop_thinking m' s in if kept then c ∷ rest else rest

unfoldable pub strip_reasoning : Option String → String
unfolding drop_thinking strip
strip_reasoning none = strip ""
strip_reasoning (some text) = strip (drop_thinking outside text)
