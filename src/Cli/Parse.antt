-- ===== src/Cli/Parse.antt =====
-- cli/main.py, `parse_sse_lines` and `_exit_code`. `json.loads` is a parameter.
use Prim.Native.Char.{code}
use cloudagentperform.Base.{
  ℕ, ◌+◌, ◌-◌, ◌*◌, String, Bool, true, false, not, ◌&&◌, Option, none, some, List, [], ◌∷◌, ◌==◌,
  if◌then◌else◌, leb, nat_eq, lookup,
}
use cloudagentperform.Models.{Json, str, ev_completed, Event}
use cloudagentperform.Agent.Llm.Body.{Codec, Decoded, decoded, decode_error}

-- `line.startswith(prefix)`, and then the rest of the line.
unfoldable pub after_prefix : String → String → Option String
after_prefix String.[] s = some s
after_prefix (String.◌∷◌ c p) String.[] = none
after_prefix (String.◌∷◌ c p) (String.◌∷◌ d s) =
    let rest = after_prefix p s in if nat_eq (code c) (code d) then rest else none

-- `int(text)` of a text of digits. The other forms that Python reads, with spaces or a sign, count as
-- errors here.
unfoldable pub value_on : ℕ → String → Option ℕ
value_on acc String.[] = some acc
value_on acc (String.◌∷◌ c s) =
    let rest = value_on (acc * 10 + (code c - 48)) s in
    if leb 48 (code c) && leb (code c) 57 then rest else none

unfoldable pub int : String → Option ℕ
unfolding value_on
int String.[] = none
int (String.◌∷◌ c s) = value_on 0 (String.◌∷◌ c s)

-- The dictionary `cur`.
pub record Current : Type 0 where
  pub id : Option ℕ
  pub type : Option String
  pub content : Option Json

abbrev pub fresh : Current
fresh = record { id = none; type = none; content = none }

abbrev pub is_none {ℓ} : {A : Type ℓ} → Option A → Bool
is_none none = true
is_none (some a) = false

-- `not cur`
abbrev pub is_fresh : Current → Bool
is_fresh cur = is_none cur.id && is_none cur.type && is_none cur.content

-- What a line does: it changes `cur`, yields it, or raises.
pub data Line : Type 0 where
  changed : Current → Line
  yielded : Current → Line
  failed : Line

abbrev pub read_id : Option ℕ → Current → Line
read_id none cur = failed
read_id (some n) cur = changed (record cur { id = some n })

abbrev pub read_data : Decoded → Current → Line
read_data (decoded j) cur = changed (record cur { content = some j })
read_data (decode_error why) cur = failed

module _ (c : Codec) where
  -- The tests in order: the rest of the line behind each of the three prefixes, then whether the line is
  -- empty and `cur` is not.
  abbrev pub read_line : Option String → Option String → Option String → Bool → Current → Line
  read_line (some s) e d b cur = read_id (int s) cur
  read_line none (some s) d b cur = changed (record cur { type = some s })
  read_line none none (some s) b cur = read_data (c.loads s) cur
  read_line none none none true cur = yielded cur
  read_line none none none false cur = changed cur

  abbrev pub went : Line → (Current → List Current × Bool) → List Current × Bool
  went (changed cur) rest = rest cur
  went (yielded cur) rest = let (out, raised) = rest fresh in (cur ∷ out, raised)
  went failed rest = ([], true)

  -- `parse_sse_lines`: what it yields, and whether it raises.
  unfoldable pub parse_sse_lines : List String → Current → List Current × Bool
  unfolding after_prefix int
  parse_sse_lines [] cur = ([], false)
  parse_sse_lines (line ∷ ls) cur =
      went
        (read_line (after_prefix "id: " line) (after_prefix "event: " line)
          (after_prefix "data: " line) (line == "" && not (is_fresh cur)) cur)
        (parse_sse_lines ls)

-- `_exit_code`
abbrev pub is_cancelled : Option Json → Bool
is_cancelled (some (str s)) = s == "cancelled"
is_cancelled _ = false

unfoldable pub exit_code : Option Event → ℕ
unfolding lookup
exit_code none = 1
exit_code (some ev) =
    if ev.type == ev_completed
    then 0
    else if is_cancelled (lookup "status" ev.payload)
    then 2
    else 1
