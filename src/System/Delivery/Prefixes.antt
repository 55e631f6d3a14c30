-- ===== src/System/Delivery/Prefixes.antt =====
-- Beginnings of the list of events that a client is sent.
use mathlib.Core.List.{append_assoc}
use cloudagentperform.Base.{
  ℕ, zero, suc, ◌≤◌, ◌≡◌, refl, sym, ap, ◌∙◌, subst, inl, inr, Bool, true, false, String, List, [],
  ◌∷◌, ◌++◌, keep, take, if◌then◌else◌, arith, Bool-cases,
}
use cloudagentperform.Models.{Event, ends_stream}
use cloudagentperform.Store.Table.{Store, init}
use cloudagentperform.Store.{events_after}
use cloudagentperform.Store.History.Log.{Extends}
use cloudagentperform.Store.History.Replay.{IsAscending, of_task_after, in_order}
use cloudagentperform.Api.Stream.{seen_after}
use cloudagentperform.Api.Stream.Delivery.{through_end, newer, seen_after-append, le-seen_after}
use cloudagentperform.Cli.Follow.{IsPrefix, IsAscending-right}

pub IsPrefix-take : (n : ℕ) (xs : List Event) → IsPrefix (take n xs) xs
IsPrefix-take zero xs = (xs, refl)
IsPrefix-take (suc n) [] = ([], refl)
IsPrefix-take (suc n) (x ∷ xs) = let (rest, e) = IsPrefix-take n xs in (rest, ap (λ l. x ∷ l) e)

IsPrefix-through_end : (xs : List Event) → IsPrefix (through_end xs) xs
IsPrefix-through_end [] = ([], refl)
IsPrefix-through_end (x ∷ xs) = elim (Bool-cases (ends_stream x.type)) [
  | inl over ↦ rw over (xs, refl)
  | inr more ↦ let (rest, e) = IsPrefix-through_end xs in rw more (rest, ap (λ l. x ∷ l) e)
]

pub IsPrefix-trans : (xs ys zs : List Event) → IsPrefix xs ys → IsPrefix ys zs → IsPrefix xs zs
IsPrefix-trans xs ys zs (r, e) (t, f) = (r ++ t, f ∙ (ap (λ l. l ++ t) e ∙ append_assoc xs r t))

IsPrefix-append : (xs ys zs : List Event) → IsPrefix ys zs → IsPrefix (xs ++ ys) (xs ++ zs)
IsPrefix-append xs ys zs (r, e) = (r, ap (λ l. xs ++ l) e ∙ sym (append_assoc xs ys r))

pub IsPrefix-until :
    (b : Bool) (xs ys : List Event) → IsPrefix (xs ++ (if b then [] else through_end ys)) (xs ++ ys)
IsPrefix-until true xs ys = IsPrefix-append xs [] ys (ys, refl)
IsPrefix-until false xs ys = IsPrefix-append xs (through_end ys) ys (IsPrefix-through_end ys)

pub seen_after-IsPrefix :
    (lo : ℕ) (xs ys : List Event)
    → IsAscending lo ys
    → IsPrefix xs ys
    → seen_after lo xs ≤ seen_after lo ys
seen_after-IsPrefix lo xs ys h (r, e) =
    rw (e, seen_after-append lo xs r)
      (le-seen_after (seen_after lo xs) r (IsAscending-right lo xs r (subst (IsAscending lo) e h)))

keep_twice :
    (tid : String) (last : ℕ) (es : List Event)
    → newer last (keep (of_task_after tid 0) es) ≡ keep (of_task_after tid last) es
keep_twice tid last [] = refl
keep_twice tid last (e ∷ es) = ground (arith, keep_twice tid last es)

pub newer-events_after :
    (tid : String) (last : ℕ) (s : Store)
    → Extends init s
    → newer last (events_after tid 0 s) ≡ events_after tid last s
newer-events_after tid last s h =
    ap (newer last) (in_order tid 0 s h)
    ∙ (keep_twice tid last s.events ∙ sym (in_order tid last s h))
