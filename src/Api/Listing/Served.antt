-- ===== src/Api/Listing/Served.antt =====
-- The two handlers of a task's artifacts, `list_artifacts` and `download_artifact`, agree.
use Prim.Native.Char.{code}
use mathlib.Core.List.{append_assoc}
use cloudagentperform.Base.{
  String, Bool, true, false, not, ◌&&◌, ◌||◌, All, nat_eq, if◌then◌else◌, ◌≡◌, refl, sym, ◌∙◌,
  subst, none, some, List, [], ◌∷◌, ◌++◌, ◌==◌, map, keep, any, All-append, arith, eq_refl,
  Bool-cases, inl, inr,
}
use cloudagentperform.Models.{Task}
use cloudagentperform.Store.Table.{Store}
use cloudagentperform.Store.{get}
use cloudagentperform.Sandbox.Files.{FilePath, Files, same, above, stored, is_dir}
use cloudagentperform.Sandbox.Artifacts.{sorted}
use cloudagentperform.Api.Artifacts.{
  is_digits, walk, join, Download, file_response, not_found, respond, guarded, located,
  download_artifact,
}
use cloudagentperform.Api.Inside.{is_plain, AllPlain, AllPlain-base, digits_plain, walk-AllPlain}
use cloudagentperform.Api.Listing.{
  Item, answered, value_error, url_of, item_of, below, firsts, uniq, parts, os_walk, of_attempt,
  items, Listing, artifacts, no_task, file_paths, listing, list_artifacts,
}
use cloudagentperform.Api.Listing.Members.{
  mem, any-flat_map, has-sorted, has-uniq, has-keep, has-firsts, mem-below, mem-os_walk,
}

-- Is the file served?
abbrev pub is_served : Download → Bool
is_served (file_response path content) = true
is_served (not_found why) = false

-- Does the list offer this URL?
unfoldable pub offers : FilePath → Listing → Bool
unfolding same
offers url (artifacts tid its) = any (λ i. same url i.url) its
offers url (no_task why) = false
offers url value_error = false

abbrev pub raises : Listing → Bool
raises (artifacts tid its) = false
raises (no_task why) = false
raises value_error = true

-- The request for a URL whose parts the route has received.
unfoldable pub request : FilePath → Files → Store → FilePath → Download
unfolding download_artifact
request dir files s (t ∷ tid ∷ a ∷ attempt ∷ name) =
    if t == "tasks" && a == "artifacts"
    then download_artifact dir files s tid attempt name
    else not_found "Not Found"
request dir files s _ = not_found "Not Found"

-- A part without the characters at which a URL ends or an escape begins: `?`, `#` and `%`.
abbrev pub is_unquoted : String → Bool
is_unquoted String.[] = true
is_unquoted (String.◌∷◌ c s) =
    not (nat_eq (code c) b'?' || nat_eq (code c) b'#' || nat_eq (code c) b'%') && is_unquoted s

abbrev pub AllUnquoted : FilePath → Type 0
AllUnquoted p = All (λ part. is_unquoted part ≡ true) p

-- The file that stands at `p`, if one does.
is_file : FilePath → Files → Bool
unfolding mem
is_file p files = mem p (file_paths files)

above-append : (base : FilePath) (x : String) (p : FilePath) → above base (base ++ x ∷ p) ≡ true
unfolding above
above-append [] x p = refl
above-append (b ∷ base) x p = ground (arith, eq_refl b, above-append base x p)

-- What stands at a path is served, if the path is inside.
respond-stored :
    (p full : FilePath) (files : Files)
    → is_served (respond full true (stored p files)) ≡ is_file p files
unfolding is_file mem stored
respond-stored p full [] = refl
respond-stored p full (f ∷ fs) = elim (Bool-cases (same p f.0)) [
  | inl e ↦ rw e refl
  | inr e ↦ rw e (respond-stored p full fs)
]

join-plain :
    (base : FilePath) (x : String) (p : FilePath)
    → is_plain x ≡ true
    → join base (x ∷ p) ≡ base ++ x ∷ p
join-plain base String.[] p h = cc h
join-plain base (String.◌∷◌ c s) p h = refl

guarded-served :
    (base : FilePath) (x : String) (p : FilePath) (files : Files)
    → AllPlain base
    → AllPlain (x ∷ p)
    → is_served (guarded base (walk [] (join base (x ∷ p))) files) ≡ is_file (base ++ x ∷ p) files
guarded-served base x p files b (h, hs) =
    rw
      (
        join-plain base x p h,
        walk-AllPlain [] (base ++ x ∷ p)
            (All-append (λ part. is_plain part ≡ true) base (x ∷ p) b (h, hs)),
        above-append base x p,
      )
      (respond-stored (base ++ x ∷ p) (base ++ x ∷ p) files)

located-served :
    (dir : FilePath) (files : Files) (t : Task) (tid attempt x : String) (p : FilePath)
    → AllPlain dir
    → is_plain tid ≡ true
    → AllPlain (x ∷ p)
    → is_served (located dir files (some t) tid attempt (x ∷ p))
      ≡ (is_digits attempt && is_file ((dir ++ tid ∷ attempt ∷ []) ++ x ∷ p) files)
located-served dir files t tid attempt x p d k h = elim (Bool-cases (is_digits attempt)) [
  | inl e ↦
      let base = dir ++ tid ∷ attempt ∷ [] in
      let b = AllPlain-base dir tid attempt d k (digits_plain attempt e) in
      rw e (
        subst
          (λ here.
            is_served (guarded here (walk [] (join here (x ∷ p))) files)
            ≡ is_file (base ++ x ∷ p) files)
          (sym (walk-AllPlain [] base b)) (guarded-served base x p files b h))
  | inr e ↦ rw e refl
]

-- What an attempt's part of the list offers.
url-mem :
    (tid attempt a : String) (name : FilePath) (rels : List FilePath)
    → any (λ i. same (url_of tid attempt name) i.url) (map (item_of tid a) rels)
      ≡ (attempt == a && mem name rels)
unfolding mem same item_of
url-mem tid attempt a name [] = ground arith
url-mem tid attempt a name (r ∷ rs) = ground (arith, eq_refl tid, url-mem tid attempt a name rs)

of_attempt-mem :
    (tid a x : String) (p : FilePath) (ps : List FilePath)
    → any (λ i. same (url_of tid a (x ∷ p)) i.url) (of_attempt tid a ps) ≡ mem (x ∷ p) ps
unfolding of_attempt
of_attempt-mem tid a x p ps = ground (
  arith,
  url-mem tid a a (x ∷ p) (os_walk (parts ps) ps),
  eq_refl a,
  mem-os_walk (parts ps) x p ps (omega arith),
)

of_other :
    (tid attempt a : String) (name : FilePath) (ps : List FilePath)
    → (attempt == a) ≡ false
    → any (λ i. same (url_of tid attempt name) i.url) (of_attempt tid a ps) ≡ false
unfolding of_attempt
of_other tid attempt a name ps e =
    ground (arith, url-mem tid attempt a name (os_walk (parts ps) ps), e)

items-mem :
    (base : FilePath) (tid a x : String) (p : FilePath) (paths : List FilePath)
    → any (λ i. same (url_of tid a (x ∷ p)) i.url) (items base tid paths)
      ≡ (is_digits a && mem ((base ++ a ∷ []) ++ x ∷ p) paths)
unfolding items
items-mem base tid a x p paths =
    let found = uniq (firsts (below base paths)) in
    ground (
      arith,
      any-flat_map (λ i. same (url_of tid a (x ∷ p)) i.url)
          (λ b. of_attempt tid b (below (base ++ b ∷ []) paths)) a (keep is_digits (sorted found))
          (λ b e. of_other tid a b (x ∷ p) (below (base ++ b ∷ []) paths) e),
      of_attempt-mem tid a x p (below (base ++ a ∷ []) paths),
      mem-below (base ++ a ∷ []) (x ∷ p) paths,
      has-keep a is_digits (sorted found),
      has-sorted a found,
      has-uniq a (firsts (below base paths)),
      has-firsts a (x ∷ p) (below base paths),
      mem-below base (a ∷ x ∷ p) paths,
      append_assoc base (a ∷ []) (x ∷ p),
    )

above-same :
    (base q : FilePath) (x : String) (p : FilePath)
    → (above base q && same (base ++ x ∷ p) q) ≡ same (base ++ x ∷ p) q
unfolding above same
above-same [] [] x p = refl
above-same [] (y ∷ q) x p = refl
above-same (b ∷ base) [] x p = refl
above-same (b ∷ base) (y ∷ q) x p = ground (arith, above-same base q x p)

-- A directory exists if a file is below it.
is_dir-mem :
    (base : FilePath) (x : String) (p : FilePath) (files : Files)
    → (is_dir base files && is_file (base ++ x ∷ p) files) ≡ is_file (base ++ x ∷ p) files
unfolding is_dir is_file mem
is_dir-mem base x p [] = refl
is_dir-mem base x p (f ∷ fs) = ground (arith, above-same base f.0 x p, is_dir-mem base x p fs)

offers-answered :
    (url : FilePath) (b : Bool) (tid : String) (its : List Item)
    → raises (answered b tid its) ≡ false
    → offers url (answered b tid its) ≡ any (λ i. same url i.url) its
unfolding offers
offers-answered url true tid its h = cc h
offers-answered url false tid its h = refl

listing-offers :
    (dir : FilePath) (files : Files) (t : Task) (tid attempt x : String) (p : FilePath)
    → raises (listing dir files (some t) tid) ≡ false
    → offers (url_of tid attempt (x ∷ p)) (listing dir files (some t) tid)
      ≡ (is_digits attempt && is_file ((dir ++ tid ∷ attempt ∷ []) ++ x ∷ p) files)
unfolding listing is_file
listing-offers dir files t tid attempt x p h =
    let base = dir ++ tid ∷ [] in
    offers-answered (url_of tid attempt (x ∷ p)) _ tid _ h
    ∙ ground (
      arith,
      items-mem base tid attempt x p (file_paths files),
      is_dir-mem base attempt (x ∷ p) files,
      append_assoc base (attempt ∷ []) (x ∷ p),
      append_assoc dir (tid ∷ []) (attempt ∷ x ∷ p),
      append_assoc dir (tid ∷ attempt ∷ []) (x ∷ p),
    )

list_artifacts-served_by :
    (dir : FilePath) (files : Files) (s : Store) (tid attempt x : String) (p : FilePath)
    → AllPlain dir
    → is_plain tid ≡ true
    → AllPlain (x ∷ p)
    → raises (list_artifacts dir files s tid) ≡ false
    → offers (url_of tid attempt (x ∷ p)) (list_artifacts dir files s tid)
      ≡ is_served (download_artifact dir files s tid attempt (x ∷ p))
unfolding list_artifacts download_artifact
list_artifacts-served_by dir files s tid attempt x p d k h =
    elim (get tid s)
      as (λ found.
        raises (listing dir files found tid) ≡ false
        → offers (url_of tid attempt (x ∷ p)) (listing dir files found tid)
          ≡ is_served (located dir files found tid attempt (x ∷ p))) [
            | none ↦ λ e. (unfold offers listing in refl)
            | some t ↦ λ e.
                listing-offers dir files t tid attempt x p e
                ∙ sym (located-served dir files t tid attempt x p d k h)
          ]

-- Let `route` be what the route receives for a URL that a client asks for: a URL without `?`, `#` and `%`
-- as it is. If `list_artifacts` does not raise, and the artifacts' directory, the task's id and the name
-- have no part that is empty, `.` or `..`, then for any task's id, attempt and name without those three
-- characters it offers their URL exactly if a request for that URL is served, also if the task or the file
-- does not exist or the attempt is not a number.
pub list_artifacts-served :
    (route : FilePath → FilePath) (dir : FilePath) (files : Files) (s : Store)
    (tid attempt x : String) (p : FilePath)
    → ((url : FilePath) → AllUnquoted url → route url ≡ url)
    → AllPlain dir
    → is_plain tid ≡ true
    → AllPlain (x ∷ p)
    → AllUnquoted (tid ∷ attempt ∷ x ∷ p)
    → raises (list_artifacts dir files s tid) ≡ false
    → offers (url_of tid attempt (x ∷ p)) (list_artifacts dir files s tid)
      ≡ is_served (request dir files s (route (url_of tid attempt (x ∷ p))))
unfolding request
list_artifacts-served route dir files s tid attempt x p arrives d k h (q, (q', qs)) e =
    rw (arrives (url_of tid attempt (x ∷ p)) (refl, (q, (refl, (q', qs)))))
      (list_artifacts-served_by dir files s tid attempt x p d k h e)
