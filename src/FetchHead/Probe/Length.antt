-- ===== src/FetchHead/Probe/Length.antt =====
-- Where the length that the probes report comes from.
use mathlib.Core.List.{map-append}
use debian_download_manager.Prelude.{
  ℕ, true, false, ◌&&◌, List, [], ◌∷◌, ◌++◌, map, Option, none, some, ◌≡◌, ◌≤◌, ◌⊎◌, refl, sym, ap,
  subst, arith, ◌∙◌, Bool-cases, Option-cases, inl, inr, All,
}
use debian_download_manager.Prelude.Result.{Result-cases, ok, ok-injective}
use debian_download_manager.Prelude.Text.{
  Text, Lacks, codes, trim, trim_end, text_eq, text_eq_iff, split_once, split_once-append,
  eq_ignore_ascii_case,
}
use debian_download_manager.Prelude.Decimal.{show_ℕ, parse_ℕ-show_ℕ, IsDigit, show_ℕ-IsDigit}
use debian_download_manager.FetchHead.Parse.{HeadResult, u64_max}
use debian_download_manager.FetchHead.Probe.{
  Transport, range_line, range_total, header_lines, received, is_success, collect, of_range0, merge,
  has_length, parse_content_range_total, probe, probe_range0, probe_best_effort,
}
use debian_download_manager.FetchHead.Probe.Laws.{IsStatus, AreFields, collect-last_response}

-- The line reads `Content-Range: unit/total`, in any case and with white space around the parts.
pub record IsContentRange (line : Text) (total : ℕ) : Type 0 where
  pub name : Text
  pub value : Text
  pub unit : Text
  pub digits : Text
  pub at_colon : line ≡ name ++ b':' ∷ value
  pub no_colon : Lacks b':' name
  pub named : eq_ignore_ascii_case (trim name) (codes "content-range") ≡ true
  pub at_slash : trim value ≡ unit ++ b'/' ∷ digits
  pub no_slash : Lacks b'/' unit
  pub decimal : trim digits ≡ show_ℕ total
  pub fits : total ≤ u64_max

-- The line has no colon, or another name before it.
abbrev pub IsOther : Text → Type 0
IsOther line =
    (split_once b':' line ≡ none)
    ⊎ ((name : Text) × (value : Text) × (split_once b':' line ≡ some (name, value))
        × (eq_ignore_ascii_case (trim name) (codes "content-range") ≡ false))

range_line-accept_ranges :
    (line : Text) (r : HeadResult) → (range_line line r).accept_ranges ≡ r.accept_ranges
unfolding range_line
range_line-accept_ranges line r = ground arith

range_total-accept_ranges :
    (lines : List Text) (r : HeadResult) → (range_total lines r).accept_ranges ≡ r.accept_ranges
unfolding range_total
range_total-accept_ranges [] r = refl
range_total-accept_ranges (line ∷ lines) r =
    range_total-accept_ranges lines (range_line line r) ∙ range_line-accept_ranges line r

of_range0-accept_ranges : (headers : List Text) → (of_range0 (headers, 206)).accept_ranges ≡ true
unfolding of_range0
of_range0-accept_ranges headers = range_total-accept_ranges headers _

not_a_star : (total : ℕ) → text_eq (show_ℕ total) (codes "*") ≡ false
not_a_star total = elim (Bool-cases (text_eq (show_ℕ total) (codes "*"))) [
  | inr differ ↦ differ
  | inl same ↦
      let star = subst (All IsDigit) ((text_eq_iff _ _).0 same) (show_ℕ-IsDigit total) in
      absurd (omega (arith, star.0))
]

total_of :
    (line : Text) (total : ℕ) (h : IsContentRange line total)
    → parse_content_range_total (trim h.value) ≡ some total
unfolding parse_content_range_total
total_of line total h =
    rw
      (
        h.at_slash,
        split_once-append b'/' h.unit h.digits h.no_slash,
        h.decimal,
        not_a_star total,
        parse_content_range_total,
      )
      (parse_ℕ-show_ℕ u64_max total h.fits)

total_read :
    (total : ℕ) (line : Text) (r : HeadResult)
    → IsContentRange line total
    → (range_line line r).content_length ≡ some total
unfolding range_line
total_read total line r h =
    rw
      (
        h.at_colon,
        split_once-append b':' h.name h.value h.no_colon,
        h.named,
        total_of line total h,
        range_line,
      )
      refl

other_line : (line : Text) (r : HeadResult) → IsOther line → range_line line r ≡ r
unfolding range_line
other_line line r (inl none_there) = rw (none_there, range_line) refl
other_line line r (inr (name, value, found, differs)) = rw (found, differs, range_line) refl

other_lines : (lines : List Text) (r : HeadResult) → All IsOther lines → range_total lines r ≡ r
unfolding range_total
other_lines [] r h = refl
other_lines (line ∷ lines) r h =
    ap (range_total lines) (other_line line r h.0) ∙ other_lines lines r h.1

range_total-length :
    (before : List Text) (line : Text) (after : List Text) (total : ℕ) (r : HeadResult)
    → IsContentRange line total
    → All IsOther after
    → (range_total (before ++ line ∷ after) r).content_length ≡ some total
unfolding range_total
range_total-length [] line after total r h k =
    ap (λ (x : HeadResult). x.content_length) (other_lines after (range_line line r) k)
    ∙ total_read total line r h
range_total-length (b ∷ before) line after total r h k =
    range_total-length before line after total (range_line b r) h k

of_range0-length :
    (before : List (Option Text)) (status line : Text) (fields more : List Text) (total : ℕ)
    → IsStatus status
    → AreFields (fields ++ line ∷ more)
    → IsContentRange (trim_end line) total
    → All IsOther (map trim_end more)
    → (of_range0
        (collect (before ++ some status ∷ map some (fields ++ line ∷ more)) [], 206)).content_length
      ≡ some total
unfolding of_range0
of_range0-length before status line fields more total st fs c o =
    rw
      (
        collect-last_response before status (fields ++ line ∷ more) st fs,
        map-append trim_end fields (line ∷ more),
      )
      (range_total-length (trim_end status ∷ map trim_end fields) (trim_end line)
        (map trim_end more) total _ c o)

lacks_length :
    (r : HeadResult) → r.content_length ≡ none → (r.accept_ranges && has_length r) ≡ false
lacks_length r e = ground (arith, e)

merge-ranges : (r r2 : HeadResult) → r2.accept_ranges ≡ true → (merge r r2).accept_ranges ≡ true
unfolding merge
merge-ranges r r2 h = ground arith

merge-second :
    (r r2 : HeadResult) (total : ℕ)
    → r.content_length ≡ none
    → r2.content_length ≡ some total
    → (merge r r2).content_length ≡ some total
unfolding merge
merge-second r r2 total e h = rw (e, h) refl

merge-first :
    (r r2 : HeadResult) (n : ℕ) → r.content_length ≡ some n → (merge r r2).content_length ≡ some n
unfolding merge
merge-first r r2 n e = rw e refl

-- The length of the result: the one that HEAD gave, and `total` where it gave none.
abbrev pub LengthIs : Transport → Text → List (Text × Text) → ℕ → HeadResult → Type 0
LengthIs t url custom_headers total r =
    ((h : HeadResult) × (n : ℕ) × (probe t url custom_headers ≡ ok h)
      × (h.content_length ≡ some n)
      × (r.content_length ≡ some n))
    ⊎ (((h : HeadResult) → probe t url custom_headers ≡ ok h → h.content_length ≡ none)
        × (r.content_length ≡ some total))

-- The result of the best effort, when the request for one byte gives all there is to know.
best_of :
    (t : Transport) (url : Text) (custom_headers : List (Text × Text)) (total : ℕ) (r2 : HeadResult)
    → probe_range0 t url custom_headers ≡ ok r2
    → r2.accept_ranges ≡ true
    → r2.content_length ≡ some total
    → (r : HeadResult) × (probe_best_effort t url custom_headers ≡ ok r)
      × (r.accept_ranges ≡ true)
      × LengthIs t url custom_headers total r
unfolding probe_best_effort
best_of t url custom_headers total r2 e2 a2 l2 = elim (Result-cases (probe t url custom_headers)) [
  | inr (x, ex) ↦ (r2, rw (ex, probe_best_effort) e2, a2, inr ((λ h eh. absurd (cc (eh, ex))), l2))
  | inl (r, er) ↦ elim (Option-cases r.content_length) [
    | inl nothing ↦ (
      merge r r2,
      rw (er, lacks_length r nothing, e2, probe_best_effort) refl,
      merge-ranges r r2 a2,
      inr (
        (λ h eh. ap (λ (x : HeadResult). x.content_length) (ok-injective (sym eh ∙ er)) ∙ nothing),
        merge-second r r2 total nothing l2,
      ),
    )
    | inr (n, known) ↦ elim (Bool-cases (r.accept_ranges && has_length r)) [
      | inl both ↦
          (r, rw (er, both, probe_best_effort) refl, ground arith, inl (r, n, er, known, known))
      | inr lacks ↦ (
        merge r r2,
        rw (er, lacks, e2, probe_best_effort) refl,
        merge-ranges r r2 a2,
        inl (r, n, er, known, merge-first r r2 n known),
      )
    ]
  ]
]

probe_range0-206 :
    (t : Transport) (url : Text) (custom_headers : List (Text × Text)) (ds : List (Option Text))
    → t.get_range0 url (header_lines custom_headers) ≡ ok (ds, 206)
    → probe_range0 t url custom_headers ≡ ok (of_range0 (collect ds [], 206))
unfolding probe_range0 received is_success
probe_range0-206 t url custom_headers ds e = rw e refl

-- A server answers the request for one byte with 206, after any redirects, and the last response has
-- a line `Content-Range: unit/total`, the last of that name, with a total that fits into a u64. Then
-- whatever it answers to HEAD, the probes return a result, which says that ranges are supported; its
-- length is the one that HEAD gave, and the total where HEAD failed or gave none.
pub probe_best_effort-range_capable :
    (t : Transport) (url : Text) (custom_headers : List (Text × Text)) (before : List (Option Text))
    (status line : Text) (fields more : List Text) (total : ℕ)
    → IsStatus status
    → AreFields (fields ++ line ∷ more)
    → IsContentRange (trim_end line) total
    → All IsOther (map trim_end more)
    → t.get_range0 url (header_lines custom_headers)
      ≡ ok (before ++ some status ∷ map some (fields ++ line ∷ more), 206)
    → (r : HeadResult) × (probe_best_effort t url custom_headers ≡ ok r)
      × (r.accept_ranges ≡ true)
      × LengthIs t url custom_headers total r
probe_best_effort-range_capable t url custom_headers before status line fields more total st fs c o
      e =
    let ds = before ++ some status ∷ map some (fields ++ line ∷ more) in
    let r2 = of_range0 (collect ds [], 206) in
    let a2 = of_range0-accept_ranges (collect ds []) in
    let l2 = of_range0-length before status line fields more total st fs c o in
    best_of t url custom_headers total r2 (probe_range0-206 t url custom_headers ds e) a2 l2
