-- ===== src/FetchHead/Probe/Laws.antt =====
-- What the probes report.
use mathlib.Core.List.{append-nil, append_assoc}
use debian_download_manager.Prelude.{
  true, false, List, [], ◌∷◌, ◌++◌, map, Option, some, ◌≡◌, refl, sym, ap, arith, ◌∙◌,
}
use debian_download_manager.Prelude.Text.{Text, codes, trim_end, starts_with}
use debian_download_manager.FetchHead.Probe.{on_header, collect}

-- Header data of one response: its status line, and lines that are none.
abbrev pub IsStatus : Text → Type 0
IsStatus d = starts_with (codes "HTTP/") (trim_end d) ≡ true

abbrev pub AreFields : List Text → Type 0
AreFields [] = Unit
AreFields (d ∷ ds) = (starts_with (codes "HTTP/") (trim_end d) ≡ false) × AreFields ds

on_header-status :
    (d : Text) (headers : List Text) → IsStatus d → on_header (some d) headers ≡ trim_end d ∷ []
unfolding on_header
on_header-status d headers h = ground arith

on_header-field :
    (d : Text) (headers : List Text)
    → starts_with (codes "HTTP/") (trim_end d) ≡ false
    → on_header (some d) headers ≡ headers ++ trim_end d ∷ []
unfolding on_header
on_header-field d headers h = ground arith

collect-fields :
    (ds : List Text) (headers : List Text)
    → AreFields ds
    → collect (map some ds) headers ≡ headers ++ map trim_end ds
unfolding collect
collect-fields [] headers h = sym (append-nil headers)
collect-fields (d ∷ ds) headers (a, h) =
    ap (collect (map some ds)) (on_header-field d headers a)
    ∙ collect-fields ds (headers ++ trim_end d ∷ []) h
    ∙ append_assoc headers (trim_end d ∷ []) (map trim_end ds)

collect-append :
    (before after : List (Option Text)) (headers : List Text)
    → collect (before ++ after) headers ≡ collect after (collect before headers)
unfolding collect
collect-append [] after headers = refl
collect-append (x ∷ before) after headers = collect-append before after (on_header x headers)

-- Of a chain of redirects only the headers of the last response are kept: whatever came before its
-- status line is gone, and its own lines stand in their order.
pub collect-last_response :
    (before : List (Option Text)) (status : Text) (fields : List Text)
    → IsStatus status
    → AreFields fields
    → collect (before ++ some status ∷ map some fields) [] ≡ trim_end status ∷ map trim_end fields
unfolding collect
collect-last_response before status fields h k =
    collect-append before (some status ∷ map some fields) []
    ∙ ap (collect (map some fields)) (on_header-status status (collect before []) h)
    ∙ collect-fields fields (trim_end status ∷ []) k
