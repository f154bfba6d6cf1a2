-- ===== src/Downloader/Segment/Written.antt =====
-- What the body callback writes, as long as it takes all data.
use mathlib.Core.List.{append-nil, append_assoc}
use debian_download_manager.Prelude.{
  ℕ, zero, suc, ◌+◌, ◌≡◌, refl, sym, ap, subst, ◌∙◌, inl, inr, Bool, true, List, [], ◌∷◌, ◌++◌,
  Option, none, some, ◌==◌, arith, ==→eq, length, length-append, take, Bool-cases, Option-cases,
}
use debian_download_manager.Prelude.Result.{Result, ok, err, ok-injective, Result-cases}
use debian_download_manager.Prelude.Text.{is_empty}
use debian_download_manager.Segmenter.Range.{Segment}
use debian_download_manager.Downloader.File.{
  File, put_bytes, write_at, put_bytes-append, put_bytes-cong,
}
use debian_download_manager.Downloader.Segment.{
  Event, header, body, Cells, check_range, store, on_checked, on_body, run_events,
}

-- The body data of the calls, put together.
abbrev pub bodies : List Event → List ℕ
bodies [] = []
bodies (header received ∷ events) = bodies events
bodies (body bytes written ∷ events) = bytes ++ bodies events

is_empty-nil : (xs : List ℕ) → is_empty xs ≡ true → xs ≡ []
is_empty-nil [] h = refl
is_empty-nil (x ∷ xs) h = absurd (cc h)

take-nil : (n : ℕ) → take {A = ℕ} n [] ≡ []
take-nil zero = refl
take-nil (suc n) = refl

take-all : (xs : List ℕ) → take (length xs) xs ≡ xs
take-all [] = refl
take-all (x ∷ xs) = ap (λ r. x ∷ r) (take-all xs)

module _ (segment : Segment) (file : File) where
  -- So far the bytes `received` were written, from the start of the segment on.
  pub record Wrote (received : List ℕ) (cells : Cells) : Type 0 where
    pub counted : cells.bytes_written ≡ length received
    pub written : (x : ℕ) → cells.file x ≡ put_bytes segment.start received file x

  Wrote-more :
      (received bytes : List ℕ) (cells next : Cells)
      → Wrote received cells
      → next.bytes_written ≡ cells.bytes_written + length bytes
      → ((x : ℕ) → next.file x ≡ put_bytes (segment.start + cells.bytes_written) bytes cells.file x)
      → Wrote (received ++ bytes) next
  Wrote-more received bytes cells next w e f = record {
    counted = omega (arith, length-append received bytes, w.counted);
    written = λ x.
        f x
        ∙ put_bytes-cong (segment.start + cells.bytes_written) bytes cells.file
            (put_bytes segment.start received file) x (w.written x)
        ∙ put_bytes-append segment.start (segment.start + cells.bytes_written) received bytes file x
            (ap (λ n. segment.start + n) w.counted);
  }

  store-Wrote :
      (received bytes : List ℕ) (written : Option ℕ) (cells : Cells)
      → Wrote received cells
      → (store segment bytes written cells).1 ≡ true
      → Wrote (received ++ bytes) (store segment bytes written cells).0
  unfolding store write_at put_bytes
  store-Wrote received bytes none cells w took = Wrote-more received bytes cells _ w refl λ x. sym (
      ap (λ bs. put_bytes (segment.start + cells.bytes_written) bs cells.file x)
        (is_empty-nil bytes took))
  store-Wrote received bytes (some n) cells w took = elim (Bool-cases (n == length bytes)) [
    | inl whole ↦
        rw (whole, store)
          (Wrote-more received bytes cells _ w refl λ x.
            ap (λ bs. put_bytes (segment.start + cells.bytes_written) bs cells.file x)
              (ap (λ k. take k bytes) (==→eq n (length bytes) whole) ∙ take-all bytes))
    | inr short ↦
        let empty : bytes ≡ [] = is_empty-nil bytes (ground arith) in
        rw (short, store)
          (Wrote-more received bytes cells _ w refl λ x.
            ap (λ bs. put_bytes (segment.start + cells.bytes_written) bs cells.file x)
              (ap (take n) empty ∙ take-nil n ∙ sym empty))
  ]

  on_checked-Wrote :
      (received bytes : List ℕ) (written : Option ℕ) (check : Result ℕ Unit) (cells : Cells)
      → Wrote received cells
      → (on_checked segment bytes written check cells).1 ≡ true
      → Wrote (received ++ bytes) (on_checked segment bytes written check cells).0
  unfolding on_checked
  on_checked-Wrote received bytes written (ok done) cells w took =
      store-Wrote received bytes written cells w took
  on_checked-Wrote received bytes written (err status) cells w took =
      subst (λ bs. Wrote bs cells)
        (sym (append-nil received) ∙ ap (λ bs. received ++ bs) (sym (is_empty-nil bytes took))) w

  checked :
      (received bytes : List ℕ) (written : Option ℕ) (check : Result ℕ Unit) (cells next : Cells)
      → Wrote received cells
      → on_checked segment bytes written check cells ≡ (next, true)
      → Wrote (received ++ bytes) next
  checked received bytes written check cells next w e =
      subst (λ (n : Cells). Wrote (received ++ bytes) n) (ap (λ (p : Cells × Bool). p.0) e)
        (on_checked-Wrote received bytes written check cells w (ap (λ (p : Cells × Bool). p.1) e))

  on_body-Wrote :
      (received bytes : List ℕ) (written : Option ℕ) (cells next : Cells)
      → Wrote received cells
      → on_body segment bytes written cells ≡ ok (next, true)
      → Wrote (received ++ bytes) next
  unfolding on_body
  on_body-Wrote received bytes written cells next w e = elim (Option-cases cells.range_check) [
    | inr (check, e1) ↦
        checked received bytes written check cells next w (ok-injective (rw (e1, on_body) at e))
    | inl e1 ↦ elim (Result-cases (check_range segment cells.response_headers)) [
      | inr (panic, e2) ↦ absurd (cc (rw (e1, e2, on_body) at e))
      | inl (check, e2) ↦
          checked received bytes written check (record cells { range_check = some check }) next
            (record { counted = w.counted; written = w.written })
            (ok-injective (rw (e1, e2, on_body) at e))
    ]
  ]

  pub run_events-Wrote :
      (events : List Event) (received : List ℕ) (cells next : Cells)
      → Wrote received cells
      → run_events segment events cells ≡ ok (next, true)
      → Wrote (received ++ bodies events) next
  unfolding run_events
  run_events-Wrote [] received cells next w e =
      let same : cells ≡ next = ap (λ (p : Cells × Bool). p.0) (ok-injective e) in
      subst (λ (n : Cells). Wrote (received ++ []) n) same
        (subst (λ bs. Wrote bs cells) (sym (append-nil received)) w)
  run_events-Wrote (header data_received ∷ events) received cells next w e =
      run_events-Wrote events received _ next (record { counted = w.counted; written = w.written })
        e
  run_events-Wrote (body bytes written ∷ events) received cells next w e =
      elim (Result-cases (on_body segment bytes written cells)) [
        | inr (panic, e1) ↦ absurd (cc (rw (e1, run_events) at e))
        | inl ((mid, took), e1) ↦ elim (Bool-cases took) [
          | inr refused ↦
              let e2 = e1 ∙ ap (λ b. ok (mid, b)) refused in
              absurd (cc (ok-injective (rw (e2, run_events) at e)))
          | inl taken ↦
              let e2 = e1 ∙ ap (λ b. ok (mid, b)) taken in
              let after = on_body-Wrote received bytes written cells mid w e2 in
              subst (λ bs. Wrote bs next) (append_assoc received bytes (bodies events))
                (run_events-Wrote events (received ++ bytes) mid next after
                  (rw (e2, run_events) at e))
        ]
      ]
