-- ===== src/Control/Laws.antt =====
-- A request to abort reaches the token of its job and no other one.
use mathlib.Core.Option.{some-injective}
use debian_download_manager.Prelude.{
  ℕ, ◌<◌, ◌≡◌, refl, sym, ap, ◌∙◌, inl, inr, true, false, List, [], ◌∷◌, some, ◌==◌, ==→eq,
  if◌then◌else◌, arith, length, length-append, get_elem?, length-set, get_elem?-set_self,
  get_elem?-set_ne, Bool-cases, Option-cases,
}
use debian_download_manager.Prelude.Map.{lookup, remove, lookup-insert, lookup-remove}
use debian_download_manager.Control.{id_eq, JobControl, new, register, unregister, request_abort}

-- The calls of the scheduler and of the control socket.
pub data Call : Type 0 where
  registers unregisters aborts : ℕ → Call

abbrev pub call : Call → JobControl → JobControl
call (registers id) s = (register id s).0
call (unregisters id) s = unregister id s
call (aborts id) s = request_abort id s

abbrev pub call_all : List Call → JobControl → JobControl
call_all [] s = s
call_all (c ∷ cs) s = call_all cs (call c s)

-- Each registered job has a token, and no two have the same one.
record Inv (s : JobControl) : Type 0 where
  there : (j t : ℕ) → lookup j s.jobs ≡ some t → t < length s.tokens
  apart : (i j t : ℕ) → lookup i s.jobs ≡ some t → lookup j s.jobs ≡ some t → i ≡ j

register-Inv : (id : ℕ) (s : JobControl) → Inv s → Inv (register id s).0
unfolding register
register-Inv id s v =
    let size = length-append s.tokens (false ∷ []) in
    let look = λ (j : ℕ). lookup-insert id j (length s.tokens) s.jobs in
    record {
      there = λ j t e. elim (Bool-cases (id == j)) [
        | inl same ↦
            let last : length s.tokens ≡ t = some-injective _ _ (rw same at (sym (look j) ∙ e)) in
            omega (arith, size)
        | inr differ ↦
            let old = v.there j t (rw differ at (sym (look j) ∙ e)) in omega (arith, size)
      ];
      apart = λ i j t e f. elim (Bool-cases (id == i)) [
        | inl same ↦
            let last : length s.tokens ≡ t = some-injective _ _ (rw same at (sym (look i) ∙ e)) in
            elim (Bool-cases (id == j)) [
              | inl same' ↦ sym (==→eq id i same) ∙ ==→eq id j same'
              | inr differ ↦
                  let old = v.there j t (rw differ at (sym (look j) ∙ f)) in absurd (omega arith)
            ]
        | inr differ ↦ elim (Bool-cases (id == j)) [
          | inl same ↦
              let last : length s.tokens ≡ t = some-injective _ _ (rw same at (sym (look j) ∙ f)) in
              let old = v.there i t (rw differ at (sym (look i) ∙ e)) in absurd (omega arith)
          | inr differ' ↦
              v.apart i j t (rw differ at (sym (look i) ∙ e)) (rw differ' at (sym (look j) ∙ f))
        ]
      ];
    }

unregister-Inv : (id : ℕ) (s : JobControl) → Inv s → Inv (unregister id s)
unfolding unregister
unregister-Inv id s v =
    let kept : (j t : ℕ) → lookup j (remove id s.jobs) ≡ some t → lookup j s.jobs ≡ some t =
      λ j t e. elim (Bool-cases (id == j)) [
        | inl same ↦ absurd (cc (rw same at (sym (lookup-remove id j s.jobs) ∙ e)))
        | inr differ ↦ rw differ at (sym (lookup-remove id j s.jobs) ∙ e)
      ] in
    record {
      there = λ j t e. v.there j t (kept j t e);
      apart = λ i j t e f. v.apart i j t (kept i t e) (kept j t f);
    }

request_abort-Inv : (id : ℕ) (s : JobControl) → Inv s → Inv (request_abort id s)
unfolding request_abort
request_abort-Inv id s v = elim (Option-cases (lookup id s.jobs)) [
  | inl nothing ↦ rw (nothing, request_abort) v
  | inr (token, found) ↦
      rw (found, request_abort)
        (record {
          there = λ j t e. omega (arith, v.there j t e, length-set s.tokens token true);
          apart = v.apart;
        })
]

call_all-Inv : (cs : List Call) (s : JobControl) → Inv s → Inv (call_all cs s)
call_all-Inv [] s v = v
call_all-Inv (registers id ∷ cs) s v = call_all-Inv cs (register id s).0 (register-Inv id s v)
call_all-Inv (unregisters id ∷ cs) s v = call_all-Inv cs (unregister id s) (unregister-Inv id s v)
call_all-Inv (aborts id ∷ cs) s v = call_all-Inv cs (request_abort id s) (request_abort-Inv id s v)

begun : Inv new
unfolding lookup
begun = record { there = λ j t e. absurd (cc e); apart = λ i j t e f. absurd (cc e) }

sets :
    (id : ℕ) (s : JobControl) (j t : ℕ)
    → Inv s
    → lookup j s.jobs ≡ some t
    → get_elem? (request_abort id s).tokens t
      ≡ (if id == j then some true else get_elem? s.tokens t)
unfolding request_abort
sets id s j t v e = elim (Option-cases (lookup id s.jobs)) [
  | inl nothing ↦ elim (Bool-cases (id == j)) [
    | inl same ↦ absurd (cc (ap (λ i. lookup i s.jobs) (==→eq id j same), nothing, e))
    | inr differ ↦ rw (nothing, request_abort, differ) refl
  ]
  | inr (token, found) ↦ elim (Bool-cases (id == j)) [
    | inl same ↦
        let at : token ≡ t =
          some-injective _ _ (sym found ∙ ap (λ i. lookup i s.jobs) (==→eq id j same) ∙ e) in
        rw (found, request_abort, same, at) (get_elem?-set_self s.tokens t true (v.there j t e))
    | inr differ ↦
        rw (found, request_abort, differ)
          (get_elem?-set_ne s.tokens token t true (λ at.
            let one = v.apart id j t (found ∙ ap some at) e in
            absurd (ground (arith, one, differ))))
  ]
]

-- After any calls of the registry: a request to abort a job sets the token that the registry has for
-- it, leaves the token of every other registered job as it was, and changes nothing else of the
-- registry; for a job that is not registered it changes no token of a registered one.
pub request_abort-only :
    (cs : List Call) (id : ℕ)
    → ((request_abort id (call_all cs new)).jobs ≡ (call_all cs new).jobs)
      × ((j t : ℕ)
          → lookup j (call_all cs new).jobs ≡ some t
          → get_elem? (request_abort id (call_all cs new)).tokens t
            ≡ (if id == j then some true else get_elem? (call_all cs new).tokens t))
unfolding request_abort
request_abort-only cs id =
    let s = call_all cs new in
    let v = call_all-Inv cs new begun in
    (
      elim (Option-cases (lookup id s.jobs)) [
        | inl nothing ↦ rw (nothing, request_abort) refl
        | inr (token, found) ↦ rw (found, request_abort) refl
      ],
      λ j t e. sets id s j t v e,
    )
