-- ===== src/FlakeId/Callers.antt =====
-- What every caller of `nextId` may rely on, whatever the supplier answers and when.
use hazelcast_nodejs_client.Prelude.{
  ℕ, zero, suc, ◌≡◌, refl, ap, sym, ◌∙◌, ◌⊎◌, inl, inr, true, false, List, [], ◌∷◌, ◌++◌, map,
  Option, none, some, arith, append_assoc, append-nil, Option-cases, List-cases, ℤ, Bool-cases,
}
use hazelcast_nodejs_client.FlakeId.{
  AutoBatcher, Batch, create, next_of_batch, serve, process_id_requests, assign_new_batch, next_id,
  receive_batch, reject_all, receive_error,
}

-- The promises of the first `n` calls, in the order of the calls.
abbrev pub called : ℕ → List ℕ
called zero = []
called (suc n) = called n ++ n ∷ []

abbrev promise : ℕ × Option ℤ → ℕ
promise (p, id) = p

-- The promises are settled in the order of the calls, each at most once, and those that are not yet
-- settled wait in the queue; while any waits, the supplier is asked.
pub record Fair (a : AutoBatcher) : Type 0 where
  pub in_order : map promise a.settled ++ a.queue ≡ called a.promises
  pub asked : (a.queue ≡ []) ⊎ (a.request_in_flight ≡ true)

pub data Step : AutoBatcher → AutoBatcher → Type 0 where
  calls : (a : AutoBatcher) (now : ℕ) → Step a (next_id a now)
  answers :
      {a : AutoBatcher} (batch : Batch) (now : ℕ)
      → a.request_in_flight ≡ true
      → Step a (receive_batch a batch now)
  errs : {a : AutoBatcher} → a.request_in_flight ≡ true → Step a (receive_error a)

pub data Reach (a : AutoBatcher) : AutoBatcher → Type 0 where
  here : Reach a a
  next : {b c : AutoBatcher} → Reach a b → Step b c → Reach a c

map-append :
    (xs ys : List (ℕ × Option ℤ)) → map promise (xs ++ ys) ≡ map promise xs ++ map promise ys
map-append [] ys = refl
map-append (x ∷ xs) ys = ap (λ zs. promise x ∷ zs) (map-append xs ys)

map-none : (ps : List ℕ) → map promise (map (λ p. (p, none)) ps) ≡ ps
map-none [] = refl
map-none (p ∷ ps) = ap (λ qs. p ∷ qs) (map-none ps)

-- The loop settles a front part of the queue.
serve-front :
    (batch : Option Batch) (now : ℕ) (queue : List ℕ)
    → map promise (serve batch now queue).1 ++ (serve batch now queue).2 ≡ queue
unfolding serve
serve-front batch now [] = refl
serve-front none now (p ∷ queue) = refl
serve-front (some b) now (p ∷ queue) = elim (Option-cases (next_of_batch b now).1) [
  | inl e ↦ rw (e, serve) refl
  | inr (id, e) ↦
      rw (e, serve) (ap (λ qs. p ∷ qs) (serve-front (some (next_of_batch b now).0) now queue))
]

process_id_requests-Fair :
    (a : AutoBatcher) (now : ℕ)
    → map promise a.settled ++ a.queue ≡ called a.promises
    → Fair (process_id_requests a now)
unfolding process_id_requests assign_new_batch
process_id_requests-Fair a now e =
    let answers = (serve a.batch now a.queue).1 in
    let rest = (serve a.batch now a.queue).2 in
    let front : map promise (a.settled ++ answers) ++ rest ≡ called a.promises =
      rw
        (
          map-append a.settled answers,
          append_assoc (map promise a.settled) (map promise answers) rest,
          serve-front a.batch now a.queue,
        )
        e in
    elim (List-cases rest) [
      | inl f ↦ record { in_order = ground (arith, front); asked = ground arith }
      | inr (p, ps, f) ↦ elim (Bool-cases a.request_in_flight) [
        | inl g ↦ record { in_order = ground (arith, front); asked = ground arith }
        | inr g ↦ record { in_order = ground (arith, front); asked = ground arith }
      ]
    ]

reject_all-Fair :
    (a : AutoBatcher) → map promise a.settled ++ a.queue ≡ called a.promises → Fair (reject_all a)
unfolding reject_all
reject_all-Fair a e = record {
  in_order =
      append-nil (map promise (a.settled ++ map (λ p. (p, none)) a.queue))
      ∙ map-append a.settled (map (λ p. (p, none)) a.queue)
      ∙ ap (λ qs. map promise a.settled ++ qs) (map-none a.queue)
      ∙ e;
  asked = inl refl;
}

Step-Fair : {a b : AutoBatcher} → Step a b → Fair a → Fair b
unfolding next_id receive_batch receive_error
Step-Fair (calls a now) f =
    process_id_requests-Fair
      (record a { queue = a.queue ++ a.promises ∷ []; promises = suc a.promises }) now
      (sym (append_assoc (map promise a.settled) a.queue (a.promises ∷ []))
        ∙ ap (λ ps. ps ++ a.promises ∷ []) f.in_order)
Step-Fair {a} (answers batch now h) f =
    process_id_requests-Fair (record a { request_in_flight = false; batch = some batch }) now
      f.in_order
Step-Fair {a} (errs h) f = reject_all-Fair (record a { request_in_flight = false }) f.in_order

-- Whatever calls of `nextId` and answers of the supplier follow each other, the promises are settled
-- in the order of the calls, each at most once, no call is lost, and while any caller waits, the
-- supplier is being asked.
pub Reach-Fair : {a : AutoBatcher} → Reach create a → Fair a
Reach-Fair here = record { in_order = refl; asked = inl refl }
Reach-Fair (next r s) = Step-Fair s (Reach-Fair r)
