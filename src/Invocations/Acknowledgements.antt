-- ===== src/Invocations/Acknowledgements.antt =====
-- A response and the acknowledgements of its backups, in any order.
use hazelcast_nodejs_client.Prelude.{
  ℕ, zero, suc, ◌+◌, ◌≡◌, ◌∙◌, ap, Option, none, some, arith, ltb, leb, if◌then◌else◌, inl, inr,
  Bool-cases, pos, eqb_ℤ_iff,
}
use hazelcast_nodejs_client.Invocations.Request.{
  Message, Outcome, resolved, Invocation, settle, complete, notify, notify_backup_complete,
}

-- What the promise of a response that `k` backups acknowledge is settled with after `n` of them.
abbrev pub settled_after : {A : Type 0} → Message A → ℕ → ℕ → Option (Outcome A)
settled_after m k n = if leb k n then some (resolved m) else none

module _ {C A : Type 0} where
  -- The invocation after a number of acknowledgements.
  abbrev pub acknowledged : ℕ → Invocation C A → Invocation C A
  acknowledged zero i = i
  acknowledged (suc n) i = acknowledged n (notify_backup_complete i).0

  -- Before the response nothing but the count changes.
  acknowledged-before :
      (n : ℕ) (i : Invocation C A)
      → i.pending_response ≡ none
      → acknowledged n i ≡ record i { backups_acks_received = n + i.backups_acks_received }
  unfolding notify_backup_complete
  acknowledged-before zero i e = ap (λ c. record i { backups_acks_received = c }) (omega arith)
  acknowledged-before (suc n) i e =
      let counted : Invocation C A = record i {
        backups_acks_received = suc i.backups_acks_received;
      } in
      let step : (notify_backup_complete i).0 ≡ counted = ground arith in
      rw step (
        acknowledged-before n counted e
        ∙ ap (λ c. record i { backups_acks_received = c }) (omega arith))

  -- After the response the last acknowledgement that it waits for settles the promise.
  acknowledged-after :
      (n : ℕ) (i : Invocation C A) (m : Message A) (k : ℕ)
      → i.pending_response ≡ some m
      → i.backups_acks_expected ≡ pos k
      → i.deferred ≡ settled_after m k i.backups_acks_received
      → (acknowledged n i).deferred ≡ settled_after m k (n + i.backups_acks_received)
  unfolding notify_backup_complete complete settle
  acknowledged-after zero i m k e f d = d ∙ ground arith
  acknowledged-after (suc n) i m k e f d =
      let i' = (notify_backup_complete i).0 in
      let exact = eqb_ℤ_iff (pos k) (pos (suc i.backups_acks_received)) in
      let waits : i'.pending_response ≡ some m = ground arith in
      let expects : i'.backups_acks_expected ≡ pos k = ground arith in
      let counts : i'.backups_acks_received ≡ suc i.backups_acks_received = ground arith in
      let settles : i'.deferred ≡ settled_after m k i'.backups_acks_received =
        ground (arith, exact) in
      acknowledged-after n i' m k waits expects settles
      ∙ ap (settled_after m k) (omega (arith, counts))

  -- A response with `k` backups is what the promise is settled with exactly once the response and
  -- `k` acknowledgements have arrived, `a` of them before it and `b` after it.
  pub acknowledged-notify :
      (a b now : ℕ) (i : Invocation C A) (m : Message A)
      → i.pending_response ≡ none
      → i.backups_acks_received ≡ 0
      → i.deferred ≡ none
      → ((acknowledged a i).deferred ≡ none)
        × ((acknowledged b (notify (acknowledged a i) m now).0).deferred
            ≡ settled_after m m.number_of_backup_acks (a + b))
  unfolding notify complete settle
  acknowledged-notify a b now i m e f d =
      let before = acknowledged-before a i e in
      let i' : Invocation C A = record i { backups_acks_received = a } in
      let started : acknowledged a i ≡ i' =
        before ∙ ap (λ c. record i { backups_acks_received = c }) (omega (arith, f)) in
      let n = (notify i' m now).0 in
      rw started (
        d,
        elim (Bool-cases (ltb a m.number_of_backup_acks)) [
          | inl h ↦
              let waits : n.pending_response ≡ some m = ground arith in
              let expects : n.backups_acks_expected ≡ pos m.number_of_backup_acks = ground arith in
              let counts : n.backups_acks_received ≡ a = ground arith in
              let open_yet : n.deferred
                  ≡ settled_after m m.number_of_backup_acks n.backups_acks_received =
                ground arith in
              acknowledged-after b n m m.number_of_backup_acks waits expects open_yet
              ∙ ap (settled_after m m.number_of_backup_acks) (omega (arith, counts))
          | inr h ↦
              let idle : n.pending_response ≡ none = ground arith in
              let done_now : n.deferred ≡ some (resolved m) = ground arith in
              ap (λ (x : Invocation C A). x.deferred) (acknowledged-before b n idle)
              ∙ done_now
              ∙ ground arith
        ],
      )
