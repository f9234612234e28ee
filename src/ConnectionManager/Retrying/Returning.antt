-- ===== src/ConnectionManager/Retrying/Returning.antt =====
-- network/ConnectionManager.ts and WaitStrategy.ts: the attempts end, and for what reason.
use hazelcast_nodejs_client.Prelude.{
  ℕ, zero, suc, ◌+◌, ◌-◌, ◌≡◌, ◌≤◌, ◌<◌, ◌⊎◌, inl, inr, refl, ◌∙◌, Bool, true, false, not,
  ℕ_discrete, Bool-cases, List, [], ◌∷◌, Option, some, arith, ltb, ltb→lt, All, select,
}
use hazelcast_nodejs_client.ConnectionManager.Manager.{Address}
use hazelcast_nodejs_client.ConnectionManager.Retrying.{
  Target, Attempt, accepted, failed, refused, Environment, WaitStrategy, reset_wait, sleep,
  is_tried, add_address, add_addresses, Round, connects, connects_none, throws_not_active,
  throws_refused, try_one, try_connecting, after_members, try_addresses, after_round, Outcome,
  joined, gave_up, client_not_active, try_connecting_to_addresses, do_connect_to_candidate_cluster,
}

-- Why a round over targets ends.
abbrev RoundReason : (Target → Attempt) → (ℕ → Bool) → Round → Type 0
RoundReason connect is_running connects = (t : Target) × (connect t ≡ accepted)
RoundReason connect is_running connects_none = Unit
RoundReason connect is_running throws_refused = (t : Target) × (connect t ≡ refused)
RoundReason connect is_running throws_not_active = (i : ℕ) × (is_running i ≡ false)

try_one-RoundReason :
    (connect : Target → Attempt) (is_running : ℕ → Bool) (index : ℕ) (item : Target) (b : Bool)
    (a : Attempt) (before tried : List Address) (rest : Round × List Address)
    → is_running index ≡ b
    → connect item ≡ a
    → RoundReason connect is_running (rest.0)
    → RoundReason connect is_running ((try_one b a before tried rest).0)
unfolding try_one
try_one-RoundReason connect is_running index item false a before tried rest e f r = (index, e)
try_one-RoundReason connect is_running index item true accepted before tried rest e f r = (item, f)
try_one-RoundReason connect is_running index item true refused before tried rest e f r = (item, f)
try_one-RoundReason connect is_running index item true failed before tried rest e f r = r

try_connecting-RoundReason :
    (connect : Target → Attempt) (is_running : ℕ → Bool) (index : ℕ) (items : List Target)
    (tried : List Address)
    → RoundReason connect is_running ((try_connecting connect is_running index items tried).0)
unfolding try_connecting
try_connecting-RoundReason connect is_running index [] tried = tt
try_connecting-RoundReason connect is_running index (item ∷ items) before =
    let tried = add_address item.address before in
    try_one-RoundReason connect is_running index item (is_running index) (connect item) before tried
      (try_connecting connect is_running (index + 1) items tried) refl refl
      (try_connecting-RoundReason connect is_running (index + 1) items tried)

after_members-RoundReason :
    (connect : Target → Attempt) (is_running : ℕ → Bool)
    (provided : List Address → Round × List Address) (round : Round) (tried : List Address)
    → RoundReason connect is_running round
    → ((l : List Address) → RoundReason connect is_running ((provided l).0))
    → RoundReason connect is_running ((after_members provided (round, tried)).0)
unfolding after_members
after_members-RoundReason connect is_running provided connects tried r s = r
after_members-RoundReason connect is_running provided connects_none tried r s = s tried
after_members-RoundReason connect is_running provided throws_not_active tried r s = r
after_members-RoundReason connect is_running provided throws_refused tried r s = r

try_addresses-RoundReason :
    (env : Environment) (n : ℕ)
    → RoundReason (env.connect n) (env.is_running n) ((try_addresses env n).0)
unfolding try_addresses
try_addresses-RoundReason env n =
    let members = try_connecting (env.connect n) (env.is_running n) 0 (env.members n) [] in
    after_members-RoundReason (env.connect n) (env.is_running n) _ (members.0) (members.1)
      (try_connecting-RoundReason (env.connect n) (env.is_running n) 0 (env.members n) [])
      (λ l. try_connecting-RoundReason (env.connect n) (env.is_running n) 0 _ l)

-- A round that connects none: every target failed.
try_one-none :
    (b : Bool) (a : Attempt) (before tried : List Address) (rest : Round × List Address)
    → (try_one b a before tried rest).0 ≡ connects_none
    → (a ≡ failed) × (rest.0 ≡ connects_none)
unfolding try_one
try_one-none false a before tried rest e = absurd (cc)
try_one-none true accepted before tried rest e = absurd (cc)
try_one-none true refused before tried rest e = absurd (cc)
try_one-none true failed before tried rest e = (refl, e)

try_connecting-none :
    (connect : Target → Attempt) (is_running : ℕ → Bool) (index : ℕ) (items : List Target)
    (tried : List Address)
    → (try_connecting connect is_running index items tried).0 ≡ connects_none
    → All (λ t. connect t ≡ failed) items
unfolding try_connecting
try_connecting-none connect is_running index [] tried e = tt
try_connecting-none connect is_running index (item ∷ items) before e =
    let tried = add_address item.address before in
    let rest = try_connecting connect is_running (index + 1) items tried in
    let (this, others) = try_one-none (is_running index) (connect item) before tried rest e in
    (this, try_connecting-none connect is_running (index + 1) items tried others)

after_members-none :
    (provided : List Address → Round × List Address) (round : Round × List Address)
    → (after_members provided round).0 ≡ connects_none
    → (round.0 ≡ connects_none) × ((provided (round.1)).0 ≡ connects_none)
unfolding after_members
after_members-none provided (connects_none, tried) e = (refl, e)
after_members-none provided (connects, tried) e = absurd (cc)
after_members-none provided (throws_not_active, tried) e = absurd (cc)
after_members-none provided (throws_refused, tried) e = absurd (cc)

-- The provided targets whose addresses were not tried as those of members.
abbrev pub not_tried : Environment → ℕ → List Target
not_tried env n =
    select
      (λ item. not (
        is_tried item.address
          (try_connecting (env.connect n) (env.is_running n) 0 (env.members n) []).1))
      (env.provided n)

-- Every member, and every provided target that is not tried yet, fails.
abbrev pub NoneConnects : Environment → ℕ → Type 0
NoneConnects env n =
    All (λ t. env.connect n t ≡ failed) (env.members n)
    × All (λ t. env.connect n t ≡ failed) (not_tried env n)

try_addresses-NoneConnects :
    (env : Environment) (n : ℕ) → (try_addresses env n).0 ≡ connects_none → NoneConnects env n
unfolding try_addresses
try_addresses-NoneConnects env n e =
    let members = try_connecting (env.connect n) (env.is_running n) 0 (env.members n) [] in
    let (first, second) = after_members-none _ members e in
    (
      try_connecting-none (env.connect n) (env.is_running n) 0 (env.members n) [] first,
      try_connecting-none (env.connect n) (env.is_running n) 0 (not_tried env n) (members.1) second,
    )

-- At each attempt before one all targets failed, the client was found running, and the timeout had not
-- passed.
abbrev pub Before : Environment → ℕ → ℕ → ℕ → Type 0
Before env timeout start n =
    (m : ℕ)
    → m < n
    → NoneConnects env m × (env.is_running_after m ≡ true) × (env.now m - start ≤ timeout)

-- What ended it at an attempt: a target accepted a connection; or one refused the client for good or
-- none connected and the timeout had passed; or the client did not run any more.
abbrev pub Reason : Environment → ℕ → ℕ → ℕ → Outcome → Type 0
Reason env timeout start n joined = (t : Target) × (env.connect n t ≡ accepted)
Reason env timeout start n gave_up =
    ((t : Target) × (env.connect n t ≡ refused))
    ⊎ (NoneConnects env n × (timeout < env.now n - start))
Reason env timeout start n client_not_active =
    ((i : ℕ) × (env.is_running n i ≡ false))
    ⊎ (NoneConnects env n × (env.is_running_after n ≡ false))

pub record Returns (env : Environment) (timeout start : ℕ)
    (result : Option (Outcome × List Address)) : Type 0 where
  pub outcome : Outcome
  pub tried : List Address
  pub returns : result ≡ some (outcome, tried)
  pub attempt : ℕ
  pub within : attempt ≤ suc timeout
  pub before : Before env timeout start attempt
  pub reason : Reason env timeout start attempt outcome

module _ (env : Environment) (timeout start n : ℕ) (within : n ≤ suc timeout)
    (before : Before env timeout start n) where
  after_round-Returns :
      (round : Round) (is_running not_timed_out : Bool) (tried all_tried : List Address)
      (rest : Option (Outcome × List Address))
      → RoundReason (env.connect n) (env.is_running n) round
      → (try_addresses env n).0 ≡ round
      → env.is_running_after n ≡ is_running
      → not (ltb timeout (env.now n - start)) ≡ not_timed_out
      → (round ≡ connects_none
          → is_running ≡ true
          → not_timed_out ≡ true
          → Returns env timeout start rest)
      → Returns env timeout start (after_round round is_running not_timed_out tried all_tried rest)
  unfolding after_round
  after_round-Returns connects r t tried all_tried rest target d f g later = record {
    outcome = joined;
    tried = tried;
    returns = refl;
    attempt = n;
    within = within;
    before = before;
    reason = target;
  }
  after_round-Returns throws_refused r t tried all_tried rest target d f g later = record {
    outcome = gave_up;
    tried = tried;
    returns = refl;
    attempt = n;
    within = within;
    before = before;
    reason = inl target;
  }
  after_round-Returns throws_not_active r t tried all_tried rest stopped d f g later = record {
    outcome = client_not_active;
    tried = tried;
    returns = refl;
    attempt = n;
    within = within;
    before = before;
    reason = inl stopped;
  }
  after_round-Returns connects_none false t tried all_tried rest _ d f g later = record {
    outcome = client_not_active;
    tried = all_tried;
    returns = refl;
    attempt = n;
    within = within;
    before = before;
    reason = inr (try_addresses-NoneConnects env n d, f);
  }
  after_round-Returns connects_none true true tried all_tried rest _ d f g later =
      later refl refl refl
  after_round-Returns connects_none true false tried all_tried rest _ d f g later = record {
    outcome = gave_up;
    tried = all_tried;
    returns = refl;
    attempt = n;
    within = within;
    before = before;
    reason = inr (
      try_addresses-NoneConnects env n d,
      ltb→lt timeout (env.now n - start) (ground (arith, g)),
    );
  }

  Before-suc :
      (try_addresses env n).0 ≡ connects_none
      → env.is_running_after n ≡ true
      → env.now n - start ≤ timeout
      → Before env timeout start (suc n)
  Before-suc d f g m h = elim (ℕ_discrete m n) [
    | yes e ↦ rw (e) (try_addresses-NoneConnects env n d, f, g)
    | no e ↦ before m (omega (arith, e))
  ]

-- The sleep neither moves the timeout nor the start.
sleep-kept :
    (times_multiplier : ℕ → ℕ) (now : ℕ) (w : WaitStrategy)
    → (not (ltb w.cluster_connect_timeout_millis (now - w.cluster_connect_attempt_begin))
        ≡ (sleep times_multiplier now w).0)
      × ((sleep times_multiplier now w).1.cluster_connect_timeout_millis
          ≡ w.cluster_connect_timeout_millis)
      × ((sleep times_multiplier now w).1.cluster_connect_attempt_begin
          ≡ w.cluster_connect_attempt_begin)
unfolding sleep
sleep-kept times_multiplier now w =
    elim (Bool-cases
      (ltb w.cluster_connect_timeout_millis (now - w.cluster_connect_attempt_begin))) [
        | inl e ↦ rw (e) (refl, refl, refl)
        | inr e ↦ rw (e) (refl, refl, refl)
      ]

module _ (env : Environment) (times_multiplier : ℕ → ℕ) (timeout start : ℕ)
    (time_passes : (n : ℕ) → start + n ≤ env.now n) where
  try_connecting_to_addresses-Returns :
      (fuel n : ℕ) (tried : List Address) (w : WaitStrategy)
      → w.cluster_connect_timeout_millis ≡ timeout
      → w.cluster_connect_attempt_begin ≡ start
      → n ≤ suc timeout
      → suc (suc timeout) ≤ fuel + n
      → Before env timeout start n
      → Returns env timeout start (try_connecting_to_addresses env times_multiplier fuel n tried w)
  unfolding try_connecting_to_addresses
  try_connecting_to_addresses-Returns zero n tried w e f h k b = absurd (omega arith)
  try_connecting_to_addresses-Returns (suc fuel) n tried w e f h k b =
      let all_tried = add_addresses ((try_addresses env n).1) tried in
      let waited = sleep times_multiplier (env.now n) w in
      let (test, same_timeout, same_start) = sleep-kept times_multiplier (env.now n) w in
      let tested : not (ltb timeout (env.now n - start)) ≡ waited.0 = rw⁻¹ (e, f) test in
      after_round-Returns env timeout start n h b ((try_addresses env n).0) (env.is_running_after n)
        (waited.0) tried all_tried
        (try_connecting_to_addresses env times_multiplier fuel (suc n) all_tried (waited.1))
        (try_addresses-RoundReason env n) refl refl tested
        (λ none_connects runs in_time.
          let in_range : env.now n - start ≤ timeout = ground (arith, tested, in_time) in
          try_connecting_to_addresses-Returns fuel (suc n) all_tried (waited.1) (same_timeout ∙ e)
            (same_start ∙ f) (omega (arith, in_range, time_passes n)) (omega arith)
            (Before-suc env timeout start n h b none_connects runs in_range))

-- Where the clock has moved on by a millisecond or more at each attempt, connecting to a candidate
-- cluster ends at one of the first attempts, at most as many as the timeout has milliseconds and two
-- more, whatever the members and the address provider answer. At each attempt before, all members and
-- all provided addresses that were not among theirs failed, the client ran and the timeout had not
-- passed. At the last one, it gives `true` only where a target accepted a connection; `false` only
-- where a target refused the client for good, or all failed and the timeout had passed; and the error
-- of an inactive client only where the client was found not to run.
pub do_connect_to_candidate_cluster-Returns :
    (env : Environment) (times_multiplier : ℕ → ℕ) (start : ℕ) (w : WaitStrategy)
    → ((n : ℕ) → start + n ≤ env.now n)
    → Returns env w.cluster_connect_timeout_millis start
        (do_connect_to_candidate_cluster env times_multiplier start w)
unfolding do_connect_to_candidate_cluster reset_wait
do_connect_to_candidate_cluster-Returns env times_multiplier start w time_passes =
    try_connecting_to_addresses-Returns env times_multiplier w.cluster_connect_timeout_millis start
      time_passes (suc (suc w.cluster_connect_timeout_millis)) 0 [] (reset_wait start w) refl refl
      (omega arith) (omega arith) (λ m h. absurd (omega arith))
