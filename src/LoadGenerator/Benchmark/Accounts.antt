-- ===== src/LoadGenerator/Benchmark/Accounts.antt =====
-- Every request of a benchmark is accounted for when it returns.
use mathlib.Core.Path.{subst}
use mathlib.Core.Option.{some-injective}
use native.Mathlib.Nat.{suc-mul, add-zero}
use smf.Prelude.{
  ℕ, zero, suc, ◌+◌, ◌*◌, ◌≤◌, ◌≡◌, refl, sym, ap, ◌∙◌, Bool, true, false, not, ◌&&◌, List, [], ◌∷◌,
  Option, none, some, inl, inr, arith, length, pluck, sum_by, sum_by-pluck, ltb, ◌==◌, Bool-cases,
  Option-cases,
}
use smf.Rpc.Envelope.{Envelope}
use smf.LoadGenerator.{Args, reqs_per_channel, HasQuotient}
use smf.LoadGenerator.Benchmark.{
  Bench, Event, launched, answered, call_failed, finished, benchmark, call_next, launch, answer,
  fail_call, finish, step, run,
}

length-pluck {ℓ} :
    {A : Type ℓ} (k : ℕ) (xs : List A) (x : A) (rest : List A)
    → pluck k xs ≡ some (x, rest)
    → length xs ≡ length rest + 1
length-pluck k [] x rest e = ground arith
length-pluck zero (y ∷ xs) x rest e = ground arith
length-pluck (suc k) (y ∷ xs) x rest e = elim (Option-cases (pluck k xs)) [
  | inl missing ↦ ground arith
  | inr ((z, zs), found) ↦ ground (arith, length-pluck k xs z zs found)
]

abbrev left_over : List ℕ → ℕ
left_over = sum_by (λ n. n)

-- The requests that a channel does not send since a call failed.
abbrev lost_by : Option (ℕ × List ℕ) → ℕ
lost_by none = 0
lost_by (some (left, others)) = left

abbrev pub lost : Event → Bench → ℕ
lost (call_failed k) b = lost_by (pluck k b.running)
lost _ b = 0

module _ (args : Args) where
  abbrev pub all_requests : ℕ
  all_requests = args.concurrency * reqs_per_channel args

  -- The calls that were made and those that are still to come.
  abbrev pub accounted : Bench → ℕ
  accounted b = b.calls + left_over b.running + b.to_launch * reqs_per_channel args

  -- Each channel that runs holds a unit until all is over.
  abbrev Units : Bool → Bench → Type 0
  Units false b = b.limit + length b.running ≡ args.concurrency
  Units true b = (b.running ≡ []) × (b.to_launch ≡ 0)

  abbrev Keeps : Event → Bench → Bench → Type 0
  Keeps x b b' =
      (accounted b' + lost x b ≡ accounted b)
      × (b'.returned ≡ b.returned)
      × (b'.limit + length b'.running ≡ b.limit + length b.running)

  positive : 1 ≤ reqs_per_channel args
  unfolding reqs_per_channel
  positive = ground arith

  launch-Keeps :
      (limit to_launch : ℕ) (e : Envelope) (b b' : Bench)
      → b.limit ≡ limit
      → b.to_launch ≡ to_launch
      → launch args limit to_launch e b ≡ some b'
      → Keeps (launched e) b b'
  unfolding launch call_next
  launch-Keeps (suc u) (suc t) e b b' p q done =
      ground (arith, suc-mul t (reqs_per_channel args), positive)
  launch-Keeps zero t e b b' p q done = ground arith
  launch-Keeps (suc u) zero e b b' p q done = ground arith

  answer-Keeps :
      (r : Option (ℕ × List ℕ)) (k : ℕ) (e : Envelope) (b b' : Bench)
      → pluck k b.running ≡ r
      → answer args r e b ≡ some b'
      → Keeps (answered k e) b b'
  unfolding answer call_next
  answer-Keeps none k e b b' found done = ground arith
  answer-Keeps (some (zero, others)) k e b b' found done = ground (
    arith,
    sum_by-pluck (λ n. n) k b.running 0 others found,
    length-pluck k b.running 0 others found,
  )
  answer-Keeps (some (suc n, others)) k e b b' found done = ground (
    arith,
    sum_by-pluck (λ n. n) k b.running (suc n) others found,
    length-pluck k b.running (suc n) others found,
  )

  fail-Keeps :
      (r : Option (ℕ × List ℕ)) (k : ℕ) (b b' : Bench)
      → pluck k b.running ≡ r
      → fail_call args r b ≡ some b'
      → Keeps (call_failed k) b b'
  unfolding fail_call
  fail-Keeps none k b b' found done = ground arith
  fail-Keeps (some (n, others)) k b b' found done = ground (
    arith,
    sum_by-pluck (λ n. n) k b.running n others found,
    length-pluck k b.running n others found,
  )

  -- Calls, units and the end, together.
  abbrev IsSound : ℕ → ℕ → Bench → Type 0
  IsSound n total b = (accounted b + n ≡ total) × Units b.returned b

  -- A bench that has returned has no channel left, so nothing but its end can have happened last.
  IsSound-Keeps :
      (x : Event) (n total : ℕ) (b b' : Bench)
      → b.returned ≡ false
      → Keeps x b b'
      → IsSound n total b
      → IsSound (n + lost x b) total b'
  IsSound-Keeps x n total b b' going k h =
      (omega (arith, k.0, h.0), rw (k.1, going) (k.2 ∙ subst (λ r. Units r b) going h.1))

  finish-IsSound :
      (now n total : ℕ) (b b' : Bench)
      → b.returned ≡ false
      → finish args now b ≡ some b'
      → IsSound n total b
      → IsSound n total b'
  unfolding finish
  finish-IsSound now n total b b' going done h =
      elim (Bool-cases (b.to_launch == 0 && not (ltb b.limit args.concurrency))) [
        | inl over ↦ subst (IsSound n total) (some-injective _ _ (rw over at done)) (
          h.0,
          (no_channel b.running (subst (λ r. Units r b) going h.1) (ground arith), ground arith),
        )
        | inr early ↦ ground arith
      ]
    where
      no_channel :
          (running : List ℕ)
          → b.limit + length running ≡ args.concurrency
          → args.concurrency ≤ b.limit
          → running ≡ []
      no_channel [] e le = refl
      no_channel (r ∷ rs) e le = absurd (omega (arith, e, le))

  launch-none : (u t : ℕ) (e : Envelope) (b : Bench) → t ≡ 0 → launch args u t e b ≡ none
  unfolding launch
  launch-none zero t e b z = refl
  launch-none (suc u) zero e b z = refl
  launch-none (suc u) (suc t) e b z = absurd (omega (arith, z))

  -- After the end nothing happens.
  over-step :
      (x : Event) (b : Bench)
      → b.returned ≡ true
      → (b.running ≡ []) × (b.to_launch ≡ 0)
      → step args x b ≡ none
  unfolding step answer fail_call
  over-step (launched e) b r h = launch-none b.limit b.to_launch e b h.1
  over-step (answered k e) b r h = rw h.0 refl
  over-step (call_failed k) b r h = rw h.0 refl
  over-step (finished now) b r h = rw r refl

  step-IsSound :
      (x : Event) (n total : ℕ) (b b' : Bench)
      → step args x b ≡ some b'
      → IsSound n total b
      → IsSound (n + lost x b) total b'
  unfolding step
  step-IsSound x n total b b' done h = elim (Bool-cases b.returned) [
    | inl over ↦ absurd (stuck (sym (over-step x b over (subst (λ r. Units r b) over h.1)) ∙ done))
    | inr going ↦ going_on x b b' done going h
  ]
    where
      stuck : none ≡ some b' → ⊥
      stuck e = ground (arith, e)

      going_on :
          (x : Event) (b b' : Bench)
          → step args x b ≡ some b'
          → b.returned ≡ false
          → IsSound n total b
          → IsSound (n + lost x b) total b'
      going_on (launched e) b b' done going h =
          IsSound-Keeps (launched e) n total b b' going
            (launch-Keeps b.limit b.to_launch e b b' refl refl done) h
      going_on (answered k e) b b' done going h =
          IsSound-Keeps (answered k e) n total b b' going
            (answer-Keeps (pluck k b.running) k e b b' refl done) h
      going_on (call_failed k) b b' done going h =
          IsSound-Keeps (call_failed k) n total b b' going
            (fail-Keeps (pluck k b.running) k b b' refl done) h
      going_on (finished now) b b' done going h =
          rw (add-zero n) (finish-IsSound now n total b b' going (rw going at done) h)

  -- The requests that are never sent along a run.
  unfoldable pub lost_along : List Event → Bench → ℕ
  lost_along [] b = 0
  lost_along (x ∷ xs) b = elim (step args x b) [ none ↦ 0 | some b' ↦ lost x b + lost_along xs b' ]

  run-IsSound :
      (xs : List Event) (n total : ℕ) (b b' : Bench)
      → run args xs b ≡ some b'
      → IsSound n total b
      → IsSound (n + lost_along xs b) total b'
  unfolding run lost_along
  run-IsSound [] n total b b' done h =
      rw (add-zero n) (subst (IsSound n total) (some-injective _ _ done) h)
  run-IsSound (x ∷ xs) n total b b' done h = elim (Option-cases (step args x b)) [
    | inl stuck ↦ ground arith
    | inr (t, now) ↦ ground (
      arith,
      run-IsSound xs (n + lost x b) total t b' (ground arith) (step-IsSound x n total b t now h),
    )
  ]

  -- With at least one channel and fewer than 2 ^ 32 requests for each: when a benchmark returns,
  -- every channel was launched and has no call under way, and the calls that were made, with the
  -- requests that a channel did not come to since one of its calls failed, are those of all
  -- channels, however the answers of the channels interleave.
  pub benchmark-accounts :
      (now : ℕ) (xs : List Event) (b : Bench)
      → HasQuotient args
      → run args xs (benchmark args now) ≡ some b
      → b.returned ≡ true
      → (b.running ≡ [])
        × (b.to_launch ≡ 0)
        × (b.calls + lost_along xs (benchmark args now) ≡ all_requests)
  unfolding benchmark
  benchmark-accounts now xs b defined done over =
      let h =
        run-IsSound xs 0 all_requests (benchmark args now) b done (omega arith, omega arith) in
      let quiet = subst (λ r. Units r b) over h.1 in
      (
        quiet.0,
        quiet.1,
        omega (arith, h.0, ap left_over quiet.0, ap (λ t. t * reqs_per_channel args) quiet.1),
      )
