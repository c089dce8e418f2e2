-- ===== src/Client/Reconnect.antt =====
-- src/include/smf/reconnect_client.h: reconnection in the background, with growing pauses.
pub mod Stop
mod Tests
use smf.Prelude.{
  ℕ, zero, suc, ◌+◌, ◌*◌, ◌%◌, ◌^◌, ◌<◌, ◌≤◌, ◌≡◌, refl, ap, ◌∙◌, ◌⊎◌, Bool, true, false, List, [],
  ◌∷◌, Option, none, some, arith, get_or, leb, if◌then◌else◌,
}
use smf.Rpc.Future.{Completion, ready, failed, remote_connection_error}

-- The values of `reconnect_backoff`, in seconds.
abbrev pub backoffs : List ℕ
backoffs = 0 ∷ 1 ∷ 3 ∷ 5 ∷ 10 ∷ 20 ∷ 30 ∷ 60 ∷ 300 ∷ 600 ∷ 1800 ∷ []

-- The first entry that is not below, or the last value.
clamp : ℕ → List ℕ → ℕ
clamp b [] = 1800
clamp b (x ∷ xs) = let rest = clamp b xs in if leb b x then x else rest

-- The prefix `operator++`, on a uint16_t.
unfoldable pub next_backoff : ℕ → ℕ
unfolding clamp
next_backoff b = clamp ((b + 1) % 2 ^ 16) backoffs

pub record Reconnecting : Type 0 where
  pub backoff : ℕ
  pub gate_closed : Bool

-- The pause, in milliseconds, before `connect` is called again; a gate that was closed while the
-- client was connecting refuses it.
pub pauses : (closed_meanwhile : Bool) (random : ℕ) → Reconnecting → Option ℕ × Reconnecting
unfolding next_backoff
pauses true random r = (none, record r { gate_closed = true })
pauses false random r =
    let longer = next_backoff r.backoff in
    (some (random % 100 + longer * 1000), record r { backoff = longer })

pub attempted :
    (closed_meanwhile : Bool) (random : ℕ) → Completion → Reconnecting → Option ℕ × Reconnecting
unfolding pauses
attempted closed random (ready u) r = (none, record r { backoff = 0; gate_closed = closed })
attempted closed random (failed x) r = pauses closed random r

-- `outcome` is what the client's `reconnect` brings.
unfoldable pub connect :
    (conn_valid closed_meanwhile : Bool) (random : ℕ) (outcome : Completion)
    → Reconnecting
    → Option ℕ × Reconnecting
unfolding attempted
connect conn_valid closed_meanwhile random outcome r =
    if conn_valid
    then (none, r)
    else if r.gate_closed
    then (none, r)
    else attempted closed_meanwhile random outcome r

-- The state after `n` attempts in a row that fail, with an open gate and no random part.
unfoldable pub after_failures : ℕ → Reconnecting → Reconnecting
after_failures zero r = r
after_failures (suc n) r =
    let before = after_failures n r in
    (connect false false 0 (failed remote_connection_error) before).1

abbrev backs_off : ℕ → Reconnecting
backs_off b = record { backoff = b; gate_closed = false }

one_failure :
    (b : ℕ)
    → (connect false false 0 (failed remote_connection_error) (backs_off b)).1
      ≡ backs_off (next_backoff b)
unfolding connect
one_failure b = refl

next_entry : (n : ℕ) → next_backoff (get_or backoffs n 1800) ≡ get_or backoffs (suc n) 1800
unfolding next_backoff
next_entry zero = refl
next_entry (suc zero) = refl
next_entry (suc (suc zero)) = refl
next_entry (suc (suc (suc zero))) = refl
next_entry (suc (suc (suc (suc zero)))) = refl
next_entry (suc (suc (suc (suc (suc zero))))) = refl
next_entry (suc (suc (suc (suc (suc (suc zero)))))) = refl
next_entry (suc (suc (suc (suc (suc (suc (suc zero))))))) = refl
next_entry (suc (suc (suc (suc (suc (suc (suc (suc zero)))))))) = refl
next_entry (suc (suc (suc (suc (suc (suc (suc (suc (suc zero))))))))) = refl
next_entry (suc (suc (suc (suc (suc (suc (suc (suc (suc (suc zero)))))))))) = refl
next_entry (suc (suc (suc (suc (suc (suc (suc (suc (suc (suc (suc n))))))))))) = refl

-- After any number of failed attempts in a row the backoff is the entry of the table at that
-- number, and its last entry once the table is used up.
pub after_failures-backoff :
    (n : ℕ) → after_failures n (backs_off 0) ≡ backs_off (get_or backoffs n 1800)
unfolding after_failures
after_failures-backoff zero = refl
after_failures-backoff (suc n) =
    ap (λ r. (connect false false 0 (failed remote_connection_error) r).1)
      (after_failures-backoff n)
    ∙ one_failure (get_or backoffs n 1800)
    ∙ ap backs_off (next_entry n)

-- With an open gate and a backoff of at most 1800, a failed attempt makes the backoff longer or the
-- longest one, and the pause lasts at least that many seconds and less than 100 milliseconds more.
pub pause-bounds :
    (random : ℕ) (r : Reconnecting)
    → r.gate_closed ≡ false
    → r.backoff ≤ 1800
    → (ms : ℕ) × (b : ℕ) × (connect false false random (failed remote_connection_error) r
        ≡ (some ms, record r { backoff = b }))
      × ((r.backoff < b) ⊎ (b ≡ 1800))
      × (b ≤ 1800)
      × (b * 1000 ≤ ms)
      × (ms < b * 1000 + 100)
unfolding connect next_backoff
pause-bounds random r unlocked small = (
  random % 100 + next_backoff r.backoff * 1000,
  next_backoff r.backoff,
  ground arith,
  ground arith,
  ground arith,
  omega arith,
  omega arith,
)
