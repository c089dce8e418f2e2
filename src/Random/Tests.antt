-- ===== src/Random/Tests.antt =====
-- A generator that counts.
use smf.Prelude.{ℕ, ◌+◌, ◌≡◌, refl, arith, ◌%◌}
use native.Mathlib.Nat.{mod-lt}
use smf.Random.{Generator, randstr, next_alphanum}
use smf.Smfc.Printer.{codes}

abbrev counting : Generator ℕ
counting = record {
  uniform = λ max r. (r % (max + 1), r + 1);
  uniform-le = λ max r. omega (arith, mod-lt r {m = max + 1} (omega arith));
}

-- The draw 62 is one past the alphabet and gives its first letter once more.
wraps : (next_alphanum counting 4 60).0 ≡ codes "90aa"
unfolding next_alphanum randstr
wraps = refl
